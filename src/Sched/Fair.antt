-- ===== src/Sched/Fair.antt =====
-- No ready task of src/sched.c starves under `schedule`.
use mykernel.Base.{
  ℕ, zero, suc, ◌+◌, ◌-◌, ◌%◌, ◌≤◌, ◌<◌, ◌≡◌, ◌≢◌, ◌⊎◌, inl, inr, true, false, arith, Bool-cases,
  ◌==◌, ==→eq,
}
use mathlib.Core.Path.{subst}
use mykernel.Sched.{Sched, max_tasks, schedule}
use mykernel.Sched.Pick.{ready_at}
use mykernel.Sched.Inv.{Runs, IsValid}
use mykernel.Sched.Switch.{schedule-cases}

-- how many places `j` stands behind `now`, going round the table
abbrev pub distance : ℕ → ℕ → ℕ
distance now j = (j + max_tasks - now) % max_tasks

-- `k` calls of `schedule`
pub schedules : ℕ → Sched → Sched
schedules zero s = s
schedules (suc k) s = schedules k (schedule s)

-- One call runs the task `j` or brings the processor nearer to it.
module _ (j : ℕ) (lt : j < max_tasks) where
  nearer :
      (now : ℕ) (s : Sched)
      → Runs now s
      → ready_at s.tasks j ≡ true
      → Runs j (schedule s)
        ⊎ ((next : ℕ) × Runs next (schedule s)
            × (distance next j < distance now j)
            × (ready_at (schedule s).tasks j ≡ true))
  nearer now s v r = elim (schedule-cases now s v) [
    | inr (e, idle) ↦ absurd (ground (arith, idle j lt))
    | inl (next, n, v', states) ↦ elim (Bool-cases (next == j)) [
      | inl here ↦ inl (subst (λ x. Runs x (schedule s)) (==→eq next j here) v')
      | inr there ↦ inr (
        next,
        v',
        omega (arith, n.first j lt r, n.within, n.other, v.within, ne_of next there),
        ground (arith, states j, v.runs),
      )
    ]
  ]
    where
      ne_of : (next : ℕ) → (next == j) ≡ false → next ≢ j
      ne_of next h = λ e. absurd (ground arith)

  bounded :
      (fuel now : ℕ) (s : Sched)
      → distance now j < fuel
      → Runs now s
      → ready_at s.tasks j ≡ true
      → (k : ℕ) × (1 ≤ k) × (k ≤ fuel) × Runs j (schedules k s)
  unfolding schedules
  bounded zero now s f v r = absurd (omega arith)
  bounded (suc fuel) now s f v r = elim (nearer now s v r) [
    | inl v' ↦ (1, omega arith, omega arith, v')
    | inr (next, v', less, r') ↦
        let (k, pos, le, w) = bounded fuel next (schedule s) (omega arith) v' r' in
        (suc k, omega arith, omega arith, w)
  ]

  -- From any valid state a ready task runs after at least one and at most eight calls of
  -- `schedule`.
  pub schedule_fair :
      (s : Sched)
      → IsValid s
      → ready_at s.tasks j ≡ true
      → (k : ℕ) × (1 ≤ k) × (k ≤ 8) × Runs j (schedules k s)
  schedule_fair s v r = bounded 8 v.0 s (omega arith) v.1 r
