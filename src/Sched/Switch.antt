-- ===== src/Sched/Switch.antt =====
-- `pick_next` and `schedule` of src/sched.c on a valid table.
use mykernel.Base.{
  ℕ, ◌+◌, ◌-◌, ◌%◌, ◌≤◌, ◌<◌, ◌≡◌, ◌≢◌, ◌⊎◌, inl, inr, sym, true, false, none, some, List, arith,
  if◌then◌else◌, Bool-cases, Option-cases, ◌==◌,
}
use mathlib.Core.Path.{subst}
use native.Mathlib.Decide.{dec_lt}
use mykernel.Sched.{
  Task, ready, running, Sched, max_tasks, pick_from, pick_next, switch_to, switch_unless_current,
  schedule, start_of,
}
use mykernel.Sched.Table.{state_of}
use mykernel.Sched.Pick.{ready_at, Chosen, pick_from-Chosen, pick_from-none}
use mykernel.Sched.Inv.{Runs, switch_to-Runs, state_after}

ready_at→eq : (ts : List Task) (i : ℕ) → ready_at ts i ≡ true → state_of ts i ≡ ready
ready_at→eq ts i h = ground arith

-- The task that is chosen is another one than `now`, and no ready task is nearer behind `now`.
pub record Next (now : ℕ) (s : Sched) (next : ℕ) : Type 0 where
  pub within : next < max_tasks
  pub other : next ≢ now
  pub ready : state_of s.tasks next ≡ ready
  pub first :
      (j : ℕ)
      → j < max_tasks
      → ready_at s.tasks j ≡ true
      → (next + max_tasks - now) % max_tasks ≤ (j + max_tasks - now) % max_tasks

-- No task waits for the processor.
abbrev pub Idle : Sched → Type 0
Idle s = (j : ℕ) → j < max_tasks → ready_at s.tasks j ≡ false

module _ (now : ℕ) (s : Sched) (v : Runs now s) where
  apart_now : (j : ℕ) → ready_at s.tasks j ≡ true → j ≢ now
  apart_now j r = λ e. absurd (ground (arith, v.runs))

  nearest :
      (next : ℕ)
      → Chosen 1 max_tasks now s.tasks next
      → (j : ℕ) → j < max_tasks
      → ready_at s.tasks j ≡ true
      → (next + max_tasks - now) % max_tasks ≤ (j + max_tasks - now) % max_tasks
  nearest next c j lt r =
      let e = (j + max_tasks - now) % max_tasks in
      let back : (now + e) % max_tasks ≡ j = omega (arith, v.within) in
      let pos : 1 ≤ e = omega (arith, v.within, apart_now j r) in
      elim (dec_lt e c.steps) [
        | yes near ↦ absurd (ground (arith, c.first e pos near, back, r))
        | no far ↦ omega (arith, c.at, c.below, c.from, v.within)
      ]

  Chosen-Next : (next : ℕ) → Chosen 1 max_tasks now s.tasks next → Next now s next
  Chosen-Next next c = record {
    within = omega (arith, c.at);
    other = λ e. absurd (ground (arith, c.ready, v.runs));
    ready = ready_at→eq s.tasks next c.ready;
    first = λ j lt r. nearest next c j lt r;
  }

  pub pick_next-cases :
      ((next : ℕ) × (pick_next s ≡ some next) × Next now s next)
      ⊎ ((pick_next s ≡ some now) × Idle s)
  unfolding pick_next start_of
  pick_next-cases = elim (Option-cases (pick_from max_tasks 1 now s.tasks)) [
    | inl (next, e) ↦ inl (
      next,
      ground (arith, v.current, v.ids now v.within),
      Chosen-Next next (pick_from-Chosen max_tasks 1 now s.tasks next e),
    )
    | inr e ↦ inr (ground (arith, v.current, v.ids now v.within), idle e)
  ]
    where
      idle : pick_from max_tasks 1 now s.tasks ≡ none → Idle s
      idle e = λ j lt. elim (Bool-cases (ready_at s.tasks j)) [
        | inr r ↦ r
        | inl r ↦
            let d = (j + max_tasks - now) % max_tasks in
            let back : (now + d) % max_tasks ≡ j = omega (arith, v.within) in
            let pos : 1 ≤ d = omega (arith, v.within, apart_now j r) in
            ground (arith, pick_from-none max_tasks 1 now s.tasks e d pos (omega arith), back)
      ]

  -- In a valid table `schedule` runs the nearest ready task behind the running one, which is made
  -- ready, and changes no other state; the table stays valid. With no ready task it does nothing.
  pub schedule-cases :
      ((next : ℕ) × Next now s next
        × Runs next (schedule s)
        × ((j : ℕ)
            → state_of (schedule s).tasks j
              ≡ (if next == j then running else if now == j then ready else state_of s.tasks j)))
      ⊎ ((schedule s ≡ s) × Idle s)
  unfolding schedule switch_unless_current
  schedule-cases = elim pick_next-cases [
    | inl (next, e, n) ↦
        let go : schedule s ≡ switch_to now next s =
          ground (arith, v.enabled, v.current, n.other) in
        inl (
          next,
          n,
          subst (Runs next) (sym go) (switch_to-Runs now next s v n.within n.ready),
          λ j. rw go (state_after now next s v n.within n.ready j),
        )
    | inr (e, idle) ↦ inr (ground (arith, v.enabled, v.current), idle)
  ]
