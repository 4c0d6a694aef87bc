-- ===== src/Sched/Pick.antt =====
-- `pick_next` of src/sched.c takes the first ready task behind the current one, round the table.
use mykernel.Base.{
  ℕ, zero, suc, ◌+◌, ◌%◌, ◌≤◌, ◌<◌, ◌≡◌, inl, inr, Bool, true, false, none, some, List, arith,
  Bool-cases, ◌==◌,
}
use mykernel.Sched.{Task, is_ready, max_tasks, pick_from}
use mykernel.Sched.Table.{state_of}

abbrev pub ready_at : List Task → ℕ → Bool
ready_at ts i = is_ready (state_of ts i)

-- The task `steps` behind `start` is ready, and none between is.
pub record Chosen (i k start : ℕ) (ts : List Task) (idx : ℕ) : Type 0 where
  pub steps : ℕ
  pub from : i ≤ steps
  pub below : steps < i + k
  pub at : idx ≡ (start + steps) % max_tasks
  pub ready : ready_at ts idx ≡ true
  pub first : (e : ℕ) → i ≤ e → e < steps → ready_at ts ((start + e) % max_tasks) ≡ false

pub pick_from-Chosen :
    (k i start : ℕ) (ts : List Task) (idx : ℕ)
    → pick_from k i start ts ≡ some idx
    → Chosen i k start ts idx
unfolding pick_from
pick_from-Chosen zero i start ts idx e = absurd (ground arith)
pick_from-Chosen (suc k) i start ts idx e =
    elim (Bool-cases (ready_at ts ((start + i) % max_tasks))) [
      | inl hit ↦ record {
        steps = i;
        from = omega arith;
        below = omega arith;
        at = ground arith;
        ready = ground arith;
        first = λ e lo hi. absurd (omega arith);
      }
      | inr miss ↦
          let c = pick_from-Chosen k (i + 1) start ts idx (ground arith) in
          record {
            steps = c.steps;
            from = omega (arith, c.from);
            below = omega (arith, c.below);
            at = c.at;
            ready = c.ready;
            first = λ e lo hi. elim (Bool-cases (i == e)) [
              | inl here ↦ ground arith
              | inr there ↦ c.first e (ground arith) hi
            ];
          }
    ]

pub pick_from-none :
    (k i start : ℕ) (ts : List Task)
    → pick_from k i start ts ≡ none
    → (e : ℕ) → i ≤ e
    → e < i + k
    → ready_at ts ((start + e) % max_tasks) ≡ false
unfolding pick_from
pick_from-none zero i start ts q e lo hi = absurd (omega arith)
pick_from-none (suc k) i start ts q e lo hi =
    elim (Bool-cases (ready_at ts ((start + i) % max_tasks))) [
      | inl hit ↦ absurd (ground arith)
      | inr miss ↦ elim (Bool-cases (i == e)) [
        | inl here ↦ ground arith
        | inr there ↦
            pick_from-none k (i + 1) start ts (ground arith) e (ground arith) (omega arith)
      ]
    ]
