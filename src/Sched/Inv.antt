-- ===== src/Sched/Inv.antt =====
-- The invariant of the task table of src/sched.c, and what every switch does to it.
use mykernel.Base.{ℕ, ◌<◌, ◌≡◌, ◌≢◌, Bool, true, false, some, arith, if◌then◌else◌, ◌==◌, length}
use mykernel.Sched.{TaskState, free, ready, running, Sched, max_tasks, switch_to}
use mykernel.Sched.Table.{
  state_of, id_of, state_of-switch_to, id_of-switch_to, length-switch_to, current-switch_to,
}

-- the states of a task that does not run
abbrev pub waits : TaskState → Bool
waits free = true
waits ready = true
waits _ = false

-- Task `now` runs, and no other; every other one is free or ready; the ids are the indices; the
-- shell, task 0, is never free.
pub record Runs (now : ℕ) (s : Sched) : Type 0 where
  pub size : length s.tasks ≡ max_tasks
  pub enabled : s.sched_enabled ≡ true
  pub current : s.current ≡ some now
  pub within : now < max_tasks
  pub runs : state_of s.tasks now ≡ running
  pub others : (i : ℕ) → i < max_tasks → i ≢ now → waits (state_of s.tasks i) ≡ true
  pub ids : (i : ℕ) → i < max_tasks → id_of s.tasks i ≡ i
  pub shell : state_of s.tasks 0 ≢ free

abbrev pub IsValid : Sched → Type 0
IsValid s = (now : ℕ) × Runs now s

module _ (now next : ℕ) (s : Sched) (v : Runs now s) (lt : next < max_tasks)
    (r : state_of s.tasks next ≡ ready) where
  pub state_after :
      (j : ℕ)
      → state_of (switch_to now next s).tasks j
        ≡ (if next == j then running else if now == j then ready else state_of s.tasks j)
  state_after =
      state_of-switch_to now next s (omega (arith, v.size, v.within)) (omega (arith, v.size)) v.runs

  pub switch_to-Runs : Runs next (switch_to now next s)
  switch_to-Runs =
      let hp : now < length s.tasks = omega (arith, v.size, v.within) in
      let hn : next < length s.tasks = omega (arith, v.size) in
      record {
        size = omega (arith, v.size, length-switch_to now next s hp hn v.runs);
        enabled = ground (arith, current-switch_to now next s hp hn v.runs, v.enabled);
        current = (current-switch_to now next s hp hn v.runs).0;
        within = lt;
        runs = ground (arith, state_after next);
        others = λ i h ne. ground (arith, state_after i, v.others i);
        ids = λ i h. ground (arith, id_of-switch_to now next s hp hn v.runs i, v.ids i);
        shell = ground (arith, state_after 0, v.shell);
      }
