-- ===== src/Sched/Life.antt =====
-- Start, tick, exit and spawn of tasks in src/sched.c: each keeps the table valid.
use mykernel.Base.{
  ℕ, zero, suc, ◌+◌, ◌<◌, ◌≡◌, ◌≢◌, inl, inr, refl, some, List, arith, Bool-cases, leb, length, u32,
  length-set, [], ◌∷◌, ne→==, ==-refl,
}
use mykernel.Sched.{
  Task, free, Sched, task_at, max_tasks, schedule, sched_yield, sched_on_tick, tick_from,
  count_tick, switch_unless_current, pick_next, sched_init, init_tasks, first_task,
}
use mykernel.Sched.Table.{state_of, id_of, task_at-set}
use mykernel.Sched.Inv.{Runs, IsValid, switch_to-Runs}
use mykernel.Sched.Switch.{pick_next-cases}

state_of-init_tasks : (i j : ℕ) (ts : List Task) → state_of (init_tasks i ts) j ≡ free
unfolding init_tasks
state_of-init_tasks i j [] = refl
state_of-init_tasks i zero (t ∷ ts) = refl
state_of-init_tasks i (suc j) (t ∷ ts) = state_of-init_tasks (i + 1) j ts

id_of-init_tasks : (i j : ℕ) (ts : List Task) → j < length ts → id_of (init_tasks i ts) j ≡ i + j
unfolding init_tasks
id_of-init_tasks i j [] h = absurd (omega arith)
id_of-init_tasks i zero (t ∷ ts) h = omega arith
id_of-init_tasks i (suc j) (t ∷ ts) h = omega (arith, id_of-init_tasks (i + 1) j ts)

length-init_tasks : (i : ℕ) (ts : List Task) → length (init_tasks i ts) ≡ length ts
unfolding init_tasks
length-init_tasks i [] = refl
length-init_tasks i (t ∷ ts) = omega (arith, length-init_tasks (i + 1) ts)

-- `sched_init` makes a valid table out of any eight slots, in which the shell runs and no other
-- task exists.
pub sched_init-Runs :
    (s : Sched)
    → length s.tasks ≡ max_tasks
    → Runs 0 (sched_init s)
      × ((j : ℕ) → j < max_tasks → j ≢ 0 → state_of (sched_init s).tasks j ≡ free)
unfolding sched_init
sched_init-Runs s h =
    let ts = init_tasks 0 s.tasks in
    let len : length ts ≡ max_tasks = omega (arith, length-init_tasks 0 s.tasks) in
    let at = λ (j : ℕ). task_at-set ts 0 j (first_task ts) (omega arith) in
    (
      record {
        size = omega (arith, length-set ts 0 (first_task ts));
        enabled = refl;
        current = refl;
        within = omega arith;
        runs = ground (arith, at 0);
        others = λ i lt ne. ground (arith, at i, state_of-init_tasks 0 i s.tasks);
        ids = λ i lt.
            ground (arith, at i, at 0, id_of-init_tasks 0 i s.tasks, id_of-init_tasks 0 0 s.tasks);
        shell = ground (arith, at 0);
      },
      λ j lt ne. ground (arith, at j, state_of-init_tasks 0 j s.tasks),
    )

-- The switch that `schedule` and `sched_on_tick` share.
switch-IsValid :
    (now : ℕ) (s : Sched) → Runs now s → IsValid (switch_unless_current now (pick_next s) s)
unfolding switch_unless_current
switch-IsValid now s v = elim (pick_next-cases now s v) [
  | inl (next, e, n) ↦
      (next, rw (e, ne→== next now n.other) (switch_to-Runs now next s v n.within n.ready))
  | inr (e, idle) ↦ (now, rw (e, ==-refl now) v)
]

-- `sched_yield` keeps the table valid.
pub sched_yield-IsValid : (s : Sched) → IsValid s → IsValid (sched_yield s)
unfolding sched_yield schedule
sched_yield-IsValid s (now, v) =
    let go : sched_yield s ≡ switch_unless_current now (pick_next s) s =
      ground (arith, v.enabled, v.current) in
    rw go (switch-IsValid now s v)

count_tick-Runs :
    (now : ℕ) (s : Sched) (slice : ℕ)
    → Runs now s
    → Runs now (record (count_tick now s) { ticks_slice = slice })
unfolding count_tick
count_tick-Runs now s slice v =
    let t = task_at s.tasks now in
    let at = λ (j : ℕ).
      task_at-set s.tasks now j (record t { ticks_ran = u32 (t.ticks_ran + 1) })
        (omega (arith, v.size, v.within)) in
    record {
      size =
          omega (
            arith,
            v.size,
            length-set s.tasks now (record t { ticks_ran = u32 (t.ticks_ran + 1) }),
          );
      enabled = v.enabled;
      current = v.current;
      within = v.within;
      runs = ground (arith, at now, v.runs);
      others = λ i h ne. ground (arith, at i, v.others i);
      ids = λ i h. ground (arith, at i, v.ids i);
      shell = ground (arith, at 0, v.shell);
    }

-- A tick keeps the table valid, whether or not it ends the slice.
pub sched_on_tick-IsValid : (s : Sched) → IsValid s → IsValid (sched_on_tick s)
unfolding sched_on_tick
sched_on_tick-IsValid s (now, v) =
    let go : sched_on_tick s ≡ tick_from (some now) s = rw (v.enabled, v.current) in
    rw go (elim (Bool-cases (leb 10 (s.ticks_slice + 1))) [
      | inl over ↦ rw over (switch-IsValid now _ (count_tick-Runs now s 0 v))
      | inr runs ↦ (now, rw runs (count_tick-Runs now s (s.ticks_slice + 1) v))
    ])
