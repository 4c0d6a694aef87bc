-- ===== src/Sched/Tests.antt =====
-- Runs of src/sched.c, and its theorems there.
use mykernel.Base.{
  ℕ, zero, suc, ◌<◌, ◌≤◌, ◌≡◌, ◌≢◌, ◌⊎◌, refl, true, false, none, some, [], ◌∷◌, arith, ◌==◌,
  if◌then◌else◌, replicate,
}
use mykernel.Kmalloc
use mykernel.Kmalloc.{Heap}
use mykernel.Sched.{
  Task, TaskState, free, ready, running, Sched, zero_task, max_tasks, schedule, sched_on_tick,
  tick_from, count_tick, switch_unless_current, pick_next, pick_from, switch_to, context_switch,
  set_state, take_name,
}
use mykernel.Sched.Table.{state_of, id_of}
use mykernel.Sched.Inv.{Runs, waits}
use mykernel.Sched.Switch.{Next, Idle, schedule-cases}
use mykernel.Sched.Fair.{schedules, schedule_fair}
use mykernel.Sched.Spawn.{sched_spawn, free_slot, spawn_at, initial_stack, push_zeros, write32}
use mykernel.Sched.Spawn.Fresh.{Spawned, sched_spawn-Spawned}

abbrev blank : Sched
blank = record {
  tasks = replicate 8 zero_task;
  current = none;
  sched_enabled = false;
  ticks_slice = 0;
  worker_counter = 0;
  esp = 0x7000;
}

abbrev slot : ℕ → TaskState → Task
slot i st = record zero_task { id = i; state = st }

-- task 1 runs, the shell and task 2 are ready
abbrev busy : Sched
busy = record blank {
  tasks =
      slot 0 ready
      ∷ slot 1 running
      ∷ slot 2 ready
      ∷ slot 3 free
      ∷ slot 4 free
      ∷ slot 5 free
      ∷ slot 6 free
      ∷ slot 7 free
      ∷ [];
  current = some 1;
  sched_enabled = true;
  ticks_slice = 9;
}

busy-others : (i : ℕ) → i < max_tasks → i ≢ 1 → waits (state_of busy.tasks i) ≡ true
busy-others zero h ne = refl
busy-others (suc zero) h ne = absurd (ne refl)
busy-others (suc (suc zero)) h ne = refl
busy-others (suc (suc (suc zero))) h ne = refl
busy-others (suc (suc (suc (suc zero)))) h ne = refl
busy-others (suc (suc (suc (suc (suc zero))))) h ne = refl
busy-others (suc (suc (suc (suc (suc (suc zero)))))) h ne = refl
busy-others (suc (suc (suc (suc (suc (suc (suc zero))))))) h ne = refl
busy-others (suc (suc (suc (suc (suc (suc (suc (suc i)))))))) h ne = refl

busy-ids : (i : ℕ) → i < max_tasks → id_of busy.tasks i ≡ i
busy-ids zero h = refl
busy-ids (suc zero) h = refl
busy-ids (suc (suc zero)) h = refl
busy-ids (suc (suc (suc zero))) h = refl
busy-ids (suc (suc (suc (suc zero)))) h = refl
busy-ids (suc (suc (suc (suc (suc zero))))) h = refl
busy-ids (suc (suc (suc (suc (suc (suc zero)))))) h = refl
busy-ids (suc (suc (suc (suc (suc (suc (suc zero))))))) h = refl
busy-ids (suc (suc (suc (suc (suc (suc (suc (suc i)))))))) h = absurd (omega arith)

busy-Runs : Runs 1 busy
busy-Runs = record {
  size = refl;
  enabled = refl;
  current = refl;
  within = omega arith;
  runs = refl;
  others = busy-others;
  ids = busy-ids;
  shell = ground arith;
}

abbrev fresh_heap : Heap
fresh_heap = record {
  blocks = record { addr = 0x200000; size = 1048564; free = true } ∷ [];
  heap_used = 0;
  mem = λ a. 0;
}

fresh_heap-IsValid : Kmalloc.Chain.IsValid fresh_heap
fresh_heap-IsValid = ground arith

-- The tenth tick of the slice goes on to task 2.
tick_switches : (sched_on_tick busy).current ≡ some 2
unfolding sched_on_tick tick_from count_tick switch_unless_current pick_next pick_from switch_to
    context_switch set_state
tick_switches = refl

schedule-cases_example :
    ((next : ℕ) × Next 1 busy next
      × Runs next (schedule busy)
      × ((j : ℕ)
          → state_of (schedule busy).tasks j
            ≡ (if next == j then running else if 1 == j then ready else state_of busy.tasks j)))
    ⊎ ((schedule busy ≡ busy) × Idle busy)
schedule-cases_example = schedule-cases 1 busy busy-Runs

schedule_fair_example : (k : ℕ) × (1 ≤ k) × (k ≤ 8) × Runs 0 (schedules k busy)
schedule_fair_example = schedule_fair 0 (omega arith) busy (1, busy-Runs) refl

sched_spawn-Spawned_example :
    Spawned 0x100000 1 3 busy
      (sched_spawn 0x100000 none 0x101000 7 busy fresh_heap).1
      fresh_heap
      (sched_spawn 0x100000 none 0x101000 7 busy fresh_heap).2
unfolding sched_spawn free_slot spawn_at initial_stack push_zeros write32 take_name Kmalloc.kmalloc
sched_spawn-Spawned_example =
    sched_spawn-Spawned 0x100000 none 0x101000 7 1 busy fresh_heap busy-Runs fresh_heap-IsValid 3
      (sched_spawn 0x100000 none 0x101000 7 busy fresh_heap).1
      (sched_spawn 0x100000 none 0x101000 7 busy fresh_heap).2 refl
