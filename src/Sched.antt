-- ===== src/Sched.antt =====
-- src/sched.c with src/context_switch.s: eight tasks, round robin, preemption by the timer.
-- A call is one step: the code runs with interrupts off. A task is named by its index in `tasks`,
-- a pointer to it by that index.
pub mod Table
pub mod Pick
pub mod Inv
pub mod Switch
pub mod Fair
pub mod Life
pub mod Exit
pub mod Spawn
mod Tests
use mykernel.Base.{
  ℕ, zero, suc, ◌+◌, ◌-◌, ◌*◌, ◌/◌, ◌%◌, ◌^◌, Bool, true, false, ◌&&◌, ◌||◌, not, Option, none,
  some, List, [], ◌∷◌, ltb, leb, ◌==◌, if◌then◌else◌, u32, get_or, set, replicate,
}
use mykernel.Kmalloc
use mykernel.Kmalloc.{Heap}

-- `enum task_state`
pub data TaskState : Type 0 where
  free ready running blocked zombie : TaskState

-- `struct task`; `name` up to its NUL
pub record Task : Type 0 where
  pub id : ℕ
  pub state : TaskState
  pub name : List ℕ
  pub sp : ℕ
  pub stack_base : ℕ
  pub entry : ℕ
  pub arg : ℕ
  pub ticks_ran : ℕ

-- the static variables; `current` is null before `sched_init`; `esp` is the register, as
-- `context_switch` finds it on entry
pub record Sched : Type 0 where
  pub tasks : List Task
  pub current : Option ℕ
  pub sched_enabled : Bool
  pub ticks_slice : ℕ
  pub worker_counter : ℕ
  pub esp : ℕ

abbrev pub max_tasks : ℕ
max_tasks = 8

abbrev pub stack_size : ℕ
stack_size = 4096

abbrev pub zero_task : Task
zero_task = record {
  id = 0;
  state = free;
  name = [];
  sp = 0;
  stack_base = 0;
  entry = 0;
  arg = 0;
  ticks_ran = 0;
}

abbrev pub task_at : List Task → ℕ → Task
task_at ts i = get_or ts i zero_task

abbrev pub is_ready : TaskState → Bool
is_ready ready = true
is_ready _ = false

abbrev pub is_running : TaskState → Bool
is_running running = true
is_running _ = false

abbrev pub is_free : TaskState → Bool
is_free free = true
is_free _ = false

-- at most `n` characters of a name
pub take_name : ℕ → List ℕ → List ℕ
take_name zero s = []
take_name (suc n) [] = []
take_name (suc n) (c ∷ s) = if c == 0 then [] else c ∷ take_name n s

-- `str_copy16`
abbrev pub str_copy16 : List ℕ → List ℕ
str_copy16 s = take_name 15 s

abbrev shell_name : List ℕ
shell_name = b's' ∷ b'h' ∷ b'e' ∷ b'l' ∷ b'l' ∷ []

-- the loop of `sched_init` from the index `i` on; `entry` and `arg` keep their values
init_tasks : ℕ → List Task → List Task
init_tasks i [] = []
init_tasks i (t ∷ ts) =
    record t { state = free; id = i; sp = 0; stack_base = 0; ticks_ran = 0; name = [] }
    ∷ init_tasks (i + 1) ts

-- `tasks[0]` as the shell
abbrev first_task : List Task → Task
first_task ts = record (task_at ts 0) {
  state = running;
  name = str_copy16 shell_name;
  entry = 0;
  arg = 0;
  stack_base = 0;
  sp = 0;
}

pub sched_init : Sched → Sched
sched_init s =
    let ts = init_tasks 0 s.tasks in
    record s {
      tasks = set ts 0 (first_task ts);
      current = some 0;
      sched_enabled = true;
      ticks_slice = 0;
      worker_counter = 0;
    }

-- the loop of `pick_next`, with `k` rounds left
pub pick_from : ℕ → ℕ → ℕ → List Task → Option ℕ
pick_from zero i start ts = none
pick_from (suc k) i start ts =
    let rest = pick_from k (i + 1) start ts in
    let idx = (start + i) % max_tasks in if is_ready (task_at ts idx).state then some idx else rest

start_of : Option ℕ → List Task → ℕ
start_of none ts = 0
start_of (some c) ts = (task_at ts c).id

-- Both returns behind the loop give `current`.
pub pick_next : Sched → Option ℕ
unfolding start_of
pick_next s = elim (pick_from max_tasks 1 (start_of s.current s.tasks) s.tasks) [
  | none ↦ s.current
  | some idx ↦ some idx
]

pub set_state : List Task → ℕ → TaskState → List Task
set_state ts i st = set ts i (record (task_at ts i) { state = st })

-- `pusha`, the write through `old_sp`, the load of `new_sp`, `popa` and `ret`. `new_sp` is an
-- argument: it is read before the write.
pub context_switch : (prev new_sp : ℕ) → Sched → Sched
context_switch prev new_sp s = record s {
  tasks = set s.tasks prev (record (task_at s.tasks prev) { sp = u32 (s.esp + 2 ^ 32 - 32) });
  esp = u32 (new_sp + 36);
}

-- What `schedule` and `sched_on_tick` do with a `next` that is not `current`.
pub switch_to : (prev next : ℕ) → Sched → Sched
switch_to prev next s =
    let ts =
      if is_running (task_at s.tasks prev).state then set_state s.tasks prev ready else s.tasks in
    let ts' = set_state ts next running in
    context_switch prev (task_at ts' next).sp
      (record s { tasks = ts'; current = some next; ticks_slice = 0 })

-- `if (next && next != current)` and its body
pub switch_unless_current : (prev : ℕ) → Option ℕ → Sched → Sched
switch_unless_current prev none s = s
switch_unless_current prev (some next) s = if next == prev then s else switch_to prev next s

schedule_from : Option ℕ → Sched → Sched
schedule_from none s = s
schedule_from (some c) s = switch_unless_current c (pick_next s) s

pub schedule : Sched → Sched
unfolding schedule_from
schedule s = if s.sched_enabled then schedule_from s.current s else s

pub sched_yield : Sched → Sched
sched_yield s = if s.sched_enabled then schedule s else s

-- `current->ticks_ran++`
count_tick : ℕ → Sched → Sched
count_tick c s =
    let t = task_at s.tasks c in
    record s { tasks = set s.tasks c (record t { ticks_ran = u32 (t.ticks_ran + 1) }) }

tick_from : Option ℕ → Sched → Sched
tick_from none s = s
tick_from (some c) s =
    let s' = count_tick c s in
    let over = record s' { ticks_slice = 0 } in
    if leb 10 (s.ticks_slice + 1)
    then switch_unless_current c (pick_next over) over
    else record s' { ticks_slice = s.ticks_slice + 1 }

pub sched_on_tick : Sched → Sched
unfolding tick_from
sched_on_tick s = if s.sched_enabled then tick_from s.current s else s

-- `next`, or `&tasks[0]`
or_shell : Option ℕ → ℕ
or_shell none = 0
or_shell (some n) = n

exit_from : Option ℕ → Sched → Sched
unfolding or_shell
exit_from none s = s
exit_from (some c) s =
    if (task_at s.tasks c).id == 0
    then s
    else let s' = record s {
      tasks = set s.tasks c (record (task_at s.tasks c) { state = free; stack_base = 0 });
    } in
      let next = or_shell (pick_next s') in
      let ts = set_state s'.tasks next running in
      context_switch c (task_at ts next).sp (record s' { tasks = ts; current = some next })

pub sched_exit : Sched → Sched
unfolding exit_from
sched_exit s = exit_from s.current s

pub sched_task_count : List Task → ℕ
sched_task_count [] = 0
sched_task_count (t ∷ ts) = (if is_free t.state then 0 else 1) + sched_task_count ts
