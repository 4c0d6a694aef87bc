-- ===== src/Sched/Table.antt =====
-- States and ids in the task table of src/sched.c under the writes of the scheduler.
use mykernel.Base.{
  ℕ, ◌+◌, ◌-◌, ◌^◌, ◌<◌, ◌≡◌, refl, some, ap, List, arith, ◌==◌, if◌then◌else◌, u32, length, set,
  length-set, get_or-set_self, get_or-set_ne, Bool-cases, ==→eq, inl, inr,
}
use mykernel.Sched.{
  Task, TaskState, ready, running, Sched, task_at, set_state, context_switch, switch_to,
}

abbrev pub state_of : List Task → ℕ → TaskState
state_of ts i = (task_at ts i).state

abbrev pub id_of : List Task → ℕ → ℕ
id_of ts i = (task_at ts i).id

pub task_at-set :
    (ts : List Task) (i j : ℕ) (t : Task)
    → i < length ts
    → task_at (set ts i t) j ≡ (if i == j then t else task_at ts j)
task_at-set ts i j t h = elim (Bool-cases (i == j)) [
  | inl e ↦ rw (e, ← ==→eq i j e) (get_or-set_self ts i t _ h)
  | inr e ↦ rw e (get_or-set_ne ts i j t _ (ground arith))
]

pub state_of-set_state :
    (ts : List Task) (i j : ℕ) (st : TaskState)
    → i < length ts
    → state_of (set_state ts i st) j ≡ (if i == j then st else state_of ts j)
unfolding set_state
state_of-set_state ts i j st h =
    ground (arith, task_at-set ts i j (record (task_at ts i) { state = st }) h)

pub id_of-set_state :
    (ts : List Task) (i j : ℕ) (st : TaskState)
    → i < length ts
    → id_of (set_state ts i st) j ≡ id_of ts j
unfolding set_state
id_of-set_state ts i j st h =
    ground (arith, task_at-set ts i j (record (task_at ts i) { state = st }) h)

pub length-set_state :
    (ts : List Task) (i : ℕ) (st : TaskState) → length (set_state ts i st) ≡ length ts
unfolding set_state
length-set_state ts i st = length-set ts i _

module _ (prev new_sp : ℕ) (s : Sched) (h : prev < length s.tasks) where
  pub state_of-context_switch :
      (j : ℕ) → state_of (context_switch prev new_sp s).tasks j ≡ state_of s.tasks j
  unfolding context_switch
  state_of-context_switch j = ground (
    arith,
    task_at-set s.tasks prev j (record (task_at s.tasks prev) { sp = u32 (s.esp + 2 ^ 32 - 32) }) h,
  )

  pub id_of-context_switch :
      (j : ℕ) → id_of (context_switch prev new_sp s).tasks j ≡ id_of s.tasks j
  unfolding context_switch
  id_of-context_switch j = ground (
    arith,
    task_at-set s.tasks prev j (record (task_at s.tasks prev) { sp = u32 (s.esp + 2 ^ 32 - 32) }) h,
  )

pub length-context_switch :
    (prev new_sp : ℕ) (s : Sched) → length (context_switch prev new_sp s).tasks ≡ length s.tasks
unfolding context_switch
length-context_switch prev new_sp s = length-set s.tasks prev _

-- The state that `switch_to` hands to `context_switch` when it leaves a running task.
abbrev handed_over : (prev next : ℕ) → Sched → Sched
handed_over prev next s = record s {
  tasks = set_state (set_state s.tasks prev ready) next running;
  current = some next;
  ticks_slice = 0;
}

module _ (prev next : ℕ) (s : Sched) (hp : prev < length s.tasks) (hn : next < length s.tasks)
    (run : state_of s.tasks prev ≡ running) where
  switch_to_lem :
      switch_to prev next s
      ≡ context_switch prev
          (task_at (handed_over prev next s).tasks next).sp
          (handed_over prev next s)
  unfolding switch_to
  switch_to_lem = rw run

  lengths :
      (length (set_state s.tasks prev ready) ≡ length s.tasks)
      × (length (handed_over prev next s).tasks ≡ length s.tasks)
  lengths = omega (
    arith,
    length-set_state s.tasks prev ready,
    length-set_state (set_state s.tasks prev ready) next running,
  )

  pub state_of-switch_to :
      (j : ℕ)
      → state_of (switch_to prev next s).tasks j
        ≡ (if next == j then running else if prev == j then ready else state_of s.tasks j)
  state_of-switch_to j =
      let ts = set_state s.tasks prev ready in
      let over = handed_over prev next s in
      rw (
        switch_to_lem,
        state_of-context_switch prev (task_at over.tasks next).sp over (omega (arith, lengths)) j,
        state_of-set_state ts next j running (omega (arith, lengths)),
        state_of-set_state s.tasks prev j ready hp,
      )

  pub id_of-switch_to : (j : ℕ) → id_of (switch_to prev next s).tasks j ≡ id_of s.tasks j
  id_of-switch_to j =
      let ts = set_state s.tasks prev ready in
      let over = handed_over prev next s in
      rw (
        switch_to_lem,
        id_of-context_switch prev (task_at over.tasks next).sp over (omega (arith, lengths)) j,
        id_of-set_state ts next j running (omega (arith, lengths)),
        id_of-set_state s.tasks prev j ready hp,
      )

  pub length-switch_to : length (switch_to prev next s).tasks ≡ length s.tasks
  length-switch_to =
      let over = handed_over prev next s in
      omega (
        arith,
        lengths,
        ap (λ (x : Sched). length x.tasks) switch_to_lem,
        length-context_switch prev (task_at over.tasks next).sp over,
      )

  pub current-switch_to :
      ((switch_to prev next s).current ≡ some next)
      × ((switch_to prev next s).sched_enabled ≡ s.sched_enabled)
  unfolding context_switch
  current-switch_to = rw switch_to_lem (refl, refl)
