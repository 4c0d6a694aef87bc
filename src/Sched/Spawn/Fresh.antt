-- ===== src/Sched/Spawn/Fresh.antt =====
-- `sched_spawn` of src/sched.c: a free slot, a stack from `kmalloc`, and the frame on it.
use mykernel.Base.{
  ℕ, zero, suc, ◌+◌, ◌≤◌, ◌<◌, ◌≡◌, ◌≢◌, inl, inr, refl, sym, Option, none, some, List, arith,
  Bool-cases, Option-cases, set, length-set,
}
use mykernel.Kmalloc
use mykernel.Kmalloc.{Heap}
use mykernel.Kmalloc.Chain.{live, IsValid-mem}
use mykernel.Kmalloc.Contract.{kmalloc_grants, kmalloc-Granted, Granted-IsValid}
use mykernel.Sched.{Task, free, ready, Sched, task_at, is_free, max_tasks, stack_size}
use mykernel.Sched.Spawn.{free_slot, spawn_at, new_task, sched_spawn, initial_stack}
use mykernel.Sched.Spawn.Frame.{Frame, initial_stack-Frame}
use mykernel.Sched.Table.{state_of, task_at-set}
use mykernel.Sched.Inv.{Runs}

free_slot_lem :
    (k i : ℕ) (ts : List Task) (slot : ℕ)
    → free_slot k i ts ≡ some slot
    → (i ≤ slot) × (slot < i + k) × (state_of ts slot ≡ free)
unfolding free_slot
free_slot_lem zero i ts slot e = absurd (ground arith)
free_slot_lem (suc k) i ts slot e = elim (Bool-cases (is_free (task_at ts i).state)) [
  | inl here ↦ ground arith
  | inr there ↦ ground (arith, free_slot_lem k (i + 1) ts slot)
]

-- What a successful spawn into the slot `i` leaves behind.
pub record Spawned (bootstrap now i : ℕ) (s s' : Sched) (h h' : Heap) : Type 0 where
  pub slot : (1 ≤ i) × (i < max_tasks)
  pub was_free : state_of s.tasks i ≡ free
  pub valid : Runs now s'
  pub state : state_of s'.tasks i ≡ ready
  pub others : (j : ℕ) → j ≢ i → task_at s'.tasks j ≡ task_at s.tasks j
  pub stack_new : live (task_at s'.tasks i).stack_base h.blocks ≡ none
  pub stack : (k : ℕ) × (stack_size ≤ k) × (live (task_at s'.tasks i).stack_base h'.blocks ≡ some k)
  pub frame : Frame bootstrap (task_at s'.tasks i).stack_base (task_at s'.tasks i).sp h.mem h'.mem
  pub heap : Kmalloc.Chain.IsValid h'

module _ (bootstrap : ℕ) (name : Option (List ℕ)) (entry arg now : ℕ) (s : Sched) (h : Heap)
    (v : Runs now s) (w : Kmalloc.Chain.IsValid h) where
  new_task-Frame :
      (slot i : ℕ) (s' : Sched) (h₁ h' : Heap) (new : Task)
      → i ≡ slot
      → task_at s'.tasks slot ≡ new
      → h'.mem ≡ (initial_stack bootstrap new.stack_base h₁.mem).1
      → h₁.mem ≡ h.mem
      → new.sp ≡ (initial_stack bootstrap new.stack_base h₁.mem).0
      → Frame bootstrap (task_at s'.tasks i).stack_base (task_at s'.tasks i).sp h.mem h'.mem
  new_task-Frame slot i s' h₁ h' new same filled mem' kept top =
      rw (same, filled, mem', top, sym kept) (initial_stack-Frame bootstrap new.stack_base h₁.mem)

  spawn_at-Spawned :
      (slot i : ℕ) (s' : Sched) (h₁ h' : Heap) (p : Option ℕ)
      → free_slot 7 1 s.tasks ≡ some slot
      → Kmalloc.kmalloc stack_size h ≡ (p, h₁)
      → spawn_at bootstrap slot name entry arg s (p, h₁) ≡ (some i, s', h')
      → (i ≡ slot) × Spawned bootstrap now i s s' h h'
  unfolding spawn_at
  spawn_at-Spawned slot i s' h₁ h' none f k e = absurd (ground arith)
  spawn_at-Spawned slot i s' h₁ h' (some st) f k e =
      let fs = free_slot_lem 7 1 s.tasks slot f in
      let new =
        new_task st name entry arg (initial_stack bootstrap st h₁.mem).0 (task_at s.tasks slot) in
      let tasks' : s'.tasks ≡ set s.tasks slot new = ground arith in
      let blocks' : h'.blocks ≡ h₁.blocks = ground arith in
      let used' : h'.heap_used ≡ h₁.heap_used = ground arith in
      let is_slot : i ≡ slot = ground (arith, v.ids slot) in
      let at = λ (j : ℕ). task_at-set s.tasks slot j new (omega (arith, v.size)) in
      let granted = kmalloc-Granted stack_size w k in
      let w₁ = Granted-IsValid w granted in
      let filled : task_at s'.tasks slot ≡ new = ground (arith, at slot) in
      let mem' : h'.mem ≡ (initial_stack bootstrap st h₁.mem).1 = ground arith in
      let (fresh, (m, le, lives)) = kmalloc_grants stack_size st h h₁ w (omega arith) k in
      (
        is_slot,
        record {
          slot = omega arith;
          was_free = ground arith;
          valid = record {
            size = ground (arith, v.size, length-set s.tasks slot new);
            enabled = ground (arith, v.enabled);
            current = ground (arith, v.current);
            within = v.within;
            runs = ground (arith, at now, v.runs);
            others = λ j lt ne. ground (arith, at j, v.others j);
            ids = λ j lt. ground (arith, at j, v.ids j);
            shell = ground (arith, at 0, v.shell);
          };
          state = ground (arith, at slot);
          others = λ j ne. ground (arith, at j);
          stack_new = ground (arith, at slot);
          stack = (m, le, ground (arith, at slot, lives st));
          frame = new_task-Frame slot i s' h₁ h' new is_slot filled mem' granted.same refl;
          heap = IsValid-mem h₁ h' blocks' used' w₁;
        },
      )

  -- On a valid table and a valid heap, a spawn that returns an id has filled the slot of that id,
  -- which was free, with a ready task whose stack is a fresh allocation of at least 4096 bytes. Its
  -- saved stack pointer is in that stack, 36 bytes below a multiple of 16 that is less than 16 bytes
  -- from the stack's end: there stand eight zero words and then the address of `task_bootstrap`. No
  -- other byte of the heap's payloads and no other slot changes, and the table and the heap stay
  -- valid.
  pub sched_spawn-Spawned :
      (i : ℕ) (s' : Sched) (h' : Heap)
      → sched_spawn bootstrap name entry arg s h ≡ (some i, s', h')
      → Spawned bootstrap now i s s' h h'
  unfolding sched_spawn
  sched_spawn-Spawned i s' h' e = elim (Option-cases (free_slot 7 1 s.tasks)) [
    | inr none_left ↦ absurd (ground arith)
    | inl (slot, f) ↦
        (spawn_at-Spawned slot i s' (Kmalloc.kmalloc stack_size h).1 h'
          (Kmalloc.kmalloc stack_size h).0 f refl (ground arith)).1
  ]
