-- ===== src/Sched/Spawn.antt =====
-- `sched_spawn` of src/sched.c: a free slot, a stack from `kmalloc`, and the first frame on it.
pub mod Frame
pub mod Fresh
use mykernel.Base.{
  ℕ, zero, suc, ◌+◌, ◌-◌, ◌*◌, ◌/◌, ◌%◌, ◌^◌, Option, none, some, List, [], ◌∷◌, ◌==◌,
  if◌then◌else◌, set,
}
use mykernel.Kmalloc
use mykernel.Kmalloc.{Heap}
use mykernel.Sched.{Task, ready, Sched, task_at, is_free, str_copy16, stack_size}

-- the search for a free slot from the index `i` on, `k` rounds left
unfoldable pub free_slot : ℕ → ℕ → List Task → Option ℕ
free_slot zero i ts = none
free_slot (suc k) i ts =
    let rest = free_slot k (i + 1) ts in if is_free (task_at ts i).state then some i else rest

-- four bytes, the low one first
unfoldable pub write32 : ℕ → ℕ → (ℕ → ℕ) → ℕ → ℕ
write32 a v m x =
    if x == a
    then v % 256
    else if x == a + 1
    then v / 2 ^ 8 % 256
    else if x == a + 2
    then v / 2 ^ 16 % 256
    else if x == a + 3
    then v / 2 ^ 24 % 256
    else m x

-- `*--sp = 0`, `k` times
unfoldable pub push_zeros : ℕ → ℕ × (ℕ → ℕ) → ℕ × (ℕ → ℕ)
unfolding write32
push_zeros zero (sp, m) = (sp, m)
push_zeros (suc k) (sp, m) = push_zeros k (sp - 4, write32 (sp - 4) 0 m)

-- The initial stack: the address of `task_bootstrap`, and eight zeros for `popa`.
unfoldable pub initial_stack : (bootstrap stack : ℕ) → (ℕ → ℕ) → ℕ × (ℕ → ℕ)
unfolding push_zeros
initial_stack bootstrap stack m =
    let top = (stack + stack_size) / 16 * 16 in
    push_zeros 8 (top - 4, write32 (top - 4) bootstrap m)

abbrev default_name : List ℕ
default_name = b't' ∷ b'a' ∷ b's' ∷ b'k' ∷ []

abbrev name_or_default : Option (List ℕ) → List ℕ
name_or_default none = default_name
name_or_default (some n) = n

-- the fields that a spawn writes
abbrev pub new_task : (stack : ℕ) → Option (List ℕ) → (entry arg sp : ℕ) → Task → Task
new_task stack name entry arg sp t = record t {
  stack_base = stack;
  entry = entry;
  arg = arg;
  ticks_ran = 0;
  name = str_copy16 (name_or_default name);
  sp = sp;
  state = ready;
}

-- The slot `i` is filled, from the allocation of the stack on.
unfoldable pub spawn_at :
    (bootstrap i : ℕ)
    → Option (List ℕ)
    → (entry arg : ℕ) → Sched
    → Option ℕ × Heap
    → Option ℕ × Sched × Heap
spawn_at bootstrap i name entry arg s (none, h) = (none, s, h)
spawn_at bootstrap i name entry arg s (some stack, h) =
    let frame = initial_stack bootstrap stack h.mem in
    (
      some (task_at s.tasks i).id,
      record s {
        tasks = set s.tasks i (new_task stack name entry arg frame.0 (task_at s.tasks i));
      },
      record h { mem = frame.1 },
    )

-- `bootstrap` is the address of `task_bootstrap`; a null name is `none`. The id is -1 as `none`.
unfoldable pub sched_spawn :
    (bootstrap : ℕ) → Option (List ℕ) → (entry arg : ℕ) → Sched → Heap → Option ℕ × Sched × Heap
sched_spawn bootstrap name entry arg s h = elim (free_slot 7 1 s.tasks) [
  | none ↦ (none, s, h)
  | some i ↦ spawn_at bootstrap i name entry arg s (Kmalloc.kmalloc stack_size h)
]
