-- ===== src/Syscall/Safe.antt =====
-- What always holds of the state of src/syscall.c, and the calls that change only one part of it.
use mykernel.Base.{
  ℕ, zero, suc, ◌≤◌, ◌<◌, ◌≡◌, ◌⊎◌, inl, inr, refl, List, [], ◌∷◌, arith, length, length-set, set,
  Memory,
}
use mykernel.Sched.Inv
use mykernel.Ramfs.Node.{Node, file_max, node_at}
use mykernel.Ramfs.Tree
use mykernel.Syscall.{FdEntry, Kernel, fd_max, user_heap_base, user_heap_max, mmap_base, mmap_end}
use mykernel.Syscall.Descriptors.{fd_at}

-- No file is longer than 8191 bytes.
abbrev pub Bounded : List Node → Type 0
Bounded ns = (i : ℕ) → length (node_at ns i).content < file_max

-- Every offset is within its file; `brk` and the mmap arena are within their limits; the file
-- system and the task table are valid.
pub record IsSafe (k : Kernel) : Type 0 where
  pub size : length k.fds ≡ fd_max
  pub offsets : (i : ℕ) → (fd_at k.fds i).pos ≤ (fd_at k.fds i).len
  pub lengths : (i : ℕ) → (fd_at k.fds i).len < file_max
  pub brk : (user_heap_base ≤ k.user_brk) × (k.user_brk ≤ user_heap_max)
  pub arena : (mmap_base ≤ k.mmap_bump) × (k.mmap_bump ≤ mmap_end)
  pub tree : Tree.IsValid k.fs
  pub small : Bounded k.fs.nodes
  pub tasks : Inv.IsValid k.sched

-- a part of the state that the invariant does not look at
pub IsSafe-other :
    (k : Kernel) (umask tls_base rng : ℕ) (hostname console : List ℕ) (mem : Memory)
    → IsSafe k
    → IsSafe (record k {
      umask = umask;
      tls_base = tls_base;
      rng = rng;
      hostname = hostname;
      console = console;
      mem = mem;
    })
IsSafe-other k umask tls_base rng hostname console mem v = record {
  size = v.size;
  offsets = v.offsets;
  lengths = v.lengths;
  brk = v.brk;
  arena = v.arena;
  tree = v.tree;
  small = v.small;
  tasks = v.tasks;
}

pub fd_at-set :
    (fds : List FdEntry) (i j : ℕ) (f : FdEntry)
    → (fd_at (set fds i f) j ≡ f) ⊎ (fd_at (set fds i f) j ≡ fd_at fds j)
fd_at-set [] i j f = inr refl
fd_at-set (x ∷ fds) zero zero f = inl refl
fd_at-set (x ∷ fds) zero (suc j) f = inr refl
fd_at-set (x ∷ fds) (suc i) zero f = inr refl
fd_at-set (x ∷ fds) (suc i) (suc j) f = fd_at-set fds i j f

-- an entry whose offset is within its file
abbrev pub Within : FdEntry → Type 0
Within f = (f.pos ≤ f.len) × (f.len < file_max)

pub IsSafe-set :
    (k : Kernel) (i : ℕ) (f : FdEntry) (mem : Memory)
    → IsSafe k
    → Within f
    → IsSafe (record k { fds = set k.fds i f; mem = mem })
IsSafe-set k i f mem v w = record {
  size = omega (arith, length-set k.fds i f, v.size);
  offsets = λ j. ground (arith, fd_at-set k.fds i j f, v.offsets j);
  lengths = λ j. ground (arith, fd_at-set k.fds i j f, v.lengths j);
  brk = v.brk;
  arena = v.arena;
  tree = v.tree;
  small = v.small;
  tasks = v.tasks;
}
