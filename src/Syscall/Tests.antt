-- ===== src/Syscall/Tests.antt =====
-- Runs of src/syscall.c in a small state, and its theorems there.
use mykernel.Base.{
  ℕ, zero, suc, ◌+◌, ◌<◌, ◌≡◌, ◌⊎◌, refl, ap, Bool, true, false, ◌&&◌, none, some, List, [], ◌∷◌,
  arith, ltb, leb, length, get_or, replicate, load_bytes,
}
use mathlib.Core.Path.{subst}
use mykernel.Sched.{Sched, zero_task}
use mykernel.Sched.Life.{sched_init-Runs}
use mykernel.Sched.{sched_init}
use mykernel.Ramfs.Node.{
  Node, Fs, fs_ok, blank, find_child, file_max, is_valid_name, k_streq, is_child, find_from,
  alloc_node, alloc_from,
}
use mykernel.Ramfs.Create.{fs_mkdir, fs_touch, fs_cd, fs_init, bare_root, add_node, parent_or}
use mykernel.Ramfs.Content.{fs_write_bin, update_content, after_touch, put_content, fs_read}
use mykernel.Ramfs.Tree.{IsValid}
use mykernel.Ramfs.Init.{fs_init-IsValid}
use mykernel.Ramfs.ReadWrite.{Updated, fs_write_bin-Updated}
use mykernel.Syscall.{ok, err, enomem, no_entry, Kernel, user_heap_base, mmap_base, mmap_end}
use mykernel.Syscall.Descriptors.{fd_table_reset, sys_open, sys_read, fd_alloc, fd_from, fd_at}
use mykernel.Syscall.Arena.{sys_mmap2}
use mykernel.Syscall.Handler.{Registers, call_of, call_in, syscall_handler}
use mykernel.Syscall.Buffers.{Clear}
use mykernel.Syscall.Safe.{IsSafe, Bounded}
use mykernel.Syscall.Keeps.All.{Keeps, syscall_handler-Keeps}
use mykernel.Syscall.Maps.{Mapped, sys_mmap2-Mapped}
use mykernel.Syscall.Reading.{sys_read-sys_open}

abbrev notes : List ℕ
notes = b'n' ∷ b'o' ∷ b't' ∷ b'e' ∷ b's' ∷ []

abbrev hello : List ℕ
hello = b'h' ∷ b'e' ∷ b'l' ∷ b'l' ∷ b'o' ∷ []

abbrev start : Fs
start = fs_init (record { nodes = replicate 256 blank; cwd = 7 })

abbrev files : Fs
files = (fs_write_bin notes hello start).1

went_well : (fs_write_bin notes hello start).0 ≡ fs_ok
unfolding fs_init fs_mkdir fs_cd add_node is_valid_name k_streq is_child find_from find_child
    alloc_node alloc_from bare_root parent_or fs_write_bin update_content after_touch put_content
    fs_touch
went_well = refl

files-IsValid : IsValid files
files-IsValid =
    (subst (λ r. Updated (λ old. hello) notes start r files) went_well
      ((fs_write_bin-Updated notes hello start (fs_init-IsValid _ refl)).1 (omega arith))).2

abbrev all_small : List Node → Bool
all_small [] = true
all_small (n ∷ ns) = ltb (length n.content) file_max && all_small ns

all_small-Bounded : (ns : List Node) → all_small ns ≡ true → Bounded ns
all_small-Bounded [] h i = omega arith
all_small-Bounded (n ∷ ns) h zero = ground arith
all_small-Bounded (n ∷ ns) h (suc i) = all_small-Bounded ns (ground arith) i

files-small : all_small files.nodes ≡ true
unfolding fs_init fs_mkdir fs_cd add_node is_valid_name k_streq is_child find_from find_child
    alloc_node alloc_from bare_root parent_or fs_write_bin update_content after_touch put_content
    fs_touch
files-small = refl

abbrev idle : Sched
idle = record {
  tasks = replicate 8 zero_task;
  current = none;
  sched_enabled = false;
  ticks_slice = 0;
  worker_counter = 0;
  esp = 0x7000;
}

abbrev unset : Kernel
unset = record {
  fds = replicate 32 no_entry;
  user_brk = user_heap_base;
  mmap_bump = mmap_base;
  umask = 18;
  tls_base = 0;
  hostname = [];
  rng = 1;
  mem = λ a. a;
  console = [];
  fs = files;
  sched = sched_init idle;
  heap = record {
    blocks = record { addr = 0x200000; size = 1048564; free = true } ∷ [];
    heap_used = 0;
    mem = λ a. 0;
  };
  ticks = 100;
}

abbrev fresh : Kernel
fresh = fd_table_reset unset

unused : (n i : ℕ) → get_or (replicate n no_entry) i no_entry ≡ no_entry
unused zero i = refl
unused (suc n) zero = refl
unused (suc n) (suc i) = unused n i

fds_at_zero : (i : ℕ) → ((fd_at fresh.fds i).pos ≡ 0) × ((fd_at fresh.fds i).len ≡ 0)
unfolding fd_table_reset
fds_at_zero zero = (refl, refl)
fds_at_zero (suc zero) = (refl, refl)
fds_at_zero (suc (suc zero)) = (refl, refl)
fds_at_zero (suc (suc (suc i))) = let e = unused 29 i in (ap (λ f. f.pos) e, ap (λ f. f.len) e)

fresh-IsSafe : IsSafe fresh
unfolding fd_table_reset
fresh-IsSafe = record {
  size = refl;
  offsets = λ i. ground (arith, fds_at_zero i);
  lengths = λ i. ground (arith, fds_at_zero i);
  brk = omega arith;
  arena = omega arith;
  tree = files-IsValid;
  small = all_small-Bounded files.nodes files-small;
  tasks = (0, (sched_init-Runs idle refl).0);
}

abbrev stale : ℕ → ℕ → ℕ
stale i j = 0

-- `uname(0x800000)`, with the kernel's own data from 1 MiB to 4 MiB
abbrev ask_uname : Registers
ask_uname = record { eax = 122; ebx = 0x800000; ecx = 0; edx = 0; esi = 0 }

abbrev kernel_data : ℕ → Bool
kernel_data x = leb 0x100000 x && ltb x 0x400000

uname-Clear : Clear kernel_data (call_of 122) ask_uname fresh
unfolding call_of call_in
uname-Clear = record { below = omega arith; free = λ x place low high. ground (arith, low, high) }

syscall_handler-Keeps_example : Keeps kernel_data fresh.mem (syscall_handler stale ask_uname fresh)
syscall_handler-Keeps_example =
    syscall_handler-Keeps kernel_data stale ask_uname fresh fresh-IsSafe uname-Clear

sys_mmap2-Mapped_example :
    ((sys_mmap2 0 5000 34 fresh ≡ (err enomem, fresh)) × (mmap_end < fresh.mmap_bump + 5000 + 4095))
    ⊎ ((k' : Kernel) × (sys_mmap2 0 5000 34 fresh ≡ (ok fresh.mmap_bump, k'))
        × Mapped 5000 fresh k')
sys_mmap2-Mapped_example =
    sys_mmap2-Mapped 0 5000 34 fresh fresh-IsSafe (omega arith) (omega arith) refl refl

notes_read : (fs_read notes fresh.fs).1 ≡ some hello
unfolding fs_init fs_mkdir fs_cd add_node is_valid_name k_streq is_child find_from find_child
    alloc_node alloc_from bare_root parent_or fs_write_bin update_content after_touch put_content
    fs_touch fs_read fd_table_reset
notes_read = refl

slot_three : fd_alloc fresh.fds ≡ some 3
unfolding fd_alloc fd_from fd_table_reset
slot_three = refl

sys_read-sys_open_example :
    (k₁ k₂ : Kernel) × (sys_open (some notes) 0 fresh ≡ (ok 3, k₁))
    × (sys_read stale 3 0x4000 64 k₁ ≡ (ok (length hello), k₂))
    × (load_bytes (length hello) 0x4000 k₂.mem ≡ hello)
    × ((sys_read stale 3 0x4000 64 k₂).0 ≡ ok 0)
sys_read-sys_open_example =
    sys_read-sys_open notes hello 3 0x4000 64 stale fresh fresh-IsSafe refl notes_read slot_three
      (ground arith) (omega arith) (omega arith)
