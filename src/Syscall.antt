-- ===== src/Syscall.antt =====
-- src/syscall.c: the system calls behind int 0x80, on the file descriptors, the memory of the
-- process and the parts of the kernel that they reach.
-- An `int` is its 32-bit pattern, so that a negative one is 2^31 or more; a pointer is an address,
-- 0 the null pointer. User and kernel share one memory;
-- the kernel's tables, which lie in it too, are records here, apart from the bytes. So this describes
-- the calls whose buffers do not meet those tables (Syscall/Buffers), and whose buffers end below 2^32.
pub mod Descriptors
pub mod Paths
pub mod Arena
pub mod System
pub mod Handler
pub mod Buffers
pub mod Safe
pub mod Keeps
pub mod Maps
pub mod Reading
mod Tests
use mykernel.Base.{
  ℕ, ◌+◌, ◌-◌, ◌/◌, ◌%◌, ◌^◌, Bool, true, false, not, Option, none, some, List, [], ◌∷◌, leb, ◌==◌,
  if◌then◌else◌, get_or, Memory, load_string,
}
use mykernel.Kmalloc.{Heap}
use mykernel.Sched.{Sched}
use mykernel.Ramfs.Node.{Fs}

-- The result of a call: a value, or an errno that is returned negated.
pub data Ret : Type 0 where
  ok : ℕ → Ret
  err : ℕ → Ret

-- `(uint32_t)ret`
abbrev pub encode : Ret → ℕ
encode (ok n) = n
encode (err e) = 2 ^ 32 - e

abbrev pub enoent : ℕ
enoent = 2

abbrev pub eintr : ℕ
eintr = 4

abbrev pub ebadf : ℕ
ebadf = 9

abbrev pub enomem : ℕ
enomem = 12

abbrev pub efault : ℕ
efault = 14

abbrev pub eexist : ℕ
eexist = 17

abbrev pub enotdir : ℕ
enotdir = 20

abbrev pub einval : ℕ
einval = 22

abbrev pub emfile : ℕ
emfile = 24

abbrev pub enospc : ℕ
enospc = 28

abbrev pub espipe : ℕ
espipe = 29

abbrev pub erange : ℕ
erange = 34

abbrev pub enosys : ℕ
enosys = 38

abbrev pub enotempty : ℕ
enotempty = 39

-- `enum fd_type`
pub data FdType : Type 0 where
  fd_none fd_console fd_ramfile : FdType

-- `struct fd_entry`; `data` is the node whose `content` it points into.
pub record FdEntry : Type 0 where
  pub type : FdType
  pub used : Bool
  pub data_node : Option ℕ
  pub len : ℕ
  pub pos : ℕ
  pub writable : Bool
  pub name : List ℕ

-- `FD_MAX`
abbrev pub fd_max : ℕ
fd_max = 32

abbrev pub user_heap_base : ℕ
user_heap_base = 0x500000

abbrev pub user_heap_max : ℕ
user_heap_max = 0x600000

abbrev pub mmap_base : ℕ
mmap_base = 0x1000000

abbrev pub mmap_end : ℕ
mmap_end = 0x2000000

-- `fds` where the index is out of range: not read
abbrev pub no_entry : FdEntry
no_entry = record {
  type = fd_none;
  used = false;
  data_node = none;
  len = 0;
  pos = 0;
  writable = false;
  name = [];
}

-- The static variables of syscall.c, and what the calls reach of the other parts: the memory, the
-- output on the terminal, the file system, the task table, the heap, the counter of the timer.
pub record Kernel : Type 0 where
  pub fds : List FdEntry
  pub user_brk : ℕ
  pub mmap_bump : ℕ
  pub umask : ℕ
  pub tls_base : ℕ
  pub hostname : List ℕ
  pub rng : ℕ
  pub mem : Memory
  pub console : List ℕ
  pub fs : Fs
  pub sched : Sched
  pub heap : Heap
  pub ticks : ℕ

-- `(int)x < 0`
abbrev pub is_negative : ℕ → Bool
is_negative x = leb (2 ^ 31) x

-- `flags & (1 << k)`
abbrev pub has_flag : ℕ → ℕ → Bool
has_flag k flags = not (flags / 2 ^ k % 2 == 0)

-- A string argument: null, or the bytes before the NUL in the address space.
abbrev pub string_arg : Kernel → ℕ → Option (List ℕ)
string_arg k p = if p == 0 then none else some (load_string (2 ^ 32) p k.mem)
