-- ===== src/UserHeap/Tests.antt =====
-- Runs of user/lib/malloc.c, and its theorems there.
use mykernel.Base.{◌≡◌, refl, true, false, none, some, [], ◌∷◌, arith, ◌*◌}
use mykernel.Syscall.{Kernel}
use mykernel.Syscall.Arena
use mykernel.UserHeap.{
  UserHeap, malloc, calloc, heap_init, sys_brk, more_core, take_free, extend, find_or_extend,
}
use mykernel.UserHeap.Chain.{IsValid}
use mykernel.UserHeap.Grants.{Outcome, needed, malloc-Outcome}
use mykernel.UserHeap.Frees.{Zeroed, calloc-Zeroed}

abbrev kernel : Kernel
kernel = record {
  fds = [];
  user_brk = 0x500040;
  mmap_bump = 0x1000000;
  umask = 18;
  tls_base = 0;
  hostname = [];
  rng = 1;
  mem = λ a. a;
  console = [];
  fs = record { nodes = []; cwd = 0 };
  sched = record {
    tasks = [];
    current = none;
    sched_enabled = false;
    ticks_slice = 0;
    worker_counter = 0;
    esp = 0;
  };
  heap = record { blocks = []; heap_used = 0; mem = λ a. 0 };
  ticks = 0;
}

-- an allocation of 20 bytes, and a block of 20 bytes that was freed
abbrev heap : UserHeap
heap = record {
  chain =
      record { addr = 0x500000; size = 20; free = false }
      ∷ record { addr = 0x500020; size = 20; free = true }
      ∷ [];
  heap_end = 0x500040;
  kernel = kernel;
}

heap-IsValid : IsValid heap
heap-IsValid = record { rising = (omega arith, (omega arith, omega arith)); limit = omega arith }

-- The freed block is taken again, and 100 bytes come from the break.
reuse : (malloc 16 heap).0 ≡ some 0x50002c
unfolding malloc heap_init find_or_extend take_free
reuse = refl

growth : (malloc 100 heap).0 ≡ some 0x50004c
unfolding malloc heap_init find_or_extend take_free extend more_core sys_brk Arena.sys_brk
growth = refl

-- A request for 2^32 - 32 bytes is granted: the break goes down by 16 bytes.
wrapped : (malloc 0xffffffe0 heap).0 ≡ some 0x50004c
unfolding malloc heap_init find_or_extend take_free extend more_core sys_brk Arena.sys_brk
wrapped = refl

malloc-Outcome_example : Outcome 100 (needed 100) heap (malloc 100 heap)
malloc-Outcome_example = malloc-Outcome 100 heap heap-IsValid (omega arith) (omega arith)

calloc-Zeroed_example : Zeroed (3 * 10) heap (calloc 3 10 heap)
calloc-Zeroed_example = calloc-Zeroed 3 10 heap heap-IsValid (omega arith) (omega arith)
