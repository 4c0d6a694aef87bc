-- ===== src/Syscall/Keeps/All.antt =====
-- The handler of src/syscall.c keeps the invariant, whatever the call.
use mykernel.Base.{ℕ, ◌+◌, Bool, u32, arith, Memory}
use mykernel.Sched.Life.{sched_yield-IsValid}
use mykernel.Syscall.{Kernel, string_arg}
use mykernel.Syscall.Descriptors.{sys_read, sys_write, sys_writev, sys_readv}
use mykernel.Syscall.Handler.{
  Registers, Call, Ending, returns, exits, halts, lost, call_of, run, syscall_handler, unlink_call,
  creat_flags, exit_call, read_call, write_call, open_call, close_call, creat_call, lseek_call,
  dup_call, dup2_call, brk_call, chdir_call, mkdir_call, rename_call, access_call, getcwd_call,
  stat_call, fstat_call, time_call, clock_gettime_call, yield_call, mmap_call, uname_call,
  gettimeofday_call, sysinfo_call, writev_call, readv_call, set_thread_area_call,
  get_thread_area_call, getrlimit_call, clock_getres_call, umask_call, openat_call, reboot_call,
  getrandom_call, sethostname_call,
}
use mykernel.Syscall.Buffers.{Apart, Vector, Vector-same, Clear}
use mykernel.Syscall.Safe.{IsSafe, IsSafe-other}
use mykernel.Syscall.Keeps.{
  Kept, sys_write-IsSafe, sys_read-IsSafe, sys_close-IsSafe, sys_lseek-IsSafe, sys_dup-IsSafe,
  sys_dup2-IsSafe, vectored-IsSafe, sys_brk-IsSafe, sys_brk-Spared, sys_mmap2-IsSafe,
}
use mykernel.Syscall.Keeps.Files.{
  sys_chdir-IsSafe, sys_mkdir-IsSafe, sys_rename-IsSafe, sys_unlink-IsSafe, sys_open-IsSafe,
}
use mykernel.Syscall.Keeps.Answers.{
  same, sys_access-IsSafe, sys_getcwd-IsSafe, sys_stat-IsSafe, sys_fstat-IsSafe,
  set_thread_area-IsSafe, sys_getrandom-IsSafe, sys_sethostname-IsSafe, sys_uname-IsSafe,
  clock_gettime-IsSafe, sys_gettimeofday-IsSafe, sys_sysinfo-IsSafe, sys_get_thread_area-IsSafe,
  sys_getrlimit-IsSafe, sys_clock_getres-IsSafe, sys_time-Kept,
}

-- The process goes on, or has left, in a safe state with the kernel's own data as they were; a call
-- never breaks off in the middle.
abbrev pub Keeps : (own : ℕ → Bool) → Memory → Ending → Type 0
Keeps own m (returns r k') = Kept own m k'
Keeps own m (exits code k') = Kept own m k'
Keeps own m halts = Unit
Keeps own m lost = ⊥

module _ (own : ℕ → Bool) (k : Kernel) (v : IsSafe k) where
  run-Keeps :
      (stale : ℕ → ℕ → ℕ) (c : Call) (r : Registers)
      → Clear own c r k
      → Keeps own k.mem (run stale c r k)
  unfolding run sys_readv sys_writev
  run-Keeps stale unlink_call r h =
      let (t, e, w) = sys_unlink-IsSafe k v (string_arg k r.ebx) in rw e w.kept
  run-Keeps stale exit_call r h = record { state = v; spared = same own k v }
  run-Keeps stale read_call r h = (sys_read-IsSafe stale r.ebx r.ecx r.edx k h v).kept
  run-Keeps stale write_call r h = (sys_write-IsSafe r.ebx r.ecx r.edx k v).kept
  run-Keeps stale open_call r h = (sys_open-IsSafe (string_arg k r.ebx) r.ecx k v).kept
  run-Keeps stale close_call r h = (sys_close-IsSafe r.ebx k v).kept
  run-Keeps stale creat_call r h = (sys_open-IsSafe (string_arg k r.ebx) creat_flags k v).kept
  run-Keeps stale lseek_call r h = (sys_lseek-IsSafe r.ebx r.ecx r.edx k v).kept
  run-Keeps stale dup_call r h = (sys_dup-IsSafe r.ebx k v).kept
  run-Keeps stale dup2_call r h = (sys_dup2-IsSafe r.ebx r.ecx k v).kept
  run-Keeps stale brk_call r h = record {
    state = sys_brk-IsSafe r.ebx k v;
    spared = sys_brk-Spared own r.ebx k;
  }
  run-Keeps stale chdir_call r h = (sys_chdir-IsSafe k v (string_arg k r.ebx)).kept
  run-Keeps stale mkdir_call r h = (sys_mkdir-IsSafe k v (string_arg k r.ebx)).kept
  run-Keeps stale rename_call r h =
      (sys_rename-IsSafe k v (string_arg k r.ebx) (string_arg k r.ecx)).kept
  run-Keeps stale access_call r h = (sys_access-IsSafe own k v (string_arg k r.ebx)).kept
  run-Keeps stale getcwd_call r h = (sys_getcwd-IsSafe own k v r.ebx r.ecx h).kept
  run-Keeps stale stat_call r h = (sys_stat-IsSafe own k v (string_arg k r.ebx) r.ecx h).kept
  run-Keeps stale fstat_call r h = (sys_fstat-IsSafe own k v r.ebx r.ecx h).kept
  run-Keeps stale time_call r h = sys_time-Kept own k v r.ebx h
  run-Keeps stale clock_gettime_call r h = (clock_gettime-IsSafe own k v r.ecx h).kept
  run-Keeps stale yield_call r h = record {
    state = record {
      size = v.size;
      offsets = v.offsets;
      lengths = v.lengths;
      brk = v.brk;
      arena = v.arena;
      tree = v.tree;
      small = v.small;
      tasks = sched_yield-IsValid k.sched v.tasks;
    };
    spared = same own k v;
  }
  run-Keeps stale mmap_call r h = (sys_mmap2-IsSafe r.ebx r.ecx r.esi k h v).kept
  run-Keeps stale uname_call r h = (sys_uname-IsSafe own k v r.ebx h).kept
  run-Keeps stale gettimeofday_call r h = (sys_gettimeofday-IsSafe own k v r.ebx h).kept
  run-Keeps stale sysinfo_call r h = (sys_sysinfo-IsSafe own k v r.ebx h).kept
  run-Keeps stale writev_call r h =
      (vectored-IsSafe (λ buf count. Unit) (λ n iov m. Unit) (λ n iov m g. tt)
        (λ n iov m m' s g. tt) (sys_write r.ebx)
        (λ buf count k g. sys_write-IsSafe r.ebx buf count k) r.ecx r.edx k tt v).kept
  run-Keeps stale readv_call r h =
      (vectored-IsSafe (Apart own) (Vector own) (λ n iov m g. g.1)
        (λ n iov m m' s g. Vector-same n (u32 (iov + 8)) m m' s g.2) (sys_read stale r.ebx)
        (sys_read-IsSafe stale r.ebx) r.ecx r.edx k h v).kept
  run-Keeps stale set_thread_area_call r h = (set_thread_area-IsSafe own k v r.ebx h).kept
  run-Keeps stale get_thread_area_call r h = (sys_get_thread_area-IsSafe own k v r.ebx h).kept
  run-Keeps stale getrlimit_call r h = (sys_getrlimit-IsSafe own k v r.ecx h).kept
  run-Keeps stale clock_getres_call r h = (sys_clock_getres-IsSafe own k v r.ecx h).kept
  run-Keeps stale umask_call r h = record {
    state = ground (arith, v, IsSafe-other k _ _ _ _ _ _ v);
    spared = λ x mine. ground arith;
  }
  run-Keeps stale openat_call r h = (sys_open-IsSafe (string_arg k r.ecx) r.edx k v).kept
  run-Keeps stale reboot_call r h = tt
  run-Keeps stale getrandom_call r h = (sys_getrandom-IsSafe own k v r.ebx r.ecx h).kept
  run-Keeps stale sethostname_call r h = (sys_sethostname-IsSafe own k v r.ebx r.ecx).kept
  run-Keeps stale _ r h = record { state = v; spared = same own k v }

-- In a safe state every system call, with whatever number, ends: it returns in a safe state, leaves
-- the process in one, or stops the machine; and the bytes at the addresses `own`, those of the
-- kernel's own data, are as before. The condition: the buffer that the call writes its answer to is
-- null, or below 2^32 and apart from `own`. For readv that holds of each buffer of the vector, and
-- `own` has the vector itself; for mmap2 it holds of the pages at the fixed address, or of the
-- whole arena when there is none.
pub syscall_handler-Keeps :
    (own : ℕ → Bool) (stale : ℕ → ℕ → ℕ) (r : Registers) (k : Kernel)
    → IsSafe k
    → Clear own (call_of r.eax) r k
    → Keeps own k.mem (syscall_handler stale r k)
unfolding syscall_handler
syscall_handler-Keeps own stale r k v h = run-Keeps own k v stale (call_of r.eax) r h
