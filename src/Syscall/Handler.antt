-- ===== src/Syscall/Handler.antt =====
-- `syscall_handler` of src/syscall.c.
use mykernel.Base.{ℕ, ◌-◌, ◌^◌, ◌%◌, Option, none, some, List, [], ◌∷◌, ◌++◌, ◌==◌, if◌then◌else◌}
use mykernel.Sched.{Sched, task_at, sched_yield}
use mykernel.Syscall.{Ret, ok, err, efault, eintr, enosys, Kernel, encode, string_arg}
use mykernel.Syscall.Descriptors.{
  sys_read, sys_write, sys_open, sys_close, sys_lseek, sys_dup, sys_dup2, sys_writev, sys_readv,
}
use mykernel.Syscall.Paths.{
  sys_chdir, sys_mkdir, sys_unlink, sys_rename, sys_access, sys_getcwd, sys_stat, sys_fstat,
}
use mykernel.Syscall.Arena.{sys_brk, sys_mmap2, sys_set_thread_area, sys_get_thread_area}
use mykernel.Syscall.System.{
  sys_uname, sys_time, sys_gettimeofday, clock_gettime, sys_sysinfo, sys_futex, sys_getrlimit,
  sys_prctl, sys_clock_getres, sys_getrandom, sys_sethostname,
}

-- `struct registers`, as far as the handler reads and writes it
pub record Registers : Type 0 where
  pub eax : ℕ
  pub ebx : ℕ
  pub ecx : ℕ
  pub edx : ℕ
  pub esi : ℕ

-- The branches of the `switch`. `zero_call` and `one_call` return 0 and 1 and do nothing else.
pub data Call : Type 0 where
  exit_call read_call write_call open_call : Call
  close_call creat_call lseek_call dup_call : Call
  dup2_call brk_call pid_call zero_call : Call
  chdir_call mkdir_call unlink_call rename_call : Call
  access_call getcwd_call stat_call fstat_call : Call
  time_call clock_gettime_call yield_call mmap_call : Call
  uname_call gettimeofday_call sysinfo_call writev_call : Call
  readv_call set_thread_area_call get_thread_area_call futex_call : Call
  pipe_call getrlimit_call prctl_call clock_getres_call : Call
  umask_call pause_call times_call one_call : Call
  openat_call reboot_call getrandom_call sethostname_call : Call
  no_call : Call

-- The labels of the `switch` before SYS_FORK.
abbrev numbers_before_fork : List (ℕ × Call)
numbers_before_fork =
    (1, exit_call)
    ∷ (252, exit_call)
    ∷ (3, read_call)
    ∷ (4, write_call)
    ∷ (5, open_call)
    ∷ (6, close_call)
    ∷ (8, creat_call)
    ∷ (19, lseek_call)
    ∷ (41, dup_call)
    ∷ (63, dup2_call)
    ∷ (45, brk_call)
    ∷ (20, pid_call)
    ∷ (224, pid_call)
    ∷ (64, zero_call)
    ∷ (24, zero_call)
    ∷ (47, zero_call)
    ∷ (49, zero_call)
    ∷ (50, zero_call)
    ∷ (199, zero_call)
    ∷ (200, zero_call)
    ∷ (201, zero_call)
    ∷ (202, zero_call)
    ∷ (12, chdir_call)
    ∷ (39, mkdir_call)
    ∷ (40, unlink_call)
    ∷ (10, unlink_call)
    ∷ (38, rename_call)
    ∷ (33, access_call)
    ∷ (183, getcwd_call)
    ∷ (106, stat_call)
    ∷ (107, stat_call)
    ∷ (108, fstat_call)
    ∷ (13, time_call)
    ∷ (265, clock_gettime_call)
    ∷ (158, yield_call)
    ∷ (162, yield_call)
    ∷ (54, zero_call)
    ∷ (55, zero_call)
    ∷ (15, zero_call)
    ∷ (66, pid_call)
    ∷ []

-- The labels from SYS_FORK on. `timer_busy_ms`, which 267 calls, changes nothing that is modelled.
abbrev numbers_from_fork : List (ℕ × Call)
numbers_from_fork =
    (2, mmap_call)
    ∷ (7, mmap_call)
    ∷ (11, mmap_call)
    ∷ (42, mmap_call)
    ∷ (9, mmap_call)
    ∷ (83, mmap_call)
    ∷ (85, mmap_call)
    ∷ (90, mmap_call)
    ∷ (192, mmap_call)
    ∷ (91, zero_call)
    ∷ (125, zero_call)
    ∷ (219, zero_call)
    ∷ (163, zero_call)
    ∷ (144, zero_call)
    ∷ (150, zero_call)
    ∷ (151, zero_call)
    ∷ (152, zero_call)
    ∷ (153, zero_call)
    ∷ (122, uname_call)
    ∷ (78, gettimeofday_call)
    ∷ (116, sysinfo_call)
    ∷ (146, writev_call)
    ∷ (145, readv_call)
    ∷ (36, zero_call)
    ∷ (267, zero_call)
    ∷ (243, set_thread_area_call)
    ∷ (244, get_thread_area_call)
    ∷ (240, futex_call)
    ∷ (331, pipe_call)
    ∷ (76, getrlimit_call)
    ∷ (191, getrlimit_call)
    ∷ (75, zero_call)
    ∷ (172, prctl_call)
    ∷ (266, clock_getres_call)
    ∷ (220, no_call)
    ∷ (141, no_call)
    ∷ (175, zero_call)
    ∷ (126, zero_call)
    ∷ (174, zero_call)
    ∷ (67, zero_call)
    ∷ (60, umask_call)
    ∷ (29, pause_call)
    ∷ (27, zero_call)
    ∷ (43, times_call)
    ∷ (132, one_call)
    ∷ (147, one_call)
    ∷ (270, no_call)
    ∷ (37, no_call)
    ∷ (295, openat_call)
    ∷ (168, zero_call)
    ∷ (142, zero_call)
    ∷ (88, reboot_call)
    ∷ (355, getrandom_call)
    ∷ (34, zero_call)
    ∷ (74, sethostname_call)
    ∷ []

unfoldable pub call_in : ℕ → List (ℕ × Call) → Call
call_in num [] = no_call
call_in num ((n, c) ∷ rest) = if num == n then c else call_in num rest

unfoldable pub call_of : ℕ → Call
call_of num = call_in num (numbers_before_fork ++ numbers_from_fork)

-- How a call ends: it returns to the process, `process_exit_to_kernel` leaves it, the machine
-- stops, or the code of the file system runs out of its arrays.
pub data Ending : Type 0 where
  returns : Ret → Kernel → Ending
  exits : (code : ℕ) → Kernel → Ending
  halts : Ending
  lost : Ending

abbrev pub gives : Ret × Kernel → Ending
gives t = returns t.0 t.1

abbrev pub gives_some : Option (Ret × Kernel) → Ending
gives_some none = lost
gives_some (some t) = gives t

-- `sched_current() ? sched_current()->id : 1`
abbrev pub current_id : Sched → ℕ
current_id s = elim s.current [ none ↦ 1 | some c ↦ (task_at s.tasks c).id ]

-- `O_CREAT | O_WRONLY | O_TRUNC`
abbrev pub creat_flags : ℕ
creat_flags = 577

-- the body of `case SYS_UMASK`
abbrev set_umask : ℕ → Kernel → Ret × Kernel
set_umask mask k = (ok k.umask, if mask == 2 ^ 32 - 1 then k else record k { umask = mask % 512 })

-- the body of the branch
unfoldable pub run : (stale : ℕ → ℕ → ℕ) → Call → Registers → Kernel → Ending
run stale exit_call r k = exits r.ebx k
run stale read_call r k = gives (sys_read stale r.ebx r.ecx r.edx k)
run stale write_call r k = gives (sys_write r.ebx r.ecx r.edx k)
run stale open_call r k = gives (sys_open (string_arg k r.ebx) r.ecx k)
run stale close_call r k = gives (sys_close r.ebx k)
run stale creat_call r k = gives (sys_open (string_arg k r.ebx) creat_flags k)
run stale lseek_call r k = gives (sys_lseek r.ebx r.ecx r.edx k)
run stale dup_call r k = gives (sys_dup r.ebx k)
run stale dup2_call r k = gives (sys_dup2 r.ebx r.ecx k)
run stale brk_call r k = let b = sys_brk r.ebx k in returns (ok b.0) b.1
run stale pid_call r k = returns (ok (current_id k.sched)) k
run stale zero_call r k = returns (ok 0) k
run stale chdir_call r k = gives (sys_chdir (string_arg k r.ebx) k)
run stale mkdir_call r k = gives (sys_mkdir (string_arg k r.ebx) k)
run stale unlink_call r k = gives_some (sys_unlink (string_arg k r.ebx) k)
run stale rename_call r k = gives (sys_rename (string_arg k r.ebx) (string_arg k r.ecx) k)
run stale access_call r k = gives (sys_access (string_arg k r.ebx) k)
run stale getcwd_call r k = gives (sys_getcwd r.ebx r.ecx k)
run stale stat_call r k = gives (sys_stat (string_arg k r.ebx) r.ecx k)
run stale fstat_call r k = gives (sys_fstat r.ebx r.ecx k)
run stale time_call r k = gives (sys_time r.ebx k)
run stale clock_gettime_call r k = gives (clock_gettime r.ecx k)
run stale yield_call r k = returns (ok 0) (record k { sched = sched_yield k.sched })
run stale mmap_call r k = gives (sys_mmap2 r.ebx r.ecx r.esi k)
run stale uname_call r k = gives (sys_uname r.ebx k)
run stale gettimeofday_call r k = gives (sys_gettimeofday r.ebx k)
run stale sysinfo_call r k = gives (sys_sysinfo r.ebx k)
run stale writev_call r k = gives (sys_writev r.ebx r.ecx r.edx k)
run stale readv_call r k = gives (sys_readv stale r.ebx r.ecx r.edx k)
run stale set_thread_area_call r k = gives (sys_set_thread_area r.ebx k)
run stale get_thread_area_call r k = gives (sys_get_thread_area r.ebx k)
run stale futex_call r k = returns (sys_futex r.ecx) k
run stale pipe_call r k = returns (if r.ebx == 0 then err efault else err enosys) k
run stale getrlimit_call r k = gives (sys_getrlimit r.ecx k)
run stale prctl_call r k = returns (sys_prctl r.ebx) k
run stale clock_getres_call r k = gives (sys_clock_getres r.ecx k)
run stale umask_call r k = gives (set_umask r.ebx k)
run stale pause_call r k = returns (err eintr) k
run stale times_call r k = returns (ok k.ticks) k
run stale one_call r k = returns (ok 1) k
run stale openat_call r k = gives (sys_open (string_arg k r.ecx) r.edx k)
run stale reboot_call r k = halts
run stale getrandom_call r k = gives (sys_getrandom r.ebx r.ecx k)
run stale sethostname_call r k = gives (sys_sethostname r.ebx r.ecx k)
run stale no_call r k = returns (err enosys) k

unfoldable pub syscall_handler : (stale : ℕ → ℕ → ℕ) → Registers → Kernel → Ending
syscall_handler stale r k = run stale (call_of r.eax) r k

-- `regs->eax` behind the handler
abbrev pub result : Ending → Option ℕ
result (returns r k) = some (encode r)
result _ = none
