-- ===== src/Syscall/Keeps/Answers.antt =====
-- The calls of src/syscall.c that write their answer to a buffer keep the invariant.
use mykernel.Base.{
  ℕ, ◌-◌, ◌≤◌, ◌≡◌, ◌≢◌, refl, inl, inr, Bool, [], ◌∷◌, ◌++◌, if◌then◌else◌, load32, length-append,
  store_bytes, bytes16, bytes32, replicate, ◌*◌, ◌/◌, ◌%◌, true, Bool-cases, ◌^◌, ◌||◌, Option,
  none, some, List, arith, ltb, leb, ◌==◌, length, take, Memory, Option-cases,
}
use mykernel.Kmalloc.{kmalloc_stats}
use mykernel.Ramfs.Listing.{fs_pwd}
use mykernel.Syscall.{Ret, Kernel, is_negative}
use mykernel.Syscall.Descriptors.{bad_fd, fd_at, is_console, is_ramfile}
use mykernel.Syscall.Paths.{found, sys_access, sys_getcwd, sys_stat, sys_fstat}
use mykernel.Syscall.Arena.{tls_entry, sys_set_thread_area, sys_get_thread_area}
use mykernel.Syscall.System.{
  cpy_str, sys_name, release, version, machine, seconds, sys_uname, sys_time, sys_gettimeofday,
  clock_gettime, sys_sysinfo, sys_getrlimit, sys_clock_getres, sys_getrandom, sys_sethostname,
}
use mykernel.Syscall.Buffers.{
  Apart, Spared, store_bytes-Spared, fill_stat_file-Spared, length-random_bytes, length-take_le,
  length-cpy_str, names_length,
}
use mykernel.Syscall.Safe.{IsSafe, IsSafe-other}
use mykernel.Syscall.Keeps.{Kept, Safe, to_Safe, written-Safe, if-Safe, else-Safe}

module _ (own : ℕ → Bool) (k : Kernel) (v : IsSafe k) where
  -- the state with another part that the invariant does not look at
  other :
      {r : Ret} {umask tls_base rng : ℕ} {hostname console : List ℕ} {mem : Memory}
      → Spared own k.mem mem
      → Safe own k.mem (
        r,
        record k {
          umask = umask;
          tls_base = tls_base;
          rng = rng;
          hostname = hostname;
          console = console;
          mem = mem;
        },
      )
  other h = written-Safe (IsSafe-other k _ _ _ _ _ _ v) h

  pub same : Spared own k.mem k.mem
  same x mine = refl

  -- a call that writes a few bytes at a pointer, unless it is null
  stores-Safe :
      (r r' : Ret) {n : ℕ} (p : ℕ) (bs : List ℕ)
      → leb (length bs) n ≡ true
      → Apart own p n
      → Safe own k.mem (if p == 0 then (r, k) else (r', record k { mem = store_bytes p bs k.mem }))
  stores-Safe r r' p bs le h = else-Safe (p == 0) (to_Safe v) (λ some_place. other (
      store_bytes-Spared bs k.mem (λ null. ground (arith, null, some_place)) (ground (arith, le))
        h))

  pub sys_access-IsSafe : (path : Option (List ℕ)) → Safe own k.mem (sys_access path k)
  unfolding sys_access
  sys_access-IsSafe none = to_Safe v
  sys_access-IsSafe (some path) = elim (Option-cases (found (some path) k.fs)) [
    | inl (n, e) ↦ rw (e, sys_access) (to_Safe v)
    | inr e ↦ rw (e, sys_access) (to_Safe v)
  ]

  pub sys_getcwd-IsSafe :
      (buf size : ℕ) → Apart own buf size → Safe own k.mem (sys_getcwd buf size k)
  unfolding sys_getcwd
  sys_getcwd-IsSafe buf size h =
      let tmp = fs_pwd 128 k.fs in
      let copied = take (size - 1) tmp in
      else-Safe (buf == 0 || size == 0) (to_Safe v) (λ ready.
        let fits : length (copied ++ 0 ∷ []) ≤ size =
          ground (arith, ready, length-append copied (0 ∷ []), length-take_le (size - 1) tmp) in
        let left =
          store_bytes-Spared (copied ++ 0 ∷ []) k.mem (λ null. ground (arith, null, ready)) fits
            h in
        if-Safe (ltb (length copied) (length tmp)) (other left) (other left))

  pub sys_stat-IsSafe :
      (path : Option (List ℕ)) (st : ℕ) → Apart own st 72 → Safe own k.mem (sys_stat path st k)
  unfolding sys_stat
  sys_stat-IsSafe none st h = to_Safe v
  sys_stat-IsSafe (some path) st h = else-Safe (st == 0) (to_Safe v) (λ some_place.
      elim (Option-cases (found (some path) k.fs)) [
        | inl (n, e) ↦
            rw (e, sys_stat)
              (other (fill_stat_file-Spared n k.mem (λ null. ground (arith, null, some_place)) h))
        | inr e ↦ rw (e, sys_stat) (to_Safe v)
      ])

  pub sys_fstat-IsSafe : (fd st : ℕ) → Apart own st 72 → Safe own k.mem (sys_fstat fd st k)
  unfolding sys_fstat
  sys_fstat-IsSafe fd st h = else-Safe (st == 0) (to_Safe v) (λ some_place.
      let place : st ≢ 0 = λ null. ground (arith, null, some_place) in
      if-Safe (bad_fd k.fds fd) (to_Safe v) (
        if-Safe (is_console (fd_at k.fds fd).type) (other (fill_stat_file-Spared 0 k.mem place h)) (
          if-Safe (is_ramfile (fd_at k.fds fd).type)
            (other (fill_stat_file-Spared (fd_at k.fds fd).len k.mem place h)) (to_Safe v))))

  pub set_thread_area-IsSafe : (u : ℕ) → Apart own u 4 → Safe own k.mem (sys_set_thread_area u k)
  unfolding sys_set_thread_area
  set_thread_area-IsSafe u h = else-Safe (u == 0) (to_Safe v) (λ some_place.
      let place : u ≢ 0 = λ null. ground (arith, null, some_place) in
      elim (Bool-cases (load32 k.mem u == 2 ^ 32 - 1)) [
        | inl asks ↦
            rw asks (other (store_bytes-Spared (bytes32 tls_entry) k.mem place (omega arith) h))
        | inr given ↦ rw given (other same)
      ])

  pub sys_getrandom-IsSafe :
      (buf buflen : ℕ) → Apart own buf buflen → Safe own k.mem (sys_getrandom buf buflen k)
  unfolding sys_getrandom
  sys_getrandom-IsSafe buf buflen h = else-Safe (buf == 0 || buflen == 0) (to_Safe v) (λ ready.
      other (
        store_bytes-Spared _ k.mem (λ null. ground (arith, null, ready))
          (omega (arith, length-random_bytes buflen 0 k.rng k.ticks)) h))

  pub sys_sethostname-IsSafe : (name len : ℕ) → Safe own k.mem (sys_sethostname name len k)
  unfolding sys_sethostname
  sys_sethostname-IsSafe name len =
      if-Safe (name == 0 || is_negative len || len == 0 || leb 64 len) (to_Safe v) (other same)

  pub sys_uname-IsSafe : (u : ℕ) → Apart own u 325 → Safe own k.mem (sys_uname u k)
  unfolding sys_uname
  sys_uname-IsSafe u h =
      let text =
        cpy_str sys_name 65
        ++ (cpy_str k.hostname 65
            ++ (cpy_str release 65 ++ (cpy_str version 65 ++ cpy_str machine 65))) in
      let short =
        names_length (cpy_str sys_name 65) (cpy_str k.hostname 65) (cpy_str release 65)
          (cpy_str version 65) (cpy_str machine 65) (length-cpy_str sys_name 65)
          (length-cpy_str k.hostname 65) (length-cpy_str release 65) (length-cpy_str version 65)
          (length-cpy_str machine 65) in
      let fits : leb (length text) 325 ≡ true = ground (arith, short) in
      stores-Safe _ _ u text fits h

  pub clock_gettime-IsSafe : (ts : ℕ) → Apart own ts 8 → Safe own k.mem (clock_gettime ts k)
  unfolding clock_gettime
  clock_gettime-IsSafe ts h =
      stores-Safe _ _ ts (bytes32 (seconds k) ++ bytes32 (k.ticks % 100 * 10000000)) refl h

  pub sys_gettimeofday-IsSafe : (tv : ℕ) → Apart own tv 8 → Safe own k.mem (sys_gettimeofday tv k)
  unfolding sys_gettimeofday
  sys_gettimeofday-IsSafe tv h =
      stores-Safe _ _ tv (bytes32 (seconds k) ++ bytes32 (k.ticks % 100 * 10000)) refl h

  pub sys_sysinfo-IsSafe : (info : ℕ) → Apart own info 56 → Safe own k.mem (sys_sysinfo info k)
  unfolding sys_sysinfo
  sys_sysinfo-IsSafe info h =
      let (used, total, free_b) = kmalloc_stats k.heap in
      stores-Safe _ _ info
        (bytes32 (k.ticks / 100)
          ++ (replicate 12 0
              ++ (bytes32 total
                  ++ (bytes32 free_b
                      ++ (replicate 16 0 ++ (bytes16 1 ++ (replicate 10 0 ++ bytes32 1)))))))
        refl h

  pub sys_get_thread_area-IsSafe :
      (u : ℕ) → Apart own u 12 → Safe own k.mem (sys_get_thread_area u k)
  unfolding sys_get_thread_area
  sys_get_thread_area-IsSafe u h =
      stores-Safe _ _ u (bytes32 tls_entry ++ (bytes32 k.tls_base ++ bytes32 0xFFFFF)) refl h

  pub sys_getrlimit-IsSafe : (rlim : ℕ) → Apart own rlim 8 → Safe own k.mem (sys_getrlimit rlim k)
  unfolding sys_getrlimit
  sys_getrlimit-IsSafe rlim h =
      stores-Safe _ _ rlim (bytes32 (2 ^ 32 - 1) ++ bytes32 (2 ^ 32 - 1)) refl h

  pub sys_clock_getres-IsSafe : (ts : ℕ) → Apart own ts 8 → Safe own k.mem (sys_clock_getres ts k)
  unfolding sys_clock_getres
  sys_clock_getres-IsSafe ts h = stores-Safe _ _ ts (bytes32 0 ++ bytes32 10000000) refl h

  pub sys_time-Kept : (u : ℕ) → Apart own u 4 → Kept own k.mem (sys_time u k).1
  unfolding sys_time
  sys_time-Kept u h = elim (Bool-cases (u == 0)) [
    | inl null ↦ rw null (record { state = v; spared = same })
    | inr some_place ↦ rw some_place (record {
      state = IsSafe-other k _ _ _ _ _ _ v;
      spared =
          store_bytes-Spared (bytes32 (seconds k)) k.mem (λ null. ground (arith, null, some_place))
            (omega arith) h;
    })
  ]
