-- ===== src/Syscall/System.antt =====
-- The calls of src/syscall.c that report on the system: names, times, memory, limits, random bytes.
use Prim.Native.Nat.{bit_xor}
use mykernel.Base.{
  ℕ, zero, suc, ◌+◌, ◌-◌, ◌*◌, ◌/◌, ◌%◌, ◌^◌, ◌||◌, List, [], ◌∷◌, ◌++◌, leb, ◌==◌, u32,
  if◌then◌else◌, length, take, replicate, store_bytes, bytes16, bytes32, load_string,
}
use mykernel.Kmalloc.{kmalloc_stats}
use mykernel.Syscall.{Ret, ok, err, efault, einval, enosys, Kernel, is_negative}

-- `cpy_str` into `n` bytes: the string and zeros behind it
unfoldable pub cpy_str : List ℕ → ℕ → List ℕ
cpy_str s n = let t = take (n - 1) s in t ++ replicate (n - length t) 0

abbrev pub sys_name : List ℕ
sys_name = b'M' ∷ b'y' ∷ b'K' ∷ b'e' ∷ b'r' ∷ b'n' ∷ b'e' ∷ b'l' ∷ []

abbrev pub release : List ℕ
release = b'0' ∷ b'.' ∷ b'2' ∷ b'.' ∷ b'0' ∷ []

abbrev pub version : List ℕ
version = b'h' ∷ b'o' ∷ b'b' ∷ b'b' ∷ b'y' ∷ []

abbrev pub machine : List ℕ
machine = b'i' ∷ b'6' ∷ b'8' ∷ b'6' ∷ []

unfoldable pub sys_uname : ℕ → Kernel → Ret × Kernel
sys_uname u k = if u == 0 then (err efault, k) else (
  ok 0,
  record k {
    mem =
        store_bytes u
          (cpy_str sys_name 65
            ++ (cpy_str k.hostname 65
                ++ (cpy_str release 65 ++ (cpy_str version 65 ++ cpy_str machine 65))))
          k.mem;
  },
)

-- `g_boot_epoch + timer_ticks() / 100`
abbrev pub seconds : Kernel → ℕ
seconds k = u32 (1700000000 + k.ticks / 100)

unfoldable pub sys_time : ℕ → Kernel → Ret × Kernel
sys_time tloc k =
    let t = seconds k in
    (ok t, if tloc == 0 then k else record k { mem = store_bytes tloc (bytes32 t) k.mem })

unfoldable pub sys_gettimeofday : ℕ → Kernel → Ret × Kernel
sys_gettimeofday tv k = if tv == 0 then (err efault, k) else (
  ok 0,
  record k { mem = store_bytes tv (bytes32 (seconds k) ++ bytes32 (k.ticks % 100 * 10000)) k.mem },
)

-- the body of `case SYS_CLOCK_GETTIME`
unfoldable pub clock_gettime : ℕ → Kernel → Ret × Kernel
clock_gettime ts k = if ts == 0 then (err efault, k) else (
  ok 0,
  record k {
    mem = store_bytes ts (bytes32 (seconds k) ++ bytes32 (k.ticks % 100 * 10000000)) k.mem;
  },
)

-- The fields of `struct mk_sysinfo` that are written: all but `_f`.
unfoldable pub sys_sysinfo : ℕ → Kernel → Ret × Kernel
sys_sysinfo info k =
    if info == 0
    then (err efault, k)
    else let (used, total, free_b) = kmalloc_stats k.heap in
      (
        ok 0,
        record k {
          mem =
              store_bytes info
                (bytes32 (k.ticks / 100)
                  ++ (replicate 12 0
                      ++ (bytes32 total
                          ++ (bytes32 free_b
                              ++ (replicate 16 0
                                  ++ (bytes16 1 ++ (replicate 10 0 ++ bytes32 1)))))))
                k.mem;
        },
      )

unfoldable pub sys_futex : (op : ℕ) → Ret
sys_futex op = if op % 128 == 0 || op % 128 == 1 then ok 0 else err enosys

unfoldable pub sys_getrlimit : ℕ → Kernel → Ret × Kernel
sys_getrlimit rlim k = if rlim == 0 then (err efault, k) else (
  ok 0,
  record k { mem = store_bytes rlim (bytes32 (2 ^ 32 - 1) ++ bytes32 (2 ^ 32 - 1)) k.mem },
)

unfoldable pub sys_prctl : (option : ℕ) → Ret
sys_prctl option = if option == 15 || option == 4 then ok 0 else err enosys

unfoldable pub sys_clock_getres : ℕ → Kernel → Ret × Kernel
sys_clock_getres ts k =
    if ts == 0
    then (err efault, k)
    else (ok 0, record k { mem = store_bytes ts (bytes32 0 ++ bytes32 10000000) k.mem })

-- one round of the generator
unfoldable pub next_random : (rng ticks i : ℕ) → ℕ
next_random rng ticks i =
    let a = bit_xor rng (u32 (rng * 2 ^ 13)) in
    let b = bit_xor a (a / 2 ^ 17) in let c = bit_xor b (u32 (b * 2 ^ 5)) in u32 (c + ticks + i)

-- `n` bytes from the index `i` on, and the state behind them
unfoldable pub random_bytes : (n i rng ticks : ℕ) → List ℕ × ℕ
random_bytes zero i rng ticks = ([], rng)
random_bytes (suc n) i rng ticks =
    let r = next_random rng ticks i in
    let rest = random_bytes n (i + 1) r ticks in (r / 2 ^ 16 % 256 ∷ rest.0, rest.1)

unfoldable pub sys_getrandom : (buf buflen : ℕ) → Kernel → Ret × Kernel
sys_getrandom buf buflen k =
    if buf == 0 || buflen == 0
    then (err einval, k)
    else let r = random_bytes buflen 0 k.rng k.ticks in
      (ok buflen, record k { mem = store_bytes buf r.0 k.mem; rng = r.1 })

unfoldable pub sys_sethostname : (name len : ℕ) → Kernel → Ret × Kernel
sys_sethostname name len k =
    if name == 0 || is_negative len || len == 0 || leb 64 len
    then (err einval, k)
    else (ok 0, record k { hostname = load_string len name k.mem })

unfoldable pub sys_gethostname : (buf len : ℕ) → Kernel → Ret × Kernel
sys_gethostname buf len k =
    if buf == 0 || is_negative len || len == 0
    then (err einval, k)
    else (ok 0, record k { mem = store_bytes buf (take (len - 1) k.hostname ++ 0 ∷ []) k.mem })
