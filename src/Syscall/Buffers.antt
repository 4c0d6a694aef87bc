-- ===== src/Syscall/Buffers.antt =====
-- The buffers that a call of src/syscall.c writes to, and the kernel's own data, which may lie in the
-- same memory: a predicate `own` on the addresses says where.
use mykernel.Base.{
  ℕ, zero, suc, ◌+◌, ◌-◌, ◌^◌, ◌≤◌, ◌<◌, ◌≡◌, ◌≢◌, refl, sym, Bool, true, false, ◌&&◌, not, List,
  [], ◌∷◌, ◌++◌, arith, ltb, leb, ◌==◌, u32, length, length-append, take, replicate, Memory, load32,
  store_bytes, Bool-cases, inl, inr,
}
use mathlib.Core.Path.{subst}
use mykernel.Ramfs.Node.{Fs}
use mykernel.Syscall.{Kernel, mmap_base, mmap_end, has_flag}
use mykernel.Syscall.Descriptors.{content_bytes}
use mykernel.Syscall.Paths.{fill_stat_file}
use mykernel.Syscall.Arena.{align_up_page, clear_range}
use mykernel.Syscall.System.{cpy_str, random_bytes}
use mykernel.Syscall.Handler.{
  Registers, Call, read_call, getcwd_call, stat_call, fstat_call, time_call, clock_gettime_call,
  mmap_call, uname_call, gettimeofday_call, sysinfo_call, readv_call, set_thread_area_call,
  get_thread_area_call, getrlimit_call, clock_getres_call, getrandom_call,
}

-- The buffer is below 2^32 and apart from the kernel's own data, unless it is the null pointer.
pub record Apart (own : ℕ → Bool) (base len : ℕ) : Type 0 where
  pub below : base + len ≤ 2 ^ 32
  pub free : (x : ℕ) → base ≢ 0 → base ≤ x → x < base + len → own x ≡ false

-- The buffers of a vector are apart from the kernel's own data, and so is the vector from them: it
-- counts as the kernel's own.
abbrev pub Vector : (own : ℕ → Bool) → (n iov : ℕ) → Memory → Type 0
Vector own zero iov m = Unit
Vector own (suc n) iov m =
    ((x : ℕ) → iov ≤ x → x < iov + 8 → own x ≡ true)
    × Apart own (load32 m iov) (load32 m (iov + 4))
    × Vector own n (u32 (iov + 8)) m

-- the pages of a mapping, at a fixed address around 2^32 if need be
abbrev pub MappingAt : (own : ℕ → Bool) (fixed : Bool) → (addr len : ℕ) → Type 0
MappingAt own true addr len = (x : ℕ) → x < 2 ^ 32 → u32 (x + (2 ^ 32 - addr)) < len → own x ≡ false
MappingAt own false addr len = (x : ℕ) → mmap_base ≤ x → x < mmap_end → own x ≡ false

abbrev pub Mapping : (own : ℕ → Bool) → (addr len flags : ℕ) → Type 0
Mapping own addr len flags = MappingAt own (has_flag 4 flags && not (addr == 0)) addr len

-- What a call writes to is apart from the kernel's own data.
abbrev pub Clear : (own : ℕ → Bool) → Call → Registers → Kernel → Type 0
Clear own read_call r k = Apart own r.ecx r.edx
Clear own getcwd_call r k = Apart own r.ebx r.ecx
Clear own stat_call r k = Apart own r.ecx 72
Clear own fstat_call r k = Apart own r.ecx 72
Clear own time_call r k = Apart own r.ebx 4
Clear own clock_gettime_call r k = Apart own r.ecx 8
Clear own mmap_call r k = Mapping own r.ebx (align_up_page r.ecx) r.esi
Clear own uname_call r k = Apart own r.ebx 325
Clear own gettimeofday_call r k = Apart own r.ebx 8
Clear own sysinfo_call r k = Apart own r.ebx 56
Clear own readv_call r k = Vector own r.edx r.ecx k.mem
Clear own set_thread_area_call r k = Apart own r.ebx 4
Clear own get_thread_area_call r k = Apart own r.ebx 12
Clear own getrlimit_call r k = Apart own r.ecx 8
Clear own clock_getres_call r k = Apart own r.ecx 8
Clear own getrandom_call r k = Apart own r.ebx r.ecx
Clear own _ r k = Unit

-- the kernel's own data are as before
abbrev pub Spared : (own : ℕ → Bool) → (m m' : Memory) → Type 0
Spared own m m' = (x : ℕ) → own x ≡ true → m' x ≡ m x

pub store_bytes-Spared :
    {own : ℕ → Bool} {a n : ℕ} (bs : List ℕ) (m : Memory)
    → a ≢ 0
    → length bs ≤ n
    → Apart own a n
    → Spared own m (store_bytes a bs m)
store_bytes-Spared {a} bs m ne le h x mine = elim (Bool-cases (leb a x && ltb x (a + length bs))) [
  | inl hit ↦
      let other = h.free x ne (ground (arith, hit)) (ground (arith, hit)) in
      absurd (ground (arith, mine, other))
  | inr outside ↦ rw outside refl
]

pub fill_stat_file-Spared :
    {own : ℕ → Bool} {st : ℕ} (size : ℕ) (m : Memory)
    → st ≢ 0
    → Apart own st 72
    → Spared own m (fill_stat_file st size m)
unfolding fill_stat_file
fill_stat_file-Spared {st} size m ne h x mine = elim (Bool-cases (leb st x && ltb x (st + 72))) [
  | inl hit ↦
      let other = h.free x ne (ground (arith, hit)) (ground (arith, hit)) in
      absurd (ground (arith, mine, other))
  | inr outside ↦ ground (arith, outside)
]

pub clear_range-Spared :
    {own : ℕ → Bool} (base len : ℕ) (m : Memory)
    → ((x : ℕ) → x < 2 ^ 32 → u32 (x + (2 ^ 32 - base)) < len → own x ≡ false)
    → Spared own m (clear_range base len m)
clear_range-Spared base len m h x mine =
    elim (Bool-cases (ltb x (2 ^ 32) && ltb (u32 (x + (2 ^ 32 - base))) len)) [
      | inl hit ↦
          let other = h x (ground (arith, hit)) (ground (arith, hit)) in
          absurd (ground (arith, mine, other))
      | inr outside ↦ rw outside refl
    ]

load32-same :
    (a : ℕ) (m m' : Memory) → ((x : ℕ) → a ≤ x → x < a + 4 → m' x ≡ m x) → load32 m' a ≡ load32 m a
load32-same a m m' at =
    rw
      (
        at a (omega arith) (omega arith),
        at (a + 1) (omega arith) (omega arith),
        at (a + 2) (omega arith) (omega arith),
        at (a + 3) (omega arith) (omega arith),
      )
      refl

-- The vector is read as before when the kernel's own data are as before.
pub Vector-same :
    {own : ℕ → Bool} (n iov : ℕ) (m m' : Memory)
    → Spared own m m'
    → Vector own n iov m
    → Vector own n iov m'
Vector-same zero iov m m' same h = tt
Vector-same {own} (suc n) iov m m' same (mine, apart, later) = (
  mine,
  moved (λ x low high. same x (mine x low high)) apart,
  Vector-same n (u32 (iov + 8)) m m' same later,
)
  where
    moved :
        ((x : ℕ) → iov ≤ x → x < iov + 8 → m' x ≡ m x)
        → Apart own (load32 m iov) (load32 m (iov + 4))
        → Apart own (load32 m' iov) (load32 m' (iov + 4))
    moved at h =
        let low = load32-same iov m m' (λ x lo hi. at x lo (omega arith)) in
        let high = load32-same (iov + 4) m m' (λ x lo hi. at x (omega arith) (omega arith)) in
        subst (λ a. Apart own a (load32 m' (iov + 4))) (sym low)
          (subst (λ n. Apart own (load32 m iov) n) (sym high) h)

pub length-content_bytes :
    (stale : ℕ → ℕ → ℕ) (s : Fs) (source : _) (n pos : ℕ)
    → length (content_bytes stale s source n pos) ≡ n
unfolding content_bytes
length-content_bytes stale s source zero pos = refl
length-content_bytes stale s source (suc n) pos =
    omega (arith, length-content_bytes stale s source n (pos + 1))

pub length-random_bytes : (n i rng ticks : ℕ) → length (random_bytes n i rng ticks).0 ≡ n
unfolding random_bytes
length-random_bytes zero i rng ticks = refl
length-random_bytes (suc n) i rng ticks = omega (arith, length-random_bytes n (i + 1) _ ticks)

pub length-take_le : (n : ℕ) (s : List ℕ) → length (take n s) ≤ n
length-take_le zero [] = omega arith
length-take_le zero (c ∷ s) = omega arith
length-take_le (suc n) [] = omega arith
length-take_le (suc n) (c ∷ s) = omega (arith, length-take_le n s)

length-zeros : (n : ℕ) → length {A = ℕ} (replicate n 0) ≡ n
length-zeros zero = refl
length-zeros (suc n) = omega (arith, length-zeros n)

pub length-cpy_str : (s : List ℕ) (n : ℕ) → length (cpy_str s n) ≡ n
unfolding cpy_str
length-cpy_str s n =
    let t = take (n - 1) s in
    omega (
      arith,
      length-append t (replicate (n - length t) 0),
      length-zeros (n - length t),
      length-take_le (n - 1) s,
    )

-- the five names of `uname`
pub names_length :
    (a b c d e : List ℕ)
    → length a ≡ 65
    → length b ≡ 65
    → length c ≡ 65
    → length d ≡ 65
    → length e ≡ 65
    → length (a ++ (b ++ (c ++ (d ++ e)))) ≤ 325
names_length a b c d e p q r s t = omega (
  arith,
  length-append a (b ++ (c ++ (d ++ e))),
  length-append b (c ++ (d ++ e)),
  length-append c (d ++ e),
  length-append d e,
)
