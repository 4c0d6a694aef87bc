-- ===== src/UserHeap.antt =====
-- user/lib/malloc.c: the heap of a process, on top of the break of src/syscall.c.
-- The chain from `heap_head` is a list of headers, each with its address; the bytes behind the
-- headers are in the memory of the kernel's state.
pub mod Chain
pub mod Grants
pub mod Frees
mod Tests
use mykernel.Base.{
  ℕ, zero, suc, ◌+◌, ◌-◌, ◌*◌, ◌/◌, ◌^◌, Bool, true, false, ◌&&◌, not, Option, none, some, List, [],
  ◌∷◌, ◌++◌, leb, ltb, ◌==◌, u32, if◌then◌else◌, Memory, store_zeros, load_bytes, store_bytes,
}
use mykernel.Syscall.{Kernel}
use mykernel.Syscall.Arena

-- `struct mhdr`, at the address `addr`
pub record Mhdr : Type 0 where
  pub addr : ℕ
  pub size : ℕ
  pub free : Bool

pub record UserHeap : Type 0 where
  pub chain : List Mhdr
  pub heap_end : ℕ
  pub kernel : Kernel

-- `sizeof(struct mhdr)`
abbrev pub header : ℕ
header = 12

-- `(n + 7) & ~7` on 32 bits
abbrev pub align_up : ℕ → ℕ
align_up n = u32 (n + 7) / 8 * 8

-- `b + 1`
abbrev pub payload : Mhdr → ℕ
payload b = b.addr + header

unfoldable pub sys_brk : ℕ → UserHeap → ℕ × UserHeap
sys_brk addr h = let r = Arena.sys_brk addr h.kernel in (r.0, record h { kernel = r.1 })

-- Whether it went well. The first part is that there is a `heap_head`.
unfoldable pub heap_init : UserHeap → Bool × UserHeap
heap_init h = elim h.chain [
  | _ ∷ _ ↦ (true, h)
  | [] ↦
      let cur = sys_brk 0 h in
      if cur.0 == 0 then (false, cur.1) else (true, record cur.1 { heap_end = cur.0 })
]

-- The new block, which no other points to yet. Its header is an entry of the chain; the store of it
-- at the old break is not in the bytes of memory.
unfoldable pub more_core : ℕ → UserHeap → Option Mhdr × UserHeap
more_core need₀ h =
    let need = align_up (u32 (need₀ + header)) in
    let old = sys_brk 0 h in
    let neu = sys_brk (u32 (old.0 + need)) old.1 in
    if ltb neu.0 (u32 (old.0 + need)) then (none, neu.1) else (
      some (record { addr = old.0; size = u32 (need + 2 ^ 32 - header); free = true }),
      record neu.1 { heap_end = neu.0 },
    )

-- The loop of `malloc`: the first free block that is large enough is taken, if there is one.
unfoldable pub take_free : (size : ℕ) → List Mhdr → Option (ℕ × List Mhdr)
take_free size [] = none
take_free size (b ∷ rest) =
    let later = take_free size rest in
    if b.free && leb size b.size
    then some (payload b, record b { free = false } ∷ rest)
    else elim later [ none ↦ none | some (p, bs) ↦ some (p, b ∷ bs) ]

-- Behind the call of `more_core`: the new block stands behind all others.
abbrev pub attach : Option Mhdr × UserHeap → Option ℕ × UserHeap
attach (none, h) = (none, h)
attach (some b, h) =
    (some (payload b), record h { chain = h.chain ++ record b { free = false } ∷ [] })

unfoldable pub extend : (size : ℕ) → UserHeap → Option ℕ × UserHeap
extend size h = attach (more_core size h)

-- From the loop on, with the rounded size.
unfoldable pub find_or_extend : (size : ℕ) → UserHeap → Option ℕ × UserHeap
find_or_extend size h = elim (take_free size h.chain) [
  | some (p, bs) ↦ (some p, record h { chain = bs })
  | none ↦ extend size h
]

-- A null pointer is `none`.
unfoldable pub malloc : ℕ → UserHeap → Option ℕ × UserHeap
malloc size h =
    let init = heap_init h in
    if size == 0
    then (none, h)
    else if not init.0
    then (none, init.1)
    else find_or_extend (align_up size) init.1

-- `b->free = 1` in the chain, for the block that `p` is the payload of
unfoldable pub set_free : ℕ → List Mhdr → List Mhdr
set_free p [] = []
set_free p (b ∷ rest) =
    let rest' = set_free p rest in
    if payload b == p then record b { free = true } ∷ rest else b ∷ rest'

unfoldable pub block_at : ℕ → List Mhdr → Option Mhdr
block_at p [] = none
block_at p (b ∷ rest) = let later = block_at p rest in if payload b == p then some b else later

-- `none` is a pointer that is not to the payload of a block: what is written then is no header.
unfoldable pub free : Option ℕ → UserHeap → Option UserHeap
free none h = some h
free (some p) h = elim (block_at p h.chain) [
  | none ↦ none
  | some b ↦ some (record h { chain = set_free p h.chain })
]

-- From `void* n = malloc(size)` on.
unfoldable pub move_to : (p : ℕ) → Mhdr → Option ℕ × UserHeap → Option (Option ℕ × UserHeap)
move_to p b (none, h) = some (none, h)
move_to p b (some n, h) =
    let copied = store_bytes n (load_bytes b.size p h.kernel.mem) h.kernel.mem in
    elim (free (some p) (record h { kernel = record h.kernel { mem = copied } })) [
      | none ↦ none
      | some h' ↦ some (some n, h')
    ]

unfoldable pub realloc : Option ℕ → (size : ℕ) → UserHeap → Option (Option ℕ × UserHeap)
realloc none size h = some (malloc size h)
realloc (some p) size h =
    if size == 0
    then elim (free (some p) h) [ none ↦ none | some h' ↦ some (none, h') ]
    else elim (block_at p h.chain) [
      | none ↦ none
      | some b ↦ if leb size b.size then some (some p, h) else move_to p b (malloc size h)
    ]

-- Behind the call of `malloc` in `calloc`.
abbrev pub clear : (total : ℕ) → Option ℕ × UserHeap → Option ℕ × UserHeap
clear total (none, h) = (none, h)
clear total (some p, h) =
    (some p, record h { kernel = record h.kernel { mem = store_zeros p total h.kernel.mem } })

unfoldable pub calloc : (n size : ℕ) → UserHeap → Option ℕ × UserHeap
calloc n size h = let total = u32 (n * size) in clear total (malloc total h)
