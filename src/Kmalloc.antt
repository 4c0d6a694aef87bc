-- ===== src/Kmalloc.antt =====
-- src/kmalloc.c: the kernel's first-fit allocator on the window 0x200000 .. 0x300000.
-- The chain of `struct block` from `head` is the list of its blocks in order; a block carries its
-- own address, and `next` is the address of the block behind it in the list.
pub mod Chain
pub mod Alloc
pub mod Free
pub mod Contract
pub mod RoundTrip
pub mod Realloc
pub mod Limits
mod Tests
use mykernel.Base.{
  ℕ, zero, suc, ◌+◌, ◌-◌, ◌*◌, ◌/◌, Bool, true, false, ◌&&◌, Option, none, some, List, [], ◌∷◌, ltb,
  leb, ◌==◌, if◌then◌else◌, u32,
}
use mathlib.Core.Option

-- `struct block` at the address `addr`
pub record Block : Type 0 where
  pub addr : ℕ
  pub size : ℕ
  pub free : Bool

-- The static variables, and the bytes that the live payloads hold. A header is an entry of the list
-- and not in `mem`: what a header that is split off or merged leaves in a free area is not described.
pub record Heap : Type 0 where
  pub blocks : List Block
  pub heap_used : ℕ
  pub mem : ℕ → ℕ

abbrev pub kheap_start : ℕ
kheap_start = 0x200000

abbrev pub kheap_size : ℕ
kheap_size = 0x100000

-- `sizeof(struct block)` on i386
abbrev pub header : ℕ
header = 12

abbrev pub align : ℕ
align = 8

-- `(n + 7) & ~7` on a 32-bit `size_t`
pub align_up : ℕ → ℕ
align_up n = u32 (n + (align - 1)) / align * align

-- `(void*)(b + 1)`
abbrev pub payload : Block → ℕ
payload b = b.addr + header

pub kmalloc_init : Heap → Heap
kmalloc_init h = record h {
  blocks = record { addr = kheap_start; size = kheap_size - header; free = true } ∷ [];
  heap_used = 0;
}

-- the free block `b` cut down to `size` bytes, and the blocks behind it
pub split_block : Block → ℕ → List Block → Block × List Block
split_block b size rest =
    if ltb (u32 (header + b.size)) (u32 (u32 (header + size) + (header + align)))
    then (b, rest)
    else (
      record b { size = size },
      record { addr = b.addr + u32 (header + size); size = b.size - size - header; free = true }
          ∷ rest,
    )

-- `coalesce` with `b` in hand: a free block takes in the free block behind it.
pub coalesce_from : Block → List Block → List Block
coalesce_from b [] = b ∷ []
coalesce_from b (c ∷ rest) = elim (b.free && c.free) [
  | true ↦ coalesce_from (record b { size = b.size + (header + c.size) }) rest
  | false ↦ b ∷ coalesce_from c rest
]

pub coalesce : List Block → List Block
unfolding coalesce_from
coalesce [] = []
coalesce (b ∷ rest) = coalesce_from b rest

-- The walk of `kmalloc`: the new chain, the pointer and the size of the block taken.
pub alloc_from : List Block → ℕ → Option (List Block × ℕ × ℕ)
unfolding split_block
alloc_from [] size = none
alloc_from (b ∷ rest) size = elim (b.free && leb size b.size) [
  | true ↦
      let (b', rest') = split_block b size rest in
      some (record b' { free = false } ∷ rest', payload b', b'.size)
  | false ↦ Option.map (λ t. let (bs, p, taken) = t in (b ∷ bs, p, taken)) (alloc_from rest size)
]

-- A null pointer is `none`.
unfoldable pub kmalloc : ℕ → Heap → Option ℕ × Heap
unfolding align_up alloc_from
kmalloc size h = if size == 0 then (none, h) else elim (alloc_from h.blocks (align_up size)) [
  | none ↦ (none, h)
  | some (bs, p, taken) ↦ (some p, record h { blocks = bs; heap_used = u32 (h.heap_used + taken) })
]

-- `((struct block*)ptr) - 1`, if there is a block of the chain
pub block_at : ℕ → List Block → Option Block
block_at p [] = none
block_at p (b ∷ rest) = if payload b == p then some b else block_at p rest

-- `b->free = 1` in the chain
pub set_free : ℕ → List Block → List Block
set_free p [] = []
set_free p (b ∷ rest) =
    if payload b == p then record b { free = true } ∷ rest else b ∷ set_free p rest

-- `none` is a pointer behind which there is no block of the chain: what the code then reads and
-- writes is not a header.
unfoldable pub kfree : Option ℕ → Heap → Option Heap
unfolding block_at set_free coalesce
kfree none h = some h
kfree (some p) h = elim (block_at p h.blocks) [
  | none ↦ none
  | some b ↦
      if b.free
      then some h
      else some (record h {
        heap_used = if leb b.size h.heap_used then h.heap_used - b.size else 0;
        blocks = coalesce (set_free p h.blocks);
      })
]

-- `dst[i] = src[i]` for the `k` indices from `i` on
pub copy_bytes : ℕ → ℕ → ℕ → ℕ → (ℕ → ℕ) → ℕ → ℕ
copy_bytes zero i dst src m = m
copy_bytes (suc k) i dst src m =
    copy_bytes k (i + 1) dst src (λ a. if a == dst + i then m (src + i) else m a)

-- From `n = kmalloc(size)` on; the loop reads `b->size` after that call.
move_to : ℕ → Option ℕ × Heap → Option (Option ℕ × Heap)
unfolding copy_bytes kfree
move_to p (none, h) = some (none, h)
move_to p (some n, h) = elim (block_at p h.blocks) [
  | none ↦ none
  | some b ↦
      Option.map (λ h'. (some n, h'))
        (kfree (some p) (record h { mem = copy_bytes b.size 0 n p h.mem }))
]

pub krealloc : Option ℕ → ℕ → Heap → Option (Option ℕ × Heap)
unfolding kmalloc move_to
krealloc none size h = some (kmalloc size h)
krealloc (some p) size h =
    if size == 0
    then Option.map (λ h'. (none, h')) (kfree (some p) h)
    else elim (block_at p h.blocks) [
      | none ↦ none
      | some b ↦ if leb size b.size then some (some p, h) else move_to p (kmalloc size h)
    ]

free_total : List Block → ℕ
free_total [] = 0
free_total (b ∷ rest) = (if b.free then b.size else 0) + free_total rest

-- `kmalloc_stats`: `used`, `total` and `free_bytes`
pub kmalloc_stats : Heap → ℕ × ℕ × ℕ
unfolding free_total
kmalloc_stats h = (h.heap_used, kheap_size, free_total h.blocks)
