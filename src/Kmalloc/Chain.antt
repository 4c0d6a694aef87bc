-- ===== src/Kmalloc/Chain.antt =====
-- The chain of blocks of src/kmalloc.c: it tiles the window, and no two neighbours are free.
use mykernel.Base.{
  ℕ, ◌+◌, ◌≤◌, ◌<◌, ◌≡◌, refl, sym, Bool, false, ◌&&◌, not, Option, none, some, List, [], ◌∷◌,
  arith, ◌==◌, if◌then◌else◌,
}
use mathlib.Core.Path.{subst}
use mykernel.Kmalloc.{Block, Heap, header, payload, kheap_start}

-- From `start` to `end` the blocks follow one another without a gap.
abbrev pub Tiled : ℕ → ℕ → List Block → Type 0
Tiled start end [] = start ≡ end
Tiled start end (b ∷ rest) = (b.addr ≡ start) × Tiled (start + header + b.size) end rest

-- No free block behind a free one; `prev` says whether the block in front is free.
abbrev pub Apart : Bool → List Block → Type 0
Apart prev [] = Unit
Apart prev (b ∷ rest) = ((prev && b.free) ≡ false) × Apart b.free rest

-- the bytes of the used blocks
abbrev pub used_total : List Block → ℕ
used_total [] = 0
used_total (b ∷ rest) = (if b.free then 0 else b.size) + used_total rest

-- the size of the live allocation at the pointer `p`
abbrev pub live : ℕ → List Block → Option ℕ
live p [] = none
live p (b ∷ rest) = if (payload b == p) && not b.free then some b.size else live p rest

abbrev pub kheap_end : ℕ
kheap_end = 0x300000

pub record IsValid (h : Heap) : Type 0 where
  pub tiled : Tiled kheap_start kheap_end h.blocks
  pub apart : Apart false h.blocks
  pub counted : h.heap_used ≡ used_total h.blocks

pub Tiled-le : (s e : ℕ) (bs : List Block) → Tiled s e bs → s ≤ e
Tiled-le s e [] t = omega arith
Tiled-le s e (b ∷ bs) t = omega (arith, Tiled-le (s + header + b.size) e bs t.1)

-- Below the first payload there is no allocation.
pub live_below : (s e p : ℕ) (bs : List Block) → Tiled s e bs → p < s + header → live p bs ≡ none
live_below s e p [] t h = refl
live_below s e p (b ∷ bs) t h = ground (arith, live_below (s + header + b.size) e p bs t.1)

-- The payloads in use fit in the window.
pub used_total-le : (s e : ℕ) (bs : List Block) → Tiled s e bs → s + used_total bs ≤ e
used_total-le s e [] t = omega arith
used_total-le s e (b ∷ bs) t = ground (arith, used_total-le (s + header + b.size) e bs t.1)

-- Every allocation lies in the window.
pub live_within :
    (s e p k : ℕ) (bs : List Block)
    → Tiled s e bs
    → live p bs ≡ some k
    → (s + header ≤ p) × (p + k ≤ e)
live_within s e p k [] t h = cc
live_within s e p k (b ∷ bs) t h =
    let next = s + header + b.size in
    ground (arith, live_within next e p k bs t.1, Tiled-le next e bs t.1)

-- Between two allocations there is room for a header: they do not overlap.
pub live_disjoint :
    (s e p q k m : ℕ) (bs : List Block)
    → Tiled s e bs
    → live p bs ≡ some k
    → live q bs ≡ some m
    → p < q
    → p + k + header ≤ q
live_disjoint s e p q k m [] t h g lt = cc
live_disjoint s e p q k m (b ∷ bs) t h g lt =
    let next = s + header + b.size in
    ground (
      arith,
      live_disjoint next e p q k m bs t.1,
      live_within next e p k bs t.1,
      live_within next e q m bs t.1,
    )

-- The bytes of the payloads do not matter to the invariant.
pub IsValid-mem :
    (h h' : Heap) → h'.blocks ≡ h.blocks → h'.heap_used ≡ h.heap_used → IsValid h → IsValid h'
IsValid-mem h h' e f v = record {
  tiled = subst (Tiled kheap_start kheap_end) (sym e) v.tiled;
  apart = subst (Apart false) (sym e) v.apart;
  counted = ground (arith, v.counted);
}
