-- ===== src/Kmalloc/Limits.antt =====
-- When `kmalloc` of src/kmalloc.c fails, the fresh heap, and sizes that wrap in `align_up`.
use mykernel.Base.{
  ℕ, ◌+◌, ◌^◌, ◌≤◌, ◌<◌, ◌≡◌, ◌↔◌, ◌⊎◌, inl, inr, refl, true, ◌&&◌, none, some, List, [], ◌∷◌,
  arith, leb, ◌==◌, Bool-cases, Option-cases,
}
use mykernel.Kmalloc.{Block, Heap, header, kheap_start, align_up, alloc_from, kmalloc, kmalloc_init}
use mykernel.Kmalloc.Chain.{live, IsValid}

-- No free block has room for `size` bytes.
abbrev pub Exhausted : ℕ → List Block → Type 0
Exhausted size [] = Unit
Exhausted size (b ∷ rest) = (b.free ≡ true → b.size < size) × Exhausted size rest

alloc_from-none : (size : ℕ) (bs : List Block) → alloc_from bs size ≡ none → Exhausted size bs
unfolding alloc_from
alloc_from-none size [] e = tt
alloc_from-none size (b ∷ bs) e = elim (Bool-cases (b.free && leb size b.size)) [
  | inl hit ↦ absurd (ground arith)
  | inr miss ↦ elim (Option-cases (alloc_from bs size)) [
    | inl (t, q) ↦ absurd (ground arith)
    | inr q ↦ ((λ f. ground arith), alloc_from-none size bs q)
  ]
]

none_of_Exhausted : (size : ℕ) (bs : List Block) → Exhausted size bs → alloc_from bs size ≡ none
unfolding alloc_from
none_of_Exhausted size [] x = refl
none_of_Exhausted size (b ∷ bs) x = elim (Bool-cases b.free) [
  | inl f ↦ ground (arith, x.0 f, none_of_Exhausted size bs x.1)
  | inr f ↦ ground (arith, none_of_Exhausted size bs x.1)
]

-- `kmalloc` returns null exactly when the size is 0 or no free block has room for the rounded
-- size.
pub kmalloc-none_iff :
    (n : ℕ) (h : Heap) → ((kmalloc n h).0 ≡ none) ↔ ((n ≡ 0) ⊎ Exhausted (align_up n) h.blocks)
unfolding kmalloc
kmalloc-none_iff n h = (
  (λ e. elim (Bool-cases (n == 0)) [
    | inl z ↦ inl (ground arith)
    | inr nz ↦ elim (Option-cases (alloc_from h.blocks (align_up n))) [
      | inl ((bs, p, k), q) ↦ absurd (ground arith)
      | inr q ↦ inr (alloc_from-none (align_up n) h.blocks q)
    ]
  ]),
  λ r. elim r [
    | inl z ↦ ground arith
    | inr x ↦ ground (arith, none_of_Exhausted (align_up n) h.blocks x)
  ],
)

-- `kmalloc_init` makes a valid heap, whatever stood there before, in which nothing is live.
pub kmalloc_init-IsValid :
    (h : Heap) → IsValid (kmalloc_init h) × ((p : ℕ) → live p (kmalloc_init h).blocks ≡ none)
unfolding kmalloc_init
kmalloc_init-IsValid h = (ground arith, λ p. ground arith)

-- On the fresh heap every request for one of the last seven sizes of 32 bits is granted, by an
-- allocation of no bytes: the rounding wraps to 0.
pub kmalloc_wraps :
    (n : ℕ) (h : Heap)
    → 2 ^ 32 ≤ n + 7
    → n < 2 ^ 32
    → ((kmalloc n (kmalloc_init h)).0 ≡ some (kheap_start + header))
      × (live (kheap_start + header) (kmalloc n (kmalloc_init h)).1.blocks ≡ some 0)
unfolding kmalloc kmalloc_init
kmalloc_wraps n h big fits = let e : align_up n ≡ 0 = wraps in ground (arith, e)
  where
    wraps : align_up n ≡ 0
    wraps = omega arith
