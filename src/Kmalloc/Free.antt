-- ===== src/Kmalloc/Free.antt =====
-- `b->free = 1` and `coalesce` in `kfree` of src/kmalloc.c, on a chain that tiles the window.
use mykernel.Base.{
  ℕ, ◌+◌, ◌≡◌, inl, inr, refl, ◌∙◌, ap, Bool, true, false, ◌&&◌, none, some, List, [], ◌∷◌, arith,
  ◌==◌, if◌then◌else◌, Bool-cases,
}
use mathlib.Core.Path.{subst}
use mykernel.Kmalloc.{Block, header, payload, coalesce_from, set_free, block_at}
use mykernel.Kmalloc.Chain.{Tiled, Apart, used_total, live, live_below}

abbrev pub merged : Block → Block → Block
merged b c = record b { size = b.size + (header + c.size) }

-- The two ways of one round, as equations.
pub coalesce_from-merge :
    (b c : Block) (rest : List Block)
    → (b.free && c.free) ≡ true
    → coalesce_from b (c ∷ rest) ≡ coalesce_from (merged b c) rest
unfolding coalesce_from
coalesce_from-merge b c rest h = rw (h, coalesce_from)

pub coalesce_from-keep :
    (b c : Block) (rest : List Block)
    → (b.free && c.free) ≡ false
    → coalesce_from b (c ∷ rest) ≡ b ∷ coalesce_from c rest
unfolding coalesce_from
coalesce_from-keep b c rest h = rw (h, coalesce_from)

pub coalesce_from-nil : (b : Block) → coalesce_from b [] ≡ b ∷ []
unfolding coalesce_from
coalesce_from-nil b = refl

pub coalesce_from-Tiled :
    (s e : ℕ) (b : Block) (rest : List Block)
    → Tiled s e (b ∷ rest)
    → Tiled s e (coalesce_from b rest)
coalesce_from-Tiled s e b [] t = rw coalesce_from-nil t
coalesce_from-Tiled s e b (c ∷ rest) t = elim (Bool-cases (b.free && c.free)) [
  | inl both ↦
      let len : s + header + b.size + header + c.size ≡ s + header + (b.size + (header + c.size)) =
        omega arith in
      rw (coalesce_from-merge b c rest both)
        (coalesce_from-Tiled s e (merged b c) rest (t.0, subst (λ x. Tiled x e rest) len t.1.1))
  | inr one ↦
      rw (coalesce_from-keep b c rest one)
        (t.0, coalesce_from-Tiled (s + header + b.size) e c rest t.1)
]

-- Whatever stood behind, no two neighbours are free afterwards.
pub coalesce_from-Apart :
    (prev : Bool) (b : Block) (rest : List Block)
    → (prev && b.free) ≡ false
    → Apart prev (coalesce_from b rest)
coalesce_from-Apart prev b [] h = rw coalesce_from-nil (h, tt)
coalesce_from-Apart prev b (c ∷ rest) h = elim (Bool-cases (b.free && c.free)) [
  | inl both ↦ rw (coalesce_from-merge b c rest both) (coalesce_from-Apart prev (merged b c) rest h)
  | inr one ↦ rw (coalesce_from-keep b c rest one) (h, coalesce_from-Apart b.free c rest one)
]

pub live-coalesce_from :
    (q : ℕ) (b : Block) (rest : List Block) → live q (coalesce_from b rest) ≡ live q (b ∷ rest)
live-coalesce_from q b [] = rw coalesce_from-nil
live-coalesce_from q b (c ∷ rest) = elim (Bool-cases (b.free && c.free)) [
  | inl both ↦
      ground (arith, coalesce_from-merge b c rest both, live-coalesce_from q (merged b c) rest)
  | inr one ↦ ground (arith, coalesce_from-keep b c rest one, live-coalesce_from q c rest)
]

pub used_total-coalesce_from :
    (b : Block) (rest : List Block) → used_total (coalesce_from b rest) ≡ used_total (b ∷ rest)
used_total-coalesce_from b [] = rw coalesce_from-nil
used_total-coalesce_from b (c ∷ rest) = elim (Bool-cases (b.free && c.free)) [
  | inl both ↦
      ground (arith, coalesce_from-merge b c rest both, used_total-coalesce_from (merged b c) rest)
  | inr one ↦ ground (arith, coalesce_from-keep b c rest one, used_total-coalesce_from c rest)
]

-- A chain with no free neighbours is left alone.
pub coalesce_from_id :
    (b : Block) (rest : List Block) → Apart b.free rest → coalesce_from b rest ≡ b ∷ rest
coalesce_from_id b [] h = coalesce_from-nil b
coalesce_from_id b (c ∷ rest) h =
    coalesce_from-keep b c rest h.0 ∙ ap (λ bs. b ∷ bs) (coalesce_from_id c rest h.1)

pub set_free-Tiled : (p s e : ℕ) (bs : List Block) → Tiled s e bs → Tiled s e (set_free p bs)
unfolding set_free
set_free-Tiled p s e [] t = t
set_free-Tiled p s e (b ∷ bs) t = ground (arith, set_free-Tiled p (s + header + b.size) e bs t.1)

-- A live allocation is a used block of the chain.
pub block_at_live :
    (p s e k : ℕ) (bs : List Block)
    → Tiled s e bs
    → live p bs ≡ some k
    → (b : Block) × (block_at p bs ≡ some b) × (b.free ≡ false) × (b.size ≡ k)
unfolding block_at
block_at_live p s e k [] t h = cc
block_at_live p s e k (b ∷ bs) t h = elim (Bool-cases (payload b == p)) [
  | inl here ↦ (
    b,
    rw (here, block_at),
    ground (arith, live_below (s + header + b.size) e p bs t.1),
    ground (arith, live_below (s + header + b.size) e p bs t.1),
  )
  | inr there ↦
      let (c, found, f, sz) = block_at_live p (s + header + b.size) e k bs t.1 (ground arith) in
      (c, rw (there, block_at) found, f, sz)
]

pub live-set_free :
    (p s e q : ℕ) (bs : List Block)
    → Tiled s e bs
    → live q (set_free p bs) ≡ (if p == q then none else live q bs)
unfolding set_free
live-set_free p s e q [] t = ground arith
live-set_free p s e q (b ∷ bs) t = ground (
  arith,
  live-set_free p (s + header + b.size) e q bs t.1,
  live_below (s + header + b.size) e q bs t.1,
)

pub used_total-set_free :
    (p s e k : ℕ) (bs : List Block)
    → Tiled s e bs
    → live p bs ≡ some k
    → used_total (set_free p bs) + k ≡ used_total bs
unfolding set_free
used_total-set_free p s e k [] t h = cc
used_total-set_free p s e k (b ∷ bs) t h = ground (
  arith,
  used_total-set_free p (s + header + b.size) e k bs t.1,
  live_below (s + header + b.size) e p bs t.1,
)
