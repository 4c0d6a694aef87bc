-- ===== src/Kmalloc/Alloc.antt =====
-- The walk of `kmalloc` in src/kmalloc.c, as a relation between the chains before and after it.
use mathlib.Core.Option
use mathlib.Core.Path.{subst}
use mykernel.Base.{
  ℕ, ◌+◌, ◌≤◌, ◌<◌, ◌≡◌, inl, inr, refl, sym, Bool, true, false, ◌&&◌, Option, none, some, List, [],
  ◌∷◌, arith, ltb, leb, ◌==◌, if◌then◌else◌, u32, Bool-cases,
}
use mykernel.Kmalloc.{Block, header, payload, alloc_from}
use mykernel.Kmalloc.Chain.{Tiled, Apart, used_total, live, kheap_end, Tiled-le, live_below}

-- What the walk of `kmalloc` does to a tiled chain: it takes the first free block that is large
-- enough, whole or cut down to `size`.
pub data Alloc (size : ℕ) : List Block → List Block → ℕ → ℕ → Type 0 where
  whole :
      (b : Block) (rest : List Block)
      → b.free ≡ true
      → size ≤ b.size
      → b.size < size + 20
      → Alloc size (b ∷ rest) (record b { free = false } ∷ rest) (payload b) b.size
  cut :
      (b c : Block) (rest : List Block)
      → b.free ≡ true
      → c.free ≡ true
      → size + 20 ≤ b.size
      → c.addr ≡ b.addr + header + size
      → c.size + size + header ≡ b.size
      → Alloc size (b ∷ rest) (record b { size = size; free = false } ∷ c ∷ rest) (payload b) size
  skip :
      (b : Block) {rest rest' : List Block} {p n : ℕ}
      → (b.free && leb size b.size) ≡ false
      → Alloc size rest rest' p n
      → Alloc size (b ∷ rest) (b ∷ rest') p n

data Outcome (size : ℕ) (bs : List Block) : Option (List Block × ℕ × ℕ) → Type 0 where
  taken : {bs' : List Block} {p n : ℕ} → Alloc size bs bs' p n → Outcome size bs (some (bs', p, n))
  failed : Outcome size bs none

Outcome-skip :
    {size : ℕ} {rest : List Block} {r : Option (List Block × ℕ × ℕ)} (b : Block)
    → (b.free && leb size b.size) ≡ false
    → Outcome size rest r
    → Outcome size (b ∷ rest) (Option.map (λ t. let (bs, p, n) = t in (b ∷ bs, p, n)) r)
Outcome-skip b miss (taken a) = taken (skip b miss a)
Outcome-skip b miss failed = failed

alloc_from-Outcome :
    (size s e : ℕ) (bs : List Block)
    → e ≤ kheap_end
    → Tiled s e bs
    → Outcome size bs (alloc_from bs size)
unfolding alloc_from
alloc_from-Outcome size s e [] le t = failed
alloc_from-Outcome size s e (b ∷ bs) le t = elim (Bool-cases (b.free && leb size b.size)) [
  | inl hit ↦
      let room : s + header + b.size ≤ e = Tiled-le (s + header + b.size) e bs t.1 in
      elim (Bool-cases (ltb (u32 (header + b.size)) (u32 (u32 (header + size) + 20)))) [
        | inl few ↦
            rw (hit, few, alloc_from)
              (taken (whole b bs (ground arith) (ground arith) (ground arith)))
        | inr many ↦
            rw (hit, many, alloc_from)
              (taken (cut b _ bs (ground arith) refl (ground arith) (ground arith) (ground arith)))
      ]
  | inr miss ↦
      rw (miss, alloc_from)
        (Outcome-skip b miss (alloc_from-Outcome size (s + header + b.size) e bs le t.1))
]

Outcome-Alloc :
    {size : ℕ} {bs bs' : List Block} {p n : ℕ} {r : Option (List Block × ℕ × ℕ)}
    → Outcome size bs r
    → r ≡ some (bs', p, n)
    → Alloc size bs bs' p n
Outcome-Alloc {size} {bs} {bs'} {p} {n} (taken {bs' = xs} {p = a} {n = k} al) q =
    let e : xs ≡ bs' = cc in
    let f : a ≡ p = cc in
    let g : k ≡ n = cc in
    subst (λ x. Alloc size bs x p n) e
      (subst (λ t. Alloc size bs xs t n) f (subst (λ t. Alloc size bs xs a t) g al))
Outcome-Alloc failed q = cc

pub alloc_from-Alloc :
    (size s e : ℕ) (bs : List Block) {bs' : List Block} {p n : ℕ}
    → e ≤ kheap_end
    → Tiled s e bs
    → alloc_from bs size ≡ some (bs', p, n)
    → Alloc size bs bs' p n
alloc_from-Alloc size s e bs le t q = Outcome-Alloc (alloc_from-Outcome size s e bs le t) q

module _ {size : ℕ} where
  pub Alloc-Tiled :
      {bs bs' : List Block} {p n : ℕ} (s e : ℕ)
      → Alloc size bs bs' p n
      → Tiled s e bs
      → Tiled s e bs'
  Alloc-Tiled s e (whole b rest f le few) t = t
  Alloc-Tiled s e (cut b c rest f g le at sz) t =
      let len : s + header + size + header + c.size ≡ s + header + b.size = omega arith in
      (t.0, (omega arith, subst (λ x. Tiled x e rest) (sym len) t.1))
  Alloc-Tiled s e (skip b miss a) t = (t.0, Alloc-Tiled (s + header + b.size) e a t.1)

  pub Alloc-Apart :
      {bs bs' : List Block} {p n : ℕ} (prev : Bool)
      → Alloc size bs bs' p n
      → Apart prev bs
      → Apart prev bs'
  Alloc-Apart prev (whole b [] f le few) t = ground arith
  Alloc-Apart prev (whole b (c ∷ rest) f le few) t = ground arith
  Alloc-Apart prev (cut b c [] f g le at sz) t = ground arith
  Alloc-Apart prev (cut b c (d ∷ rest) f g le at sz) t = ground arith
  Alloc-Apart prev (skip b miss a) t = (t.0, Alloc-Apart b.free a t.1)

  -- The bytes in use grow by the size of the block taken.
  pub used_total-Alloc :
      {bs bs' : List Block} {p n : ℕ} → Alloc size bs bs' p n → used_total bs' ≡ used_total bs + n
  used_total-Alloc (whole b rest f le few) = ground arith
  used_total-Alloc (cut b c rest f g le at sz) = ground arith
  used_total-Alloc (skip b miss a) = omega (arith, used_total-Alloc a)

  pub le_of_Alloc : {bs bs' : List Block} {p n : ℕ} → Alloc size bs bs' p n → size ≤ n
  le_of_Alloc (whole b rest f le few) = le
  le_of_Alloc (cut b c rest f g le at sz) = omega arith
  le_of_Alloc (skip b miss a) = le_of_Alloc a

  pub live_fresh :
      {bs bs' : List Block} {p n : ℕ} (s e : ℕ)
      → Alloc size bs bs' p n
      → Tiled s e bs
      → (live p bs ≡ none) × (s + header ≤ p)
  live_fresh s e (whole b rest f le few) t =
      ground (arith, live_below (s + header + b.size) e (payload b) rest t.1)
  live_fresh s e (cut b c rest f g le at sz) t =
      ground (arith, live_below (s + header + b.size) e (payload b) rest t.1)
  live_fresh s e (skip b miss a) t = ground (arith, live_fresh (s + header + b.size) e a t.1)

  -- The walk takes a place where nothing lives, and adds one allocation there.
  pub live-Alloc :
      {bs bs' : List Block} {p n : ℕ} (s e q : ℕ)
      → Alloc size bs bs' p n
      → Tiled s e bs
      → live q bs' ≡ (if p == q then some n else live q bs)
  live-Alloc s e q (whole b rest f le few) t = ground arith
  live-Alloc s e q (cut b c rest f g le at sz) t = ground arith
  live-Alloc s e q (skip b {p = p} miss a) t =
      let next = s + header + b.size in
      ground (arith, live_fresh next e a t.1, live-Alloc next e q a t.1)
