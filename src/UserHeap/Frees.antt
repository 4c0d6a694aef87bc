-- ===== src/UserHeap/Frees.antt =====
-- `free` and `calloc` of user/lib/malloc.c.
use mykernel.Base.{
  ℕ, ◌+◌, ◌*◌, ◌^◌, ◌≤◌, ◌<◌, ◌≡◌, ◌≢◌, ◌⊎◌, inl, inr, refl, sym, ap, ◌∙◌, Option, none, some, List,
  [], ◌∷◌, arith, ltb, ◌==◌, u32, if◌then◌else◌, Bool-cases, store_zeros,
}
use mykernel.Syscall.{user_heap_base}
use mykernel.UserHeap.{
  Mhdr, UserHeap, header, payload, malloc, set_free, block_at, free, clear, calloc,
}
use mykernel.UserHeap.Chain.{Rising, live, IsValid, live_below, live_disjoint}
use mykernel.UserHeap.Grants.{Refused, Outcome, needed, malloc-Outcome}

set_free-Rising : (p lo hi : ℕ) (bs : List Mhdr) → Rising lo hi bs → Rising lo hi (set_free p bs)
unfolding set_free
set_free-Rising p lo hi [] r = r
set_free-Rising p lo hi (b ∷ bs) r = elim (Bool-cases (payload b == p)) [
  | inl e ↦ rw e r
  | inr e ↦ rw e (r.0, set_free-Rising p (b.addr + header + b.size) hi bs r.1)
]

live-set_free :
    (p q lo hi : ℕ) (bs : List Mhdr)
    → Rising lo hi bs
    → live q (set_free p bs) ≡ (if p == q then none else live q bs)
unfolding set_free
live-set_free p q lo hi [] r = ground arith
live-set_free p q lo hi (b ∷ bs) r =
    let next = b.addr + header + b.size in
    elim (Bool-cases (payload b == p)) [
      | inl e ↦ rw e (ground (arith, live_below next hi q bs r.1))
      | inr e ↦ rw e (ground (arith, live-set_free p q next hi bs r.1))
    ]

block_at-live :
    (p k : ℕ) (bs : List Mhdr) → live p bs ≡ some k → (b : Mhdr) × (block_at p bs ≡ some b)
unfolding block_at
block_at-live p k [] e = absurd (ground arith)
block_at-live p k (b ∷ bs) e = elim (Bool-cases (payload b == p)) [
  | inl here ↦ (b, rw here refl)
  | inr there ↦ let (c, f) = block_at-live p k bs (ground arith) in (c, rw (there, f) refl)
]

-- On a valid heap, `free` of a live allocation ends that allocation, leaves every other one alone,
-- and keeps the heap valid.
pub free_releases :
    (p k : ℕ) (h : UserHeap)
    → IsValid h
    → live p h.chain ≡ some k
    → (h' : UserHeap) × (free (some p) h ≡ some h')
      × IsValid h'
      × ((q : ℕ) → live q h'.chain ≡ (if p == q then none else live q h.chain))
unfolding free
free_releases p k h v e =
    let (b, at) = block_at-live p k h.chain e in
    (
      record h { chain = set_free p h.chain },
      rw (at, free) refl,
      record {
        rising = set_free-Rising p user_heap_base h.kernel.user_brk h.chain v.rising;
        limit = v.limit;
      },
      λ q. live-set_free p q user_heap_base h.kernel.user_brk h.chain v.rising,
    )

store_zeros-outside :
    (a n : ℕ) (m : ℕ → ℕ) (x : ℕ) → (x < a) ⊎ (a + n ≤ x) → store_zeros a n m x ≡ m x
store_zeros-outside a n m x h = ground arith

-- The pointer is to `total` zero bytes; the allocations from before are live, with their bytes.
pub record Cleared (total p : ℕ) (h h' : UserHeap) : Type 0 where
  pub zero : (x : ℕ) → p ≤ x → x < p + total → h'.kernel.mem x ≡ 0
  pub kept : (q k : ℕ) → live q h.chain ≡ some k → live q h'.chain ≡ some k
  pub bytes :
      (q k x : ℕ) → live q h.chain ≡ some k → q ≤ x → x < q + k → h'.kernel.mem x ≡ h.kernel.mem x

abbrev pub Zeroed : ℕ → UserHeap → Option ℕ × UserHeap → Type 0
Zeroed total h (none, h') = Refused (needed total) h h'
Zeroed total h (some p, h') = Cleared total p h h'

clear-Zeroed :
    (total : ℕ) (h : UserHeap) (t : Option ℕ × UserHeap)
    → Outcome total (needed total) h t
    → Zeroed total h (clear total t)
clear-Zeroed total h (none, h') r = r
clear-Zeroed total h (some p, h') g =
    let other : (q k : ℕ) → live q h.chain ≡ some k → p ≢ q = λ q k e same.
      let both : Path (Option ℕ) none (some k) = sym g.fresh ∙ ap (λ r. live r h.chain) same ∙ e in
      absurd (ground arith) in
    let kept : (q k : ℕ) → live q h.chain ≡ some k → live q h'.chain ≡ some k =
      λ q k e. g.now q ∙ ground (arith, other q k e, e) in
    let mine : live p h'.chain ≡ some g.room = g.now p ∙ ground arith in
    let outside : (q k x : ℕ)
        → p ≢ q
        → live q h'.chain ≡ some k
        → q ≤ x
        → x < q + k
        → (x < p) ⊎ (p + total ≤ x) =
      λ q k x ne e lo hi.
        let brk = h'.kernel.user_brk in
        elim (Bool-cases (ltb p q)) [
          | inl before ↦ inr (
              omega (
                arith,
                g.enough,
                lo,
                live_disjoint user_heap_base brk p q g.room k h'.chain g.valid.rising mine e
                    (ground arith),
              ))
          | inr behind ↦ inl (
              omega (
                arith,
                hi,
                live_disjoint user_heap_base brk q p k g.room h'.chain g.valid.rising e mine
                    (ground arith),
              ))
        ] in
    record {
      zero = λ x lo hi. ground arith;
      kept = kept;
      bytes = λ q k x e lo hi.
          let out = outside q k x (other q k e) (kept q k e) lo hi in
          store_zeros-outside p total h'.kernel.mem x out ∙ ap (λ m. m x) g.bytes;
    }

-- On a valid heap, where the product of the two numbers is from 1 to 2^30 - 8, `calloc` gives a
-- pointer to as many zero bytes, and the allocations from before stay live and keep their bytes; or
-- it gives null, and all allocations are as they were.
pub calloc-Zeroed :
    (n size : ℕ) (h : UserHeap)
    → IsValid h
    → 1 ≤ n * size
    → n * size + 7 < 2 ^ 30
    → Zeroed (n * size) h (calloc n size h)
unfolding calloc
calloc-Zeroed n size h v pos small =
    let exact : u32 (n * size) ≡ n * size = omega arith in
    rw exact
      (clear-Zeroed (n * size) h (malloc (n * size) h) (malloc-Outcome (n * size) h v pos small))
