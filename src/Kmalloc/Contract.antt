-- ===== src/Kmalloc/Contract.antt =====
-- What `kmalloc` and `kfree` of src/kmalloc.c promise their callers: a finite map of live
-- allocations, to which one call adds and from which the other removes.
use mathlib.Core.Path.{subst}
use mykernel.Base.{
  ℕ, ◌+◌, ◌-◌, ◌^◌, ◌≤◌, ◌<◌, ◌≡◌, inl, inr, refl, sym, ◌∙◌, false, none, some, List, [], ◌∷◌,
  arith, ◌==◌, if◌then◌else◌, Bool-cases, Option-cases, u32,
}
use mykernel.Kmalloc.{
  Block, Heap, header, kheap_start, align_up, alloc_from, coalesce, set_free, kmalloc, kfree,
}
use mykernel.Kmalloc.Chain.{
  Tiled, Apart, used_total, live, kheap_end, IsValid, used_total-le, live_disjoint, live_within,
}
use mykernel.Kmalloc.Alloc.{
  Alloc, alloc_from-Alloc, Alloc-Tiled, Alloc-Apart, used_total-Alloc, le_of_Alloc, live-Alloc,
  live_fresh,
}
use mykernel.Kmalloc.Free.{
  coalesce_from-Tiled, coalesce_from-Apart, live-coalesce_from, used_total-coalesce_from,
  set_free-Tiled, block_at_live, live-set_free, used_total-set_free,
}

pub align_up-le : (n : ℕ) → n + 7 < 2 ^ 32 → n ≤ align_up n
unfolding align_up
align_up-le n h = omega arith

-- A heap whose chain has been walked with success.
pub record Granted (n : ℕ) (h : Heap) (p : ℕ) (h' : Heap) : Type 0 where
  pub taken : ℕ
  pub walk : Alloc (align_up n) h.blocks h'.blocks p taken
  pub count : h'.heap_used ≡ u32 (h.heap_used + taken)
  pub same : h'.mem ≡ h.mem

pub kmalloc-Granted :
    (n : ℕ) {p : ℕ} {h h' : Heap} → IsValid h → kmalloc n h ≡ (some p, h') → Granted n h p h'
unfolding kmalloc
kmalloc-Granted n {p} {h} {h'} v q = elim (Bool-cases (n == 0)) [
  | inl zero_size ↦ ground arith
  | inr sized ↦ elim (Option-cases (alloc_from h.blocks (align_up n))) [
    | inl ((bs, a, k), e) ↦
        let walk : Alloc (align_up n) h.blocks bs a k =
          alloc_from-Alloc (align_up n) kheap_start kheap_end h.blocks (omega arith) v.tiled e in
        record {
          taken = k;
          walk =
              subst (λ xs. Alloc (align_up n) h.blocks xs p k) (ground arith)
                (subst (λ x. Alloc (align_up n) h.blocks bs x k) (ground arith) walk);
          count = ground arith;
          same = ground arith;
        }
    | inr e ↦ ground arith
  ]
]

pub Granted-IsValid : {n p : ℕ} {h h' : Heap} → IsValid h → Granted n h p h' → IsValid h'
Granted-IsValid {h} {h'} v g =
    let t : Tiled kheap_start kheap_end h'.blocks =
      Alloc-Tiled kheap_start kheap_end g.walk v.tiled in
    record {
      tiled = t;
      apart = Alloc-Apart false g.walk v.apart;
      counted = omega (
        arith,
        g.count,
        v.counted,
        used_total-Alloc g.walk,
        used_total-le kheap_start kheap_end h'.blocks t,
      );
    }

pub kmalloc_null : (n : ℕ) {h h' : Heap} → kmalloc n h ≡ (none, h') → h' ≡ h
unfolding kmalloc
kmalloc_null n {h} q = elim (Bool-cases (n == 0)) [
  | inl zero_size ↦ ground arith
  | inr sized ↦ elim (Option-cases (alloc_from h.blocks (align_up n))) [
    | inl ((bs, a, k), e) ↦ ground arith
    | inr e ↦ ground arith
  ]
]

-- `kmalloc` keeps the invariant of the chain, whatever the size and the outcome: the blocks tile
-- the window, no two free ones are neighbours, and `heap_used` is the sum of the used ones.
pub kmalloc-IsValid : (n : ℕ) (h : Heap) → IsValid h → IsValid (kmalloc n h).1
kmalloc-IsValid n h v = elim (Option-cases (kmalloc n h).0) [
  | inl (p, e) ↦
      Granted-IsValid v (kmalloc-Granted n {p = p} {h = h} {h' = (kmalloc n h).1} v (ground arith))
  | inr e ↦ subst IsValid (sym (kmalloc_null n {h = h} {h' = (kmalloc n h).1} (ground arith))) v
]

-- On a valid heap and for `n + 7` below 2^32, a pointer from `kmalloc(n)` is to a place where
-- nothing was live. Afterwards at least `n` bytes are live there, and every other allocation is as
-- it was.
pub kmalloc_grants :
    (n p : ℕ) (h h' : Heap)
    → IsValid h
    → n + 7 < 2 ^ 32
    → kmalloc n h ≡ (some p, h')
    → (live p h.blocks ≡ none)
      × ((k : ℕ) × (n ≤ k)
          × ((q : ℕ) → live q h'.blocks ≡ (if p == q then some k else live q h.blocks)))
kmalloc_grants n p h h' v small e =
    let g = kmalloc-Granted n v e in
    (
      (live_fresh kheap_start kheap_end g.walk v.tiled).0,
      (
        g.taken,
        omega (arith, le_of_Alloc g.walk, align_up-le n small),
        λ q. live-Alloc kheap_start kheap_end q g.walk v.tiled,
      ),
    )

pub kfree_lem :
    (p k : ℕ) (h : Heap)
    → IsValid h
    → live p h.blocks ≡ some k
    → kfree (some p) h
      ≡ some (record h { heap_used = h.heap_used - k; blocks = coalesce (set_free p h.blocks) })
unfolding kfree
kfree_lem p k h v l =
    let (b, found, used, sz) = block_at_live p kheap_start kheap_end k h.blocks v.tiled l in
    ground (arith, used_total-set_free p kheap_start kheap_end k h.blocks v.tiled, v.counted)

coalesce-Tiled : (s e : ℕ) (bs : List Block) → Tiled s e bs → Tiled s e (coalesce bs)
unfolding coalesce
coalesce-Tiled s e [] t = t
coalesce-Tiled s e (b ∷ bs) t = coalesce_from-Tiled s e b bs t

coalesce-Apart : (bs : List Block) → Apart false (coalesce bs)
unfolding coalesce
coalesce-Apart [] = tt
coalesce-Apart (b ∷ bs) = coalesce_from-Apart false b bs refl

live-coalesce : (q : ℕ) (bs : List Block) → live q (coalesce bs) ≡ live q bs
unfolding coalesce
live-coalesce q [] = refl
live-coalesce q (b ∷ bs) = live-coalesce_from q b bs

used_total-coalesce : (bs : List Block) → used_total (coalesce bs) ≡ used_total bs
unfolding coalesce
used_total-coalesce [] = refl
used_total-coalesce (b ∷ bs) = used_total-coalesce_from b bs

-- `kfree` of a live allocation of a valid heap succeeds and keeps the invariant. Afterwards nothing is live there,
-- every other allocation is as it was, the bytes in use fall by its size, and no payload changes.
pub kfree_releases :
    (p k : ℕ) (h : Heap)
    → IsValid h
    → live p h.blocks ≡ some k
    → (h' : Heap) × (kfree (some p) h ≡ some h')
      × IsValid h'
      × ((q : ℕ) → live q h'.blocks ≡ (if p == q then none else live q h.blocks))
      × (h'.heap_used + k ≡ h.heap_used)
      × (h'.mem ≡ h.mem)
kfree_releases p k h v l =
    let freed = set_free p h.blocks in
    let total = used_total-set_free p kheap_start kheap_end k h.blocks v.tiled l in
    (
      record h { heap_used = h.heap_used - k; blocks = coalesce freed },
      kfree_lem p k h v l,
      record {
        tiled =
            coalesce-Tiled kheap_start kheap_end freed
              (set_free-Tiled p kheap_start kheap_end h.blocks v.tiled);
        apart = coalesce-Apart freed;
        counted = omega (arith, total, v.counted, used_total-coalesce freed);
      },
      λ q. live-coalesce q freed ∙ live-set_free p kheap_start kheap_end q h.blocks v.tiled,
      omega (arith, total, v.counted),
      refl,
    )

-- Two live allocations of a valid heap do not overlap, and lie in the window with their headers.
pub allocations_disjoint :
    (p q k m : ℕ) (h : Heap)
    → IsValid h
    → live p h.blocks ≡ some k
    → live q h.blocks ≡ some m
    → p < q
    → (kheap_start + header ≤ p) × (p + k + header ≤ q) × (q + m ≤ kheap_end)
allocations_disjoint p q k m h v l g lt = omega (
  arith,
  live_disjoint kheap_start kheap_end p q k m h.blocks v.tiled l g lt,
  live_within kheap_start kheap_end p k h.blocks v.tiled l,
  live_within kheap_start kheap_end q m h.blocks v.tiled g,
)
