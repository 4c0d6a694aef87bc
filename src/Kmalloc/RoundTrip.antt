-- ===== src/Kmalloc/RoundTrip.antt =====
-- `kfree` undoes `kmalloc`, and the statistics of `kmalloc_stats`, in src/kmalloc.c.
use mykernel.Base.{
  ℕ, ◌+◌, ◌*◌, ◌<◌, ◌≡◌, refl, ◌∙◌, ap, true, false, some, List, [], ◌∷◌, arith, length,
}
use mykernel.Kmalloc.{
  Block, Heap, header, payload, kheap_start, coalesce_from, coalesce, set_free, kmalloc, kfree,
  free_total, kmalloc_stats,
}
use mykernel.Kmalloc.Chain.{Tiled, Apart, used_total, live, kheap_end, IsValid}
use mykernel.Kmalloc.Alloc.{Alloc, whole, cut, skip, used_total-Alloc, live-Alloc, live_fresh}
use mykernel.Kmalloc.Free.{coalesce_from_id, coalesce_from-merge, coalesce_from-keep, merged}
use mykernel.Kmalloc.Contract.{kmalloc-Granted, Granted-IsValid, kfree_lem}

set_free-here :
    (p : ℕ) (b : Block) (rest : List Block)
    → payload b ≡ p
    → set_free p (b ∷ rest) ≡ record b { free = true } ∷ rest
unfolding set_free
set_free-here p b rest e = ground arith

set_free-there :
    (p : ℕ) (b : Block) (rest : List Block)
    → payload b < p
    → set_free p (b ∷ rest) ≡ b ∷ set_free p rest
unfolding set_free
set_free-there p b rest e = ground arith

-- Behind any block, freeing what was just taken and merging restores the chain.
undo_from :
    {size : ℕ} {bs bs' : List Block} {p n : ℕ} (s e : ℕ) (b : Block)
    → Alloc size bs bs' p n
    → Tiled s e bs
    → Apart b.free bs
    → coalesce_from b (set_free p bs') ≡ b ∷ bs
undo_from s e b (whole c rest f le few) t a =
    let again : set_free (payload c) (record c { free = false } ∷ rest) ≡ c ∷ rest =
      set_free-here (payload c) (record c { free = false }) rest refl ∙ ground arith in
    rw again (coalesce_from_id b (c ∷ rest) a)
undo_from {size} s e b (cut c d rest f g le at sz) t a =
    let c' : Block = record c { size = size; free = true } in
    let back : merged c' d ≡ c = ground arith in
    rw (set_free-here (payload c) (record c { size = size; free = false }) (d ∷ rest) refl) (
      coalesce_from-keep b c' (d ∷ rest) (ground arith)
      ∙ ap (λ bs. b ∷ bs)
          (coalesce_from-merge c' d rest (ground arith) ∙ rw back (coalesce_from_id c rest a.1)))
undo_from s e b (skip c {rest' = rest'} {p = p} miss al) t a =
    let next = s + header + c.size in
    rw (set_free-there p c rest' (omega (arith, live_fresh next e al t.1))) (
      coalesce_from-keep b c (set_free p rest') a.0
      ∙ ap (λ bs. b ∷ bs) (undo_from next e c al t.1 a.1))

abbrev front : Block
front = record { addr = 0; size = 0; free = false }

coalesce_from-front : (bs : List Block) → coalesce_from front bs ≡ front ∷ coalesce bs
unfolding coalesce coalesce_from
coalesce_from-front [] = refl
coalesce_from-front (b ∷ bs) = refl

undo :
    {size : ℕ} {bs bs' : List Block} {p n : ℕ} (s e : ℕ)
    → Alloc size bs bs' p n
    → Tiled s e bs
    → Apart false bs
    → coalesce (set_free p bs') ≡ bs
undo {bs' = bs'} {p} s e al t a =
    cc (coalesce_from-front (set_free p bs'), undo_from s e front al t a)

-- Freeing at once what `kmalloc` has granted on a valid heap succeeds and gives back the chain as it was: the
-- same blocks, with their sizes and free flags, and the same count of used bytes.
pub kfree-kmalloc :
    (n p : ℕ) (h h' : Heap)
    → IsValid h
    → kmalloc n h ≡ (some p, h')
    → (h'' : Heap) × (kfree (some p) h' ≡ some h'')
      × (h''.blocks ≡ h.blocks)
      × (h''.heap_used ≡ h.heap_used)
kfree-kmalloc n p h h' v e =
    let g = kmalloc-Granted n v e in
    let v' = Granted-IsValid v g in
    let here : live p h'.blocks ≡ some g.taken =
      ground (arith, live-Alloc kheap_start kheap_end p g.walk v.tiled) in
    (
      h,
      kfree_lem p g.taken h' v' here
          ∙ ground (
            arith,
            undo kheap_start kheap_end g.walk v.tiled v.apart,
            used_total-Alloc g.walk,
            v.counted,
            v'.counted,
            g.same,
          ),
      refl,
      refl,
    )

totals :
    (s e : ℕ) (bs : List Block)
    → Tiled s e bs
    → s + free_total bs + used_total bs + header * length bs ≡ e
unfolding free_total
totals s e [] t = omega arith
totals s e (b ∷ bs) t = ground (arith, totals (s + header + b.size) e bs t.1)

-- On a valid heap `used`, `free_bytes` and a header for each block make up `total`.
pub kmalloc_stats_add_up :
    (h : Heap)
    → IsValid h
    → let (used, total, free_bytes) = kmalloc_stats h in
      used + free_bytes + header * length h.blocks ≡ total
unfolding kmalloc_stats
kmalloc_stats_add_up h v = omega (arith, totals kheap_start kheap_end h.blocks v.tiled, v.counted)
