-- ===== src/UserHeap/Chain.antt =====
-- The chain of headers of user/lib/malloc.c: it rises from the start of the user heap to the break.
use mykernel.Base.{
  ℕ, ◌+◌, ◌≤◌, ◌<◌, ◌≡◌, inl, inr, refl, false, ◌&&◌, not, Option, none, some, List, [], ◌∷◌, ◌++◌,
  arith, leb, ◌==◌, if◌then◌else◌, Bool-cases, Option-cases,
}
use mathlib.Core.Path.{subst}
use mathlib.Core.Option.{some_inj}
use mykernel.Syscall.{user_heap_base, user_heap_max}
use mykernel.UserHeap.{Mhdr, UserHeap, header, payload, take_free}

-- From `lo` on the blocks follow one another without overlap, and end at `hi` at most.
abbrev pub Rising : ℕ → ℕ → List Mhdr → Type 0
Rising lo hi [] = lo ≤ hi
Rising lo hi (b ∷ rest) = (lo ≤ b.addr) × Rising (b.addr + header + b.size) hi rest

-- the size of the live allocation at the pointer `p`
abbrev pub live : ℕ → List Mhdr → Option ℕ
live p [] = none
live p (b ∷ rest) = if (payload b == p) && not b.free then some b.size else live p rest

pub record IsValid (h : UserHeap) : Type 0 where
  pub rising : Rising user_heap_base h.kernel.user_brk h.chain
  pub limit : h.kernel.user_brk ≤ user_heap_max

pub Rising-le : (lo hi : ℕ) (bs : List Mhdr) → Rising lo hi bs → lo ≤ hi
Rising-le lo hi [] r = r
Rising-le lo hi (b ∷ bs) r = omega (arith, Rising-le (b.addr + header + b.size) hi bs r.1)

pub live_below :
    (lo hi p : ℕ) (bs : List Mhdr) → Rising lo hi bs → p < lo + header → live p bs ≡ none
live_below lo hi p [] r h = refl
live_below lo hi p (b ∷ bs) r h = ground (arith, live_below (b.addr + header + b.size) hi p bs r.1)

pub live_within :
    (lo hi p k : ℕ) (bs : List Mhdr)
    → Rising lo hi bs
    → live p bs ≡ some k
    → (lo + header ≤ p) × (p + k ≤ hi)
live_within lo hi p k [] r h = absurd (ground arith)
live_within lo hi p k (b ∷ bs) r h =
    let next = b.addr + header + b.size in
    ground (arith, live_within next hi p k bs r.1, Rising-le next hi bs r.1)

pub live_above : (lo hi p : ℕ) (bs : List Mhdr) → Rising lo hi bs → hi < p → live p bs ≡ none
live_above lo hi p bs r h = elim (Option-cases (live p bs)) [
  | inr nothing ↦ nothing
  | inl (k, e) ↦ absurd (omega (arith, live_within lo hi p k bs r e))
]

pub live_disjoint :
    (lo hi p q k m : ℕ) (bs : List Mhdr)
    → Rising lo hi bs
    → live p bs ≡ some k
    → live q bs ≡ some m
    → p < q
    → p + k + header ≤ q
live_disjoint lo hi p q k m [] r h g lt = absurd (ground arith)
live_disjoint lo hi p q k m (b ∷ bs) r h g lt =
    let next = b.addr + header + b.size in
    ground (
      arith,
      live_disjoint next hi p q k m bs r.1,
      live_within next hi p k bs r.1,
      live_within next hi q m bs r.1,
    )

-- a new block behind the others
module _ (a size : ℕ) where
  abbrev pub last_block : Mhdr
  last_block = record { addr = a; size = size; free = false }

  pub Rising-append :
      (lo hi end : ℕ) (bs : List Mhdr)
      → Rising lo hi bs
      → hi ≤ a
      → a + header + size ≤ end
      → Rising lo end (bs ++ last_block ∷ [])
  Rising-append lo hi end [] r h g = (omega arith, g)
  Rising-append lo hi end (b ∷ bs) r h g =
      (r.0, Rising-append (b.addr + header + b.size) hi end bs r.1 h g)

  pub live-append :
      (lo hi q : ℕ) (bs : List Mhdr)
      → Rising lo hi bs
      → hi ≤ a
      → live q (bs ++ last_block ∷ []) ≡ (if a + header == q then some size else live q bs)
  live-append lo hi q [] r h = ground arith
  live-append lo hi q (b ∷ bs) r h =
      let next = b.addr + header + b.size in
      ground (arith, live-append next hi q bs r.1 h, Rising-le next hi bs r.1)

-- What `take_free` gives: the block was not live, it is large enough, and nothing else is changed.
pub record Taken (size lo hi p : ℕ) (bs bs' : List Mhdr) : Type 0 where
  pub rising : Rising lo hi bs'
  pub above : lo + header ≤ p
  pub fresh : live p bs ≡ none
  pub room : ℕ
  pub enough : size ≤ room
  pub now : (q : ℕ) → live q bs' ≡ (if p == q then some room else live q bs)

pub take_free-Taken :
    (size lo hi p : ℕ) (bs bs' : List Mhdr)
    → Rising lo hi bs
    → take_free size bs ≡ some (p, bs')
    → Taken size lo hi p bs bs'
unfolding take_free
take_free-Taken size lo hi p [] bs' r e = absurd (ground arith)
take_free-Taken size lo hi p (b ∷ bs) bs' r e =
    let next = b.addr + header + b.size in
    elim (Bool-cases (b.free && leb size b.size)) [
      | inl fits ↦
          let here : some (payload b, record b { free = false } ∷ bs) ≡ some (p, bs') =
            rw fits at e in
          subst (λ t. Taken size lo hi t.0 (b ∷ bs) t.1) (some_inj.0 here)
            (record {
              rising = r;
              above = omega (arith, r.0);
              fresh = ground (arith, live_below next hi (payload b) bs r.1);
              room = b.size;
              enough = ground arith;
              now = λ q. ground arith;
            })
      | inr other ↦ elim (Option-cases (take_free size bs)) [
        | inr full ↦
            let no : Path (Option (ℕ × List Mhdr)) none (some (p, bs')) = rw (other, full) at e in
            absurd (ground arith)
        | inl (t, e') ↦
            let there : some (t.0, b ∷ t.1) ≡ some (p, bs') = rw (other, e') at e in
            let g = take_free-Taken size next hi t.0 bs t.1 r.1 e' in
            subst (λ t. Taken size lo hi t.0 (b ∷ bs) t.1) (some_inj.0 there)
              (record {
                rising = (r.0, g.rising);
                above = omega (arith, r.0, g.above);
                fresh = ground (arith, g.fresh, g.above);
                room = g.room;
                enough = g.enough;
                now = λ q. ground (arith, g.now q, g.above);
              })
      ]
    ]
