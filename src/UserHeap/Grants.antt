-- ===== src/UserHeap/Grants.antt =====
-- What `malloc`, `free` and `calloc` of user/lib/malloc.c promise.
use mykernel.Base.{
  ℕ, ◌+◌, ◌-◌, ◌^◌, ◌≤◌, ◌<◌, ◌≡◌, inl, inr, refl, sym, true, false, ◌||◌, Option, none, some, List,
  [], ◌∷◌, arith, leb, ltb, ◌==◌, u32, if◌then◌else◌, Bool-cases, Option-cases,
}
use mathlib.Core.Path.{subst}
use mykernel.Syscall.{Kernel, user_heap_base, user_heap_max}
use mykernel.Syscall.Arena
use mykernel.UserHeap.{
  Mhdr, UserHeap, header, align_up, sys_brk, heap_init, more_core, attach, take_free, extend,
  find_or_extend, malloc,
}
use mykernel.UserHeap.Chain.{
  live, IsValid, Rising-le, live_above, Rising-append, live-append, take_free-Taken,
}

-- `p` is fresh, at least `size` bytes are live there afterwards, and every other allocation and all
-- bytes are as they were.
pub record Granted (size p : ℕ) (h h' : UserHeap) : Type 0 where
  pub fresh : live p h.chain ≡ none
  pub room : ℕ
  pub enough : size ≤ room
  pub now : (q : ℕ) → live q h'.chain ≡ (if p == q then some room else live q h.chain)
  pub bytes : h'.kernel.mem ≡ h.kernel.mem
  pub valid : IsValid h'

pub record Refused (need : ℕ) (h h' : UserHeap) : Type 0 where
  pub full : user_heap_max < h.kernel.user_brk + need
  pub same : h'.chain ≡ h.chain
  pub valid : IsValid h'

-- a pointer, or null because `need` bytes are not left
abbrev pub Outcome : (size need : ℕ) → UserHeap → Option ℕ × UserHeap → Type 0
Outcome size need h (none, h') = Refused need h h'
Outcome size need h (some p, h') = Granted size p h h'

record Malloc (size need : ℕ) (h : UserHeap) (t : Option ℕ × UserHeap) : Type 0 where
  outcome : Outcome size need h t

module _ (h : UserHeap) (v : IsValid h) where
  brk_low : user_heap_base ≤ h.kernel.user_brk
  brk_low = Rising-le user_heap_base h.kernel.user_brk h.chain v.rising

  brk_now : sys_brk 0 h ≡ (h.kernel.user_brk, h)
  unfolding sys_brk Arena.sys_brk
  brk_now = refl

  -- `sbrk(need)`: with room for it, and without
  module _ (need : ℕ) (small : need < 2 ^ 31) where
    exact : u32 (h.kernel.user_brk + need) ≡ h.kernel.user_brk + need
    exact = omega (arith, v.limit)

    raised : UserHeap
    raised = record h { kernel = record h.kernel { user_brk = h.kernel.user_brk + need } }

    brk_full :
        user_heap_max < h.kernel.user_brk + need
        → sys_brk (h.kernel.user_brk + need) h ≡ (h.kernel.user_brk, h)
    unfolding sys_brk Arena.sys_brk
    brk_full full =
        let some_brk : (h.kernel.user_brk + need == 0) ≡ false = ground (arith, brk_low) in
        let out : (ltb (h.kernel.user_brk + need) user_heap_base
              || ltb user_heap_max (h.kernel.user_brk + need))
            ≡ true =
          ground (arith, brk_low) in
        rw (some_brk, out, Arena.sys_brk) refl

    brk_raised :
        h.kernel.user_brk + need ≤ user_heap_max
        → sys_brk (h.kernel.user_brk + need) h ≡ (h.kernel.user_brk + need, raised)
    unfolding sys_brk Arena.sys_brk raised
    brk_raised room =
        let some_brk : (h.kernel.user_brk + need == 0) ≡ false = ground (arith, brk_low) in
        let inside : (ltb (h.kernel.user_brk + need) user_heap_base
              || ltb user_heap_max (h.kernel.user_brk + need))
            ≡ false =
          ground (arith, brk_low) in
        rw (some_brk, inside, Arena.sys_brk) refl

  module _ (size : ℕ) (small : size < 2 ^ 30) where
    need : ℕ
    need = align_up (u32 (size + header))

    need_bounds : (size + header ≤ need) × (need < size + 20)
    unfolding need
    need_bounds = omega arith

    brk_refuses : user_heap_max < h.kernel.user_brk + need → more_core size h ≡ (none, h)
    unfolding more_core need
    brk_refuses full =
        let (lo, hi) = need_bounds in
        let n = align_up (u32 (size + header)) in
        let small' : n < 2 ^ 31 = omega arith in
        let less : ltb h.kernel.user_brk (h.kernel.user_brk + n) ≡ true = ground arith in
        rw (brk_now, exact n small', brk_full n small' full) (rw less refl)

    -- the new block, and the state behind `more_core`
    core : Mhdr
    core = record { addr = h.kernel.user_brk; size = need - header; free = true }

    grown : UserHeap
    grown = record h {
      kernel = record h.kernel { user_brk = h.kernel.user_brk + need };
      heap_end = h.kernel.user_brk + need;
    }

    brk_grants : h.kernel.user_brk + need ≤ user_heap_max → more_core size h ≡ (some core, grown)
    unfolding more_core need core grown raised
    brk_grants room =
        let (lo, hi) = need_bounds in
        let n = align_up (u32 (size + header)) in
        let small' : n < 2 ^ 31 = omega arith in
        let enough : ltb (h.kernel.user_brk + n) (h.kernel.user_brk + n) ≡ false = ground arith in
        let rest : u32 (n + 2 ^ 32 - header) ≡ n - header = omega arith in
        rw (brk_now, exact n small', brk_raised n small' room) (rw (enough, rest) refl)

    extend-Malloc : Malloc size need h (extend size h)
    unfolding extend core grown
    extend-Malloc =
        let (lo, hi) = need_bounds in
        elim (Bool-cases (leb (h.kernel.user_brk + need) user_heap_max)) [
          | inl room ↦
              subst (λ c. Malloc size need h (attach c)) (sym (brk_grants (ground arith)))
                (record {
                  outcome = record {
                    fresh =
                        live_above user_heap_base h.kernel.user_brk (h.kernel.user_brk + header)
                          h.chain v.rising (omega arith);
                    room = need - header;
                    enough = omega arith;
                    now = λ q.
                        live-append h.kernel.user_brk (need - header) user_heap_base
                          h.kernel.user_brk q h.chain v.rising (omega arith);
                    bytes = refl;
                    valid = record {
                      rising =
                          Rising-append h.kernel.user_brk (need - header) user_heap_base
                            h.kernel.user_brk (h.kernel.user_brk + need) h.chain v.rising
                            (omega arith) (omega arith);
                      limit = ground arith;
                    };
                  };
                })
          | inr full ↦
              subst (λ c. Malloc size need h (attach c)) (sym (brk_refuses (ground arith)))
                (record { outcome = record { full = ground arith; same = refl; valid = v } })
        ]

    find_or_extend-Malloc : Malloc size need h (find_or_extend size h)
    unfolding find_or_extend
    find_or_extend-Malloc = elim (Option-cases (take_free size h.chain)) [
      | inr none_fits ↦ rw (none_fits, find_or_extend) extend-Malloc
      | inl (t, e) ↦
          let g =
            take_free-Taken size user_heap_base h.kernel.user_brk t.0 h.chain t.1 v.rising e in
          rw (e, find_or_extend)
            (record {
              outcome = record {
                fresh = g.fresh;
                room = g.room;
                enough = g.enough;
                now = g.now;
                bytes = refl;
                valid = record { rising = g.rising; limit = v.limit };
              };
            })
    ]

-- `heap_init` on a valid heap goes well and changes `heap_end` only.
init_lem :
    (bs : List Mhdr) (e : ℕ) (k : Kernel)
    → user_heap_base ≤ k.user_brk
    → (e' : ℕ) × (heap_init (record { chain = bs; heap_end = e; kernel = k })
        ≡ (true, record { chain = bs; heap_end = e'; kernel = k }))
unfolding heap_init sys_brk Arena.sys_brk
init_lem [] e k low =
    let some_brk : (k.user_brk == 0) ≡ false = ground arith in (k.user_brk, rw some_brk refl)
init_lem (b ∷ bs) e k low = (e, refl)

-- the bytes that a request for `size` takes from the break
abbrev pub needed : ℕ → ℕ
needed size = align_up (u32 (align_up size + header))

to_Outcome :
    (size e : ℕ) (h : UserHeap) (t : Option ℕ × UserHeap)
    → size + 7 < 2 ^ 30
    → Malloc (align_up size) (needed size) (record h { heap_end = e }) t
    → Outcome size (needed size) h t
to_Outcome size e h (none, h') small m =
    let r = m.outcome in record { full = r.full; same = r.same; valid = r.valid }
to_Outcome size e h (some p, h') small m =
    let g = m.outcome in
    record {
      fresh = g.fresh;
      room = g.room;
      enough = omega (arith, g.enough);
      now = g.now;
      bytes = g.bytes;
      valid = g.valid;
    }

-- On a valid heap, and for a size from 1 to 2^30 - 8, `malloc` gives a pointer to a place where
-- nothing was live, with room for the size, and leaves every other allocation and the bytes of memory
-- apart from the headers of blocks, which the model has in a list instead, alone;
-- or it gives null because the rounded size and a header do not fit below the end of the user heap,
-- and leaves all allocations alone. The heap stays valid.
pub malloc-Outcome :
    (size : ℕ) (h : UserHeap)
    → IsValid h
    → 1 ≤ size
    → size + 7 < 2 ^ 30
    → Outcome size (needed size) h (malloc size h)
unfolding malloc need
malloc-Outcome size h v pos small =
    let (e, init) = init_lem h.chain h.heap_end h.kernel (brk_low h v) in
    let h₁ = record h { heap_end = e } in
    let v₁ : IsValid h₁ = record { rising = v.rising; limit = v.limit } in
    let some_bytes : (size == 0) ≡ false = ground arith in
    let n : align_up size < 2 ^ 30 = omega arith in
    rw (some_bytes, init, malloc)
      (to_Outcome size e h (find_or_extend (align_up size) h₁) small
        (find_or_extend-Malloc h₁ v₁ (align_up size) n))
