-- ===== src/Fat32/Chains.antt =====
-- Chains of clusters in src/fat32.c: a cluster that is taken was free, and a chain is given back.
use mykernel.Base.{
  ℕ, zero, suc, ◌+◌, ◌-◌, ◌^◌, ◌<◌, ◌≤◌, ◌≡◌, ◌≢◌, refl, sym, ap, ◌∙◌, Bool, true, false, ◌||◌,
  Option, some, List, [], ◌∷◌, arith, u32, length, ◌==◌, ==→eq, if◌then◌else◌, Bool-cases, inl, inr,
}
use mathlib.Core.Path.{subst}
use mykernel.Part.{Ata, IsDisk}
use mykernel.Fat32.{
  Volume, end_of_chain, in_chain, fat_get, fat_set, claimed, alloc_from, fat_alloc_cluster, freed,
  free_from, fat_free_chain,
}
use mykernel.Fat32.Entries.{Placed}
use mykernel.Fat32.Sets.{EntrySet, fat_get-fat_set, Reliable, fat_set-Reliable}

abbrev elem : ℕ → List ℕ → Bool
elem x [] = false
elem x (c ∷ cs) = x == c || elem x cs

abbrev pub Distinct : List ℕ → Type 0
Distinct [] = Unit
Distinct (c ∷ cs) = (elem c cs ≡ false) × Distinct cs

module _ {D : Type 0} (ata : Ata D) (v : Volume) where
  -- The clusters from `start` on, up to the end of the chain.
  abbrev pub Linked : D → List ℕ → ℕ → Type 0
  Linked d [] start = in_chain start ≡ false
  Linked d (c ∷ cs) start =
      (start ≡ c) × (in_chain c ≡ true) × Placed v c × Linked d cs (fat_get ata v c d)

  -- What an allocation does: it takes the first free cluster, or there is none, or the entry of the
  -- first free cluster could not be written.
  pub data AllocOutcome (disk : IsDisk ata) (d : D) : ℕ × D → Type 0 where
    taken :
        {c : ℕ} {d' : D}
        → 2 ≤ c
        → c < v.total_clusters + 2
        → fat_get ata v c d ≡ 0
        → ((b : ℕ) → 2 ≤ b → b < c → fat_get ata v b d ≢ 0)
        → EntrySet ata v disk c end_of_chain d d'
        → AllocOutcome disk d (c, d')
    full :
        ((b : ℕ) → 2 ≤ b → b < v.total_clusters + 2 → fat_get ata v b d ≢ 0)
        → AllocOutcome disk d (0, d)
    disk_error :
        (c : ℕ) {d' : D}
        → fat_get ata v c d ≡ 0
        → fat_set ata v c end_of_chain d ≡ (false, d')
        → AllocOutcome disk d (0, d')

  module _ (disk : IsDisk ata) (some_copy : 0 < v.num_fats)
      (placed : (c : ℕ) → c < v.total_clusters + 2 → Placed v c) where
    claimed-AllocOutcome :
        (c : ℕ) (d : D) (r : Bool × D)
        → 2 ≤ c
        → c < v.total_clusters + 2
        → fat_get ata v c d ≡ 0
        → ((b : ℕ) → 2 ≤ b → b < c → fat_get ata v b d ≢ 0)
        → fat_set ata v c end_of_chain d ≡ r
        → AllocOutcome disk d (claimed ata v c r)
    claimed-AllocOutcome c d (false, d') low high free earlier e = disk_error c free e
    claimed-AllocOutcome c d (true, d') low high free earlier e =
        let set =
          fat_get-fat_set ata v disk c end_of_chain d (placed c high) some_copy (ap (λ r. r.0) e) in
        taken low high free earlier
          (subst (λ r. EntrySet ata v disk c end_of_chain d r) (ap (λ r. r.1) e) set)

    alloc_from-AllocOutcome :
        (n c : ℕ) (d : D)
        → 2 ≤ c
        → c + n ≡ v.total_clusters + 2
        → ((b : ℕ) → 2 ≤ b → b < c → fat_get ata v b d ≢ 0)
        → AllocOutcome disk d (alloc_from ata v n c d)
    unfolding alloc_from
    alloc_from-AllocOutcome zero c d low all earlier =
        full (λ b low' high. earlier b low' (omega arith))
    alloc_from-AllocOutcome (suc n) c d low all earlier =
        elim (Bool-cases (fat_get ata v c d == 0)) [
          | inl e ↦
              rw (e, alloc_from)
                (claimed-AllocOutcome c d (fat_set ata v c end_of_chain d) low (omega arith)
                  (==→eq (fat_get ata v c d) 0 e) earlier refl)
          | inr e ↦
              rw (e, alloc_from)
                (alloc_from-AllocOutcome n (c + 1) d (omega arith) (omega arith)
                  (λ b low' high. up_to b low' high e))
        ]
      where
        up_to :
            (b : ℕ) → 2 ≤ b → b < c + 1 → (fat_get ata v c d == 0) ≡ false → fat_get ata v b d ≢ 0
        up_to b low' high e zero_entry = elim (Bool-cases (b == c)) [
          | inl f ↦
              let here = ap (λ x. fat_get ata v x d) (sym (==→eq b c f)) ∙ zero_entry in
              ground (arith, e, here)
          | inr f ↦ earlier b low' (ground (arith, f)) zero_entry
        ]

    -- An allocation takes the first free cluster, marks it as the end of a chain in every copy of the
    -- table and changes no other byte of the disk; or all clusters are in use and nothing changes; or
    -- the entry of a free cluster could not be written, and then nothing is said of the disk. The
    -- table has all entries, its copies lie one behind the other below 2^32, and there are fewer
    -- than 2^32 - 2 clusters.
    pub fat_alloc_cluster-AllocOutcome :
        (d : D) → v.total_clusters + 2 < 2 ^ 32 → AllocOutcome disk d (fat_alloc_cluster ata v d)
    unfolding fat_alloc_cluster
    fat_alloc_cluster-AllocOutcome d small =
        alloc_from-AllocOutcome (u32 (v.total_clusters + 2) - 2) 2 d (omega arith) (omega arith)
          (λ b low high. absurd (omega arith))

  module _ (disk : IsDisk ata) (some_copy : 0 < v.num_fats) (reliable : Reliable ata) where
    -- a chain stays when an entry is set that is not in it
    Linked-set :
        (c : ℕ) (d d' : D) (cs : List ℕ) (start : ℕ)
        → EntrySet ata v disk c 0 d d'
        → elem c cs ≡ false
        → Linked d cs start
        → Linked d' cs start
    Linked-set c d d' [] start set out h = h
    Linked-set c d d' (x ∷ cs) start set out (e, inside, p, rest) =
        let ne : x ≢ c = λ same. ground (arith, same, out) in
        let later = Linked-set c d d' cs (fat_get ata v x d) set (ground (arith, out)) rest in
        (e, inside, p, subst (Linked d' cs) (sym (set.other x p ne)) later)

    -- the entries of the chain are 0, and all others as before
    pub record Freed (cs : List ℕ) (d d' : D) : Type 0 where
      pub entries :
          (c : ℕ) → Placed v c → fat_get ata v c d' ≡ (if elem c cs then 0 else fat_get ata v c d)

    Freed-cons :
        (c : ℕ) (cs : List ℕ) (d d₁ d' : D)
        → elem c cs ≡ false
        → EntrySet ata v disk c 0 d d₁
        → Freed cs d₁ d'
        → Freed (c ∷ cs) d d'
    Freed-cons c cs d d₁ d' out set f = record { entries = entry }
      where
        entry :
            (x : ℕ)
            → Placed v x
            → fat_get ata v x d' ≡ (if elem x (c ∷ cs) then 0 else fat_get ata v x d)
        entry x p = elim (Bool-cases (x == c)) [
          | inl e ↦
              let same = ==→eq x c e in
              let free : elem x cs ≡ false = ap (λ y. elem y cs) same ∙ out in
              f.entries x p ∙ rw (e, free) (ap (λ y. fat_get ata v y d₁) same ∙ set.self)
          | inr e ↦
              let ne : x ≢ c = λ same. ground (arith, same, e) in
              f.entries x p ∙ rw (e, set.other x p ne) refl
        ]

    free_from-Freed :
        (n : ℕ) (cs : List ℕ) (start : ℕ) (d : D)
        → Linked d cs start
        → Distinct cs
        → length cs < n
        → (d' : D) × (free_from ata v n start d ≡ some (true, d')) × Freed cs d d'
    unfolding free_from
    free_from-Freed zero cs start d h distinct le = absurd (omega arith)
    free_from-Freed (suc n) [] start d h distinct le =
        (d, rw (h, free_from) refl, record { entries = λ c p. refl })
    free_from-Freed (suc n) (c ∷ cs) start d (e, inside, p, rest) distinct le =
        let ok = fat_set-Reliable ata v reliable c 0 d in
        let d₁ = (fat_set ata v c 0 d).1 in
        let set = fat_get-fat_set ata v disk c 0 d p some_copy ok in
        let (d', run, f) =
          free_from-Freed n cs (fat_get ata v c d) d₁
            (Linked-set c d d₁ cs (fat_get ata v c d) set distinct.0 rest) distinct.1
            (omega arith) in
        (
          d',
          ap (λ x. free_from ata v (suc n) x d) e
              ∙ rw (inside, free_from)
                  (by_set (fat_set ata v c 0 d) (free_from ata v n (fat_get ata v c d)) ok run),
          Freed-cons c cs d d₁ d' distinct.0 set f,
        )
      where
        by_set :
            {r : Option (Bool × D)} (w : Bool × D) (loop : D → Option (Bool × D))
            → w.0 ≡ true
            → loop w.1 ≡ r
            → freed ata v w loop ≡ r
        by_set (true, d₁) loop ok e = e
        by_set (false, d₁) loop ok e = absurd (ground (arith, ok))

    -- Giving back a chain of different clusters that ends ends itself, sets the entries of the chain
    -- to 0 and changes no other entry. The disk never fails, the copies of the table lie one
    -- behind the other below 2^32 and have the entries of the chain, and the chain has fewer than 2^28 clusters.
    pub fat_free_chain-Freed :
        (cs : List ℕ) (start : ℕ) (d : D)
        → Linked d cs start
        → Distinct cs
        → length cs < 2 ^ 28
        → (d' : D) × (fat_free_chain ata v start d ≡ some (true, d')) × Freed cs d d'
    unfolding fat_free_chain
    fat_free_chain-Freed cs start d h distinct le =
        free_from-Freed (2 ^ 28) cs start d h distinct le
