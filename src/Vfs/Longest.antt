-- ===== src/Vfs/Longest.antt =====
-- `vfs_resolve` of src/vfs.c finds the longest mount point.
use mykernel.Base.{
  ℕ, ◌≤◌, ◌≡◌, ◌≢◌, ◌⊎◌, inl, inr, refl, true, false, ◌&&◌, Option, none, some, List, [], ◌∷◌, ◌++◌,
  arith, ltb, length, drop, Bool-cases,
}
use mykernel.Vfs.{
  FsType, fs_ram, Mount, owns, better, best_from, skip_slash, resolve_to, vfs_resolve,
}
use mykernel.Vfs.Owns.{
  Owns, Stripped, Given, is_prefix-cut, owns-Owns, Owns-owns, skip_slash-Stripped, rest_of-Given,
}

-- the mount is in the table
abbrev pub Among : Mount → List Mount → Type 0
Among m [] = ⊥
Among m (x ∷ ms) = (m ≡ x) ⊎ Among m ms

-- `b` owns the path, and no mount of the table that owns it has a longer name.
pub record Longest (path : List ℕ) (b : Mount) (ms : List Mount) : Type 0 where
  pub owner : Owns path b
  pub longest : (m : Mount) → Among m ms → Owns path m → length m.path ≤ length b.path

-- the answer is the type of `b` and what follows its name
pub record Answer (path : List ℕ) (max : ℕ) (b : Mount) (r : FsType × Option (List ℕ))
    : Type 0 where
  pub rest : List ℕ
  pub shown : List ℕ
  pub cut : path ≡ b.path ++ rest
  pub stripped : Stripped rest shown
  pub type : r.0 ≡ b.type
  pub given : Given max shown r.1

-- the same with the test of the search in place of `Owns`
record Search (path : List ℕ) (b : Mount) (ms : List Mount) : Type 0 where
  owner : owns path b ≡ true
  longest : (m : Mount) → Among m ms → owns path m ≡ true → length m.path ≤ length b.path

Search-Longest :
    (path : List ℕ) (b : Mount) (ms : List Mount) → Search path b ms → Longest path b ms
Search-Longest path b ms l = record {
  owner = owns-Owns path b l.owner;
  longest = λ m a o. l.longest m a (Owns-owns path m o);
}

Search-Answer :
    (path : List ℕ) (max : ℕ) (b : Mount) (ms : List Mount)
    → Search path b ms
    → Answer path max b (resolve_to path max (some b))
unfolding resolve_to owns
Search-Answer path max b ms l =
    let behind = drop (length b.path) path in
    let own = l.owner in
    record {
      rest = behind;
      shown = skip_slash behind;
      cut = is_prefix-cut b.path path (ground (arith, own));
      stripped = skip_slash-Stripped behind;
      type = refl;
      given = rest_of-Given max (skip_slash behind);
    }

from_some :
    (path : List ℕ) (ms : List Mount) (b₀ : Mount)
    → owns path b₀ ≡ true
    → (b : Mount) × (best_from path ms (some b₀) ≡ some b)
      × Among b (b₀ ∷ ms)
      × Search path b (b₀ ∷ ms)
unfolding best_from better
from_some path [] b₀ o = (
  b₀,
  refl,
  inl refl,
  record { owner = o; longest = λ m a u. elim a [ inl e ↦ ground arith | inr f ↦ absurd f ] },
)
from_some path (m ∷ ms) b₀ o =
    elim (Bool-cases (owns path m && ltb (length b₀.path) (length m.path))) [
      | inl longer ↦
          let own : owns path m ≡ true = ground arith in
          let (b, e, among, l) = from_some path ms m own in
          let above : length m.path ≤ length b.path = l.longest m (inl refl) own in
          (
            b,
            rw (longer, better) e,
            inr among,
            record {
              owner = l.owner;
              longest = λ x a u. elim a [ inl i ↦ ground arith | inr r ↦ l.longest x r u ];
            },
          )
      | inr shorter ↦
          let (b, e, among, l) = from_some path ms b₀ o in
          let above : length b₀.path ≤ length b.path = l.longest b₀ (inl refl) o in
          (
            b,
            rw (shorter, better) e,
            elim among [ inl i ↦ inl i | inr r ↦ inr (inr r) ],
            record {
              owner = l.owner;
              longest = λ x a u. elim a [
                | inl i ↦ ground arith
                | inr r ↦ elim r [ inl i ↦ ground arith | inr q ↦ l.longest x (inr q) u ]
              ];
            },
          )
    ]

from_none :
    (path : List ℕ) (ms : List Mount)
    → ((b : Mount) × (best_from path ms none ≡ some b) × Among b ms × Search path b ms)
      ⊎ ((best_from path ms none ≡ none) × ((m : Mount) → Among m ms → owns path m ≡ false))
unfolding best_from better
from_none path [] = inr (refl, λ m a. absurd a)
from_none path (m ∷ ms) = elim (Bool-cases (owns path m)) [
  | inl own ↦ inl (rw (own, better) (from_some path ms m own))
  | inr other ↦ elim (from_none path ms) [
    | inl (b, e, among, l) ↦ inl (
      b,
      rw (other, better) e,
      inr among,
      record {
        owner = l.owner;
        longest = λ x a u. elim a [ inl i ↦ absurd (ground arith) | inr r ↦ l.longest x r u ];
      },
    )
    | inr (e, free) ↦
        inr (rw (other, better) e, λ x a. elim a [ inl i ↦ ground arith | inr r ↦ free x r ])
  ]
]

-- `vfs_resolve` of a path that is not empty answers with a mount that owns the path, so that no
-- mount that owns it has a longer name: its type, and the rest of the path behind its name and one
-- '/'. Where no mount owns the path, it answers with the RAM file system and the whole path. A mount
-- owns a path when it is used and its name is the front of the path, which ends there or goes on
-- with '/', or the name is "/". The rest is cut to the buffer: none without a buffer, else at most
-- `rest_max` - 1 characters.
pub vfs_resolve-Longest :
    (path : List ℕ) (rest_max : ℕ) (ms : List Mount)
    → path ≢ []
    → ((b : Mount) × Among b ms
        × Longest path b ms
        × Answer path rest_max b (vfs_resolve path rest_max ms))
      ⊎ (((m : Mount) → Among m ms → ¬ Owns path m)
          × ((vfs_resolve path rest_max ms).0 ≡ fs_ram)
          × Given rest_max path (vfs_resolve path rest_max ms).1)
unfolding vfs_resolve resolve_to
vfs_resolve-Longest [] rest_max ms h = absurd (h refl)
vfs_resolve-Longest (c ∷ p) rest_max ms h = elim (from_none (c ∷ p) ms) [
  | inl (b, e, among, l) ↦
      inl (b, among, Search-Longest (c ∷ p) b ms l, rw e (Search-Answer (c ∷ p) rest_max b ms l))
  | inr (e, free) ↦ inr (
    λ m a o.
        let own = Owns-owns (c ∷ p) m o in let not_own = free m a in ground (arith, own, not_own),
    rw e refl,
    rw e (rest_of-Given rest_max (c ∷ p)),
  )
]
