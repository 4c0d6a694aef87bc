-- ===== src/Vfs/Owns.antt =====
-- Which paths a mount of src/vfs.c owns, and what follows its name.
use mykernel.Base.{
  ℕ, zero, suc, ◌-◌, ◌<◌, ◌≡◌, ◌≢◌, ◌⊎◌, inl, inr, refl, sym, ap, ◌∙◌, true, ◌&&◌, Option, none,
  some, List, [], ◌∷◌, ◌++◌, arith, ltb, ◌==◌, ==→eq, ==-refl, length, drop, take, get_or,
  Bool-cases,
}
use mykernel.Vfs.{Mount, is_prefix, at_boundary, owns, rest_of, skip_slash}

-- the path ends here or goes on with '/', or the mount point is "/" itself
abbrev pub Border : (name rest : List ℕ) → Type 0
Border name rest = (rest ≡ []) ⊎ ((t : List ℕ) × (rest ≡ b'/' ∷ t)) ⊎ (name ≡ b'/' ∷ [])

-- The mount is used, and its name is the path down to a border.
abbrev pub Owns : List ℕ → Mount → Type 0
Owns path m = (m.used ≡ true) × ((rest : List ℕ) × (path ≡ m.path ++ rest) × Border m.path rest)

-- `s` is the rest without one '/' in front
abbrev pub Stripped : (rest s : List ℕ) → Type 0
Stripped rest s = (rest ≡ b'/' ∷ s) ⊎ ((rest ≡ s) × ((t : List ℕ) → rest ≢ b'/' ∷ t))

-- what a buffer of `max` characters gets: nothing, or the front with room for the end of the text
abbrev pub Given : (max : ℕ) (s : List ℕ) → Option (List ℕ) → Type 0
Given max s o = ((max ≡ 0) × (o ≡ none)) ⊎ ((0 < max) × (o ≡ some (take (max - 1) s)))

pub is_prefix-cut : (m p : List ℕ) → is_prefix m p ≡ true → p ≡ m ++ drop (length m) p
unfolding is_prefix
is_prefix-cut [] p h = refl
is_prefix-cut (c ∷ m) [] h = absurd (ground (arith, h))
is_prefix-cut (c ∷ m) (d ∷ p) h =
    let same = ==→eq c d (ground (arith, h)) in
    let later = is_prefix-cut m p (ground (arith, h)) in
    ap (λ x. x ∷ p) (sym same) ∙ ap (λ q. c ∷ q) later

is_prefix-append : (m r : List ℕ) → is_prefix m (m ++ r) ≡ true
unfolding is_prefix
is_prefix-append [] r = refl
is_prefix-append (c ∷ m) r = rw (==-refl c) (is_prefix-append m r)

drop-append : (m r : List ℕ) → drop (length m) (m ++ r) ≡ r
drop-append [] r = refl
drop-append (c ∷ m) r = drop-append m r

at_boundary-Border : (m r : List ℕ) → at_boundary m r ≡ true → Border m r
unfolding at_boundary
at_boundary-Border m [] h = inl refl
at_boundary-Border m (d ∷ r) h = elim (Bool-cases (d == b'/')) [
  | inl e ↦ inr (inl (r, ap (λ x. x ∷ r) (==→eq d b'/' e)))
  | inr e ↦ inr (inr (root m (ground (arith, h, e))))
]
  where
    root : (m : List ℕ) → (length m == 1 && get_or m 0 0 == b'/') ≡ true → m ≡ b'/' ∷ []
    root [] f = absurd (ground (arith, f))
    root (c ∷ []) f = ap (λ x. x ∷ []) (==→eq c b'/' (ground (arith, f)))
    root (c ∷ d ∷ m) f = absurd (ground (arith, f))

Border-at_boundary : (m r : List ℕ) → Border m r → at_boundary m r ≡ true
unfolding at_boundary
Border-at_boundary m [] h = refl
Border-at_boundary m (d ∷ r) (inl e) = absurd (ground (arith, e))
Border-at_boundary m (d ∷ r) (inr (inl (t, e))) = let first : d ≡ b'/' = cc e in rw first refl
Border-at_boundary m (d ∷ r) (inr (inr e)) = rw e (ground arith)

pub owns-Owns : (path : List ℕ) (m : Mount) → owns path m ≡ true → Owns path m
unfolding owns
owns-Owns path m h =
    let border : at_boundary m.path (drop (length m.path) path) ≡ true = ground (arith, h) in
    (
      ground (arith, h),
      (
        drop (length m.path) path,
        is_prefix-cut m.path path (ground (arith, h)),
        at_boundary-Border m.path (drop (length m.path) path) border,
      ),
    )

pub Owns-owns : (path : List ℕ) (m : Mount) → Owns path m → owns path m ≡ true
unfolding owns
Owns-owns path m (used, (r, cut, border)) =
    let front : is_prefix m.path path ≡ true =
      ap (λ p. is_prefix m.path p) cut ∙ is_prefix-append m.path r in
    let behind : drop (length m.path) path ≡ r =
      ap (λ p. drop (length m.path) p) cut ∙ drop-append m.path r in
    rw (used, front, behind) (Border-at_boundary m.path r border)

pub skip_slash-Stripped : (r : List ℕ) → Stripped r (skip_slash r)
skip_slash-Stripped [] = inr (refl, λ t e. ground (arith, e))
skip_slash-Stripped (c ∷ r) = elim (Bool-cases (c == b'/')) [
  | inl h ↦ rw h (inl (ap (λ x. x ∷ r) (==→eq c b'/' h)))
  | inr h ↦ rw h (inr (refl, λ t e. let first : c ≡ b'/' = cc e in ground (arith, h, first)))
]

pub rest_of-Given : (max : ℕ) (s : List ℕ) → Given max s (rest_of max s)
rest_of-Given zero s = inl (refl, refl)
rest_of-Given (suc max) s =
    let room : ltb 0 (suc max) ≡ true = ground arith in inr (omega arith, rw room refl)
