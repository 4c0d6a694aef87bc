-- ===== src/Ramfs/Marks.antt =====
-- A queue of indices beside the array of marks that says what it holds.
use mykernel.Base.{
  ℕ, zero, suc, ◌+◌, ◌<◌, ◌≤◌, ◌≡◌, inl, inr, refl, Bool, true, false, ◌||◌, List, [], ◌∷◌, ◌++◌,
  arith, ◌==◌, if◌then◌else◌, length, get_or, set, replicate, Bool-cases, ==→eq,
}

abbrev pub has : ℕ → List ℕ → Bool
has j [] = false
has j (i ∷ q) = i == j || has j q

pub has-append : (j : ℕ) (p q : List ℕ) → has j (p ++ q) ≡ (has j p || has j q)
has-append j [] q = refl
has-append j (i ∷ p) q = ground (arith, has-append j p q)

pub has-get_or : (q : List ℕ) (k : ℕ) → k < length q → has (get_or q k 0) q ≡ true
has-get_or [] k h = absurd (omega arith)
has-get_or (i ∷ q) zero h = ground arith
has-get_or (i ∷ q) (suc k) h = ground (arith, has-get_or q k)

-- What a queue holds stands at some index.
pub index_of_has :
    (q : List ℕ) (j : ℕ) → has j q ≡ true → (k : ℕ) × (k < length q) × (get_or q k 0 ≡ j)
index_of_has [] j h = absurd (ground arith)
index_of_has (i ∷ q) j h = elim (Bool-cases (i == j)) [
  | inl here ↦ (0, omega arith, ==→eq i j here)
  | inr there ↦ let (k, lt, e) = index_of_has q j (ground arith) in (suc k, omega arith, e)
]

pub get_or-append : (p q : List ℕ) (k : ℕ) → k < length p → get_or (p ++ q) k 0 ≡ get_or p k 0
get_or-append [] q k h = absurd (omega arith)
get_or-append (i ∷ p) q zero h = refl
get_or-append (i ∷ p) q (suc k) h = get_or-append p q k (omega arith)

abbrev pub marked : List Bool → ℕ → Bool
marked seen i = get_or seen i false

pub marked-set :
    (seen : List Bool) (i j : ℕ)
    → i < length seen
    → marked (set seen i true) j ≡ (i == j || marked seen j)
marked-set [] i j h = absurd (omega arith)
marked-set (b ∷ seen) zero zero h = refl
marked-set (b ∷ seen) zero (suc j) h = ground arith
marked-set (b ∷ seen) (suc i) zero h = ground arith
marked-set (b ∷ seen) (suc i) (suc j) h = ground (arith, marked-set seen i j)

pub marked-replicate : (n j : ℕ) → marked (replicate n false) j ≡ false
marked-replicate zero j = refl
marked-replicate (suc n) zero = refl
marked-replicate (suc n) (suc j) = marked-replicate n j

pub length-replicate : (n : ℕ) → length (replicate n false) ≡ n
length-replicate zero = refl
length-replicate (suc n) = omega (arith, length-replicate n)

pub marks : List Bool → ℕ
marks [] = 0
marks (b ∷ seen) = (if b then 1 else 0) + marks seen

pub marks-replicate : (n : ℕ) → marks (replicate n false) ≡ 0
unfolding marks
marks-replicate zero = refl
marks-replicate (suc n) = omega (arith, marks-replicate n)

pub marks-set :
    (seen : List Bool) (i : ℕ)
    → i < length seen
    → marked seen i ≡ false
    → marks (set seen i true) ≡ marks seen + 1
unfolding marks
marks-set [] i h e = absurd (omega arith)
marks-set (b ∷ seen) zero h e = ground arith
marks-set (b ∷ seen) (suc i) h e = ground (arith, marks-set seen i)

pub marks-le : (seen : List Bool) → marks seen ≤ length seen
unfolding marks
marks-le [] = omega arith
marks-le (b ∷ seen) = ground (arith, marks-le seen)

-- Where a slot is not marked there is room for one more.
pub marks-lt :
    (seen : List Bool) (i : ℕ) → i < length seen → marked seen i ≡ false → marks seen < length seen
unfolding marks
marks-lt [] i h e = absurd (omega arith)
marks-lt (b ∷ seen) zero h e = ground (arith, marks-le seen)
marks-lt (b ∷ seen) (suc i) h e = ground (arith, marks-lt seen i)
