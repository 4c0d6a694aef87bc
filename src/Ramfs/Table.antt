-- ===== src/Ramfs/Table.antt =====
-- What the two searches of src/fs.c find, and the table after a write.
use mykernel.Base.{
  ℕ, zero, suc, ◌+◌, ◌<◌, ◌≡◌, ◌≢◌, inl, inr, refl, ap, true, false, none, some, List, [], ◌∷◌,
  arith, ◌==◌, if◌then◌else◌, length, set, get_or-set_self, get_or-set_ne, Bool-cases, ==→eq,
  ==-refl, take,
}
use mykernel.Ramfs.Node.{
  Node, node_at, is_free, k_streq, is_child, find_from, find_child, alloc_from, alloc_node,
  name_max, is_valid_name, k_strcpy_truncate,
}

pub k_streq→eq : (xs ys : List ℕ) → k_streq xs ys ≡ true → xs ≡ ys
unfolding k_streq
k_streq→eq [] [] h = refl
k_streq→eq [] (y ∷ ys) h = absurd (ground arith)
k_streq→eq (x ∷ xs) [] h = absurd (ground arith)
k_streq→eq (x ∷ xs) (y ∷ ys) h = ground (arith, k_streq→eq xs ys)

pub k_streq_refl : (xs : List ℕ) → k_streq xs xs ≡ true
unfolding k_streq
k_streq_refl [] = refl
k_streq_refl (x ∷ xs) = rw (==-refl x) (k_streq_refl xs)

pub node_at-set :
    (ns : List Node) (i j : ℕ) (n : Node)
    → i < length ns
    → node_at (set ns i n) j ≡ (if i == j then n else node_at ns j)
node_at-set ns i j n h = elim (Bool-cases (i == j)) [
  | inl e ↦ rw (e, ← ==→eq i j e) (get_or-set_self ns i n _ h)
  | inr e ↦ rw e (get_or-set_ne ns i j n _ (ground arith))
]

-- A slot out of the table is not in use.
pub lt_of_live : (ns : List Node) (j : ℕ) → is_free (node_at ns j).type ≡ false → j < length ns
lt_of_live [] j h = absurd (ground arith)
lt_of_live (n ∷ ns) zero h = omega arith
lt_of_live (n ∷ ns) (suc j) h = omega (arith, lt_of_live ns j h)

pub is_child→ :
    (p : ℕ) (name : List ℕ) (n : Node)
    → is_child p name n ≡ true
    → (is_free n.type ≡ false) × (n.parent ≡ some p) × (n.name ≡ name)
unfolding is_child
is_child→ p name n h = ground (arith, k_streq→eq n.name name)

find_from-some :
    (i p : ℕ) (name : List ℕ) (ns : List Node) (k : ℕ)
    → find_from i p name ns ≡ some k
    → (j : ℕ) × (k ≡ i + j) × (j < length ns) × (is_child p name (node_at ns j) ≡ true)
unfolding find_from
find_from-some i p name [] k h = absurd (ground arith)
find_from-some i p name (n ∷ ns) k h = elim (Bool-cases (is_child p name n)) [
  | inl hit ↦ (0, ground arith, omega arith, hit)
  | inr miss ↦
      let (j, e, lt, c) = find_from-some (i + 1) p name ns k (ground arith) in
      (suc j, omega arith, omega arith, c)
]

find_from-none :
    (i p : ℕ) (name : List ℕ) (ns : List Node)
    → find_from i p name ns ≡ none
    → (j : ℕ) → j < length ns
    → is_child p name (node_at ns j) ≡ false
unfolding find_from
find_from-none i p name [] h j lt = absurd (omega arith)
find_from-none i p name (n ∷ ns) h zero lt = ground arith
find_from-none i p name (n ∷ ns) h (suc j) lt =
    find_from-none (i + 1) p name ns (ground arith) j (omega arith)

pub find_child-some :
    (p : ℕ) (name : List ℕ) (ns : List Node) (k : ℕ)
    → find_child p name ns ≡ some k
    → (k < length ns)
      × (is_free (node_at ns k).type ≡ false)
      × ((node_at ns k).parent ≡ some p)
      × ((node_at ns k).name ≡ name)
unfolding find_child
find_child-some p name ns k h =
    let (j, e, lt, c) = find_from-some 0 p name ns k h in
    let same : k ≡ j = omega arith in
    let (l, par, nm) = is_child→ p name (node_at ns j) c in rw same (lt, l, par, nm)

pub find_child-none :
    (p : ℕ) (name : List ℕ) (ns : List Node)
    → find_child p name ns ≡ none
    → (j : ℕ) → j < length ns
    → is_free (node_at ns j).type ≡ false
    → (node_at ns j).parent ≡ some p
    → (node_at ns j).name ≢ name
unfolding find_child is_child
find_child-none p name ns h j lt live par e =
    absurd (ground (arith, find_from-none 0 p name ns h j lt, k_streq_refl name, ==-refl p))

alloc_from-some :
    (i : ℕ) (ns : List Node) (k : ℕ)
    → alloc_from i ns ≡ some k
    → (j : ℕ) × (k ≡ i + j) × (j < length ns) × (is_free (node_at ns j).type ≡ true)
unfolding alloc_from
alloc_from-some i [] k h = absurd (ground arith)
alloc_from-some i (n ∷ ns) k h = elim (Bool-cases (is_free n.type)) [
  | inl hit ↦ (0, ground arith, omega arith, hit)
  | inr miss ↦
      let (j, e, lt, c) = alloc_from-some (i + 1) ns k (ground arith) in
      (suc j, omega arith, omega arith, c)
]

pub alloc_node-some :
    (ns : List Node) (k : ℕ)
    → alloc_node ns ≡ some k
    → (k < length ns) × (is_free (node_at ns k).type ≡ true)
unfolding alloc_node
alloc_node-some ns k h =
    let (j, e, lt, c) = alloc_from-some 0 ns k h in
    let same : k ≡ j = omega arith in rw same (lt, c)

alloc_from-none :
    (i : ℕ) (ns : List Node)
    → alloc_from i ns ≡ none
    → (j : ℕ) → j < length ns
    → is_free (node_at ns j).type ≡ false
unfolding alloc_from
alloc_from-none i [] h j lt = absurd (omega arith)
alloc_from-none i (n ∷ ns) h zero lt = ground arith
alloc_from-none i (n ∷ ns) h (suc j) lt = alloc_from-none (i + 1) ns (ground arith) j (omega arith)

take_all : (n : ℕ) (xs : List ℕ) → length xs < suc n → take n xs ≡ xs
take_all zero [] h = refl
take_all zero (x ∷ xs) h = absurd (omega arith)
take_all (suc n) [] h = refl
take_all (suc n) (x ∷ xs) h = ap (λ l. x ∷ l) (take_all n xs (omega arith))

-- A valid name is stored whole.
pub truncate_id :
    (name : List ℕ) → is_valid_name name ≡ true → k_strcpy_truncate name name_max ≡ name
unfolding is_valid_name
truncate_id name h = take_all 47 name (ground arith)
