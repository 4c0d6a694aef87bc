-- ===== src/Ramfs/Grow.antt =====
-- `fs_mkdir`, `fs_touch`, `fs_cp`, `fs_mv` and `fs_cd` of src/fs.c keep the tree.
use mykernel.Base.{
  ℕ, ◌<◌, ◌≡◌, ◌≢◌, inl, inr, refl, sym, ◌∙◌, true, false, none, some, List, [], arith, length, set,
  Bool-cases, Option-cases,
}
use mathlib.Core.Path.{subst}
use mykernel.Ramfs.Node.{
  Node, Fs, FsResult, fs_ok, no_space, already_exists, invalid_name, name_max, node_at, is_free,
  is_valid_name, find_child, alloc_node, k_strcpy_truncate,
}
use mykernel.Ramfs.Create.{add_node, as_dir, as_file, fs_mkdir, fs_touch}
use mykernel.Ramfs.Table.{node_at-set, alloc_node-some, truncate_id}
use mykernel.Ramfs.Tree.{IsTree, IsValid, IsTree-set, find_child_iff}

-- What a call that makes the node `name` leaves behind: the node `i`, free before, is now the
-- child `name` of the current directory, and no other node has changed.
pub record Added (name : List ℕ) (node : Node) (s s' : Fs) : Type 0 where
  pub index : ℕ
  pub was_free : is_free (node_at s.nodes index).type ≡ true
  pub was_absent : find_child s.cwd name s.nodes ≡ none
  pub found : find_child s.cwd name s'.nodes ≡ some index
  pub holds : node_at s'.nodes index ≡ node
  pub others : (j : ℕ) → j ≢ index → node_at s'.nodes j ≡ node_at s.nodes j
  pub same_cwd : s'.cwd ≡ s.cwd
  pub valid : IsValid s'

-- Each result with what it says of the state before and after.
abbrev pub Outcome : List ℕ → (Node → Node) → Fs → FsResult → Fs → Type 0
Outcome name fill s fs_ok s' = (n : Node) × Added name (fill n) s s'
Outcome name fill s invalid_name s' = (is_valid_name name ≡ false) × (s' ≡ s)
Outcome name fill s already_exists s' =
    (is_valid_name name ≡ true) × ((i : ℕ) × (find_child s.cwd name s.nodes ≡ some i)) × (s' ≡ s)
Outcome name fill s no_space s' =
    (is_valid_name name ≡ true)
    × (find_child s.cwd name s.nodes ≡ none)
    × (alloc_node s.nodes ≡ none)
    × (s' ≡ s)
Outcome name fill s _ s' = ⊥

module _ (fill : Node → Node) (name : List ℕ) (s : Fs) (v : IsValid s)
    (used : (n : Node) → is_free (fill n).type ≡ false)
    (par : (n : Node) → (fill n).parent ≡ some s.cwd)
    (nm : (n : Node) → (fill n).name ≡ k_strcpy_truncate name name_max) where
  module _ (idx : ℕ) (valid : is_valid_name name ≡ true)
      (absent : find_child s.cwd name s.nodes ≡ none) (room : alloc_node s.nodes ≡ some idx) where
    new_node : Node
    new_node = fill (node_at s.nodes idx)

    new_name : new_node.name ≡ name
    unfolding new_node
    new_name = nm (node_at s.nodes idx) ∙ truncate_id name valid

    slot : (idx < length s.nodes) × (is_free (node_at s.nodes idx).type ≡ true)
    slot = alloc_node-some s.nodes idx room

    tree' : IsTree (set s.nodes idx new_node)
    unfolding new_node
    tree' =
        IsTree-set s.nodes idx s.cwd new_node v.tree slot.0 slot.1 (used (node_at s.nodes idx))
          (par (node_at s.nodes idx)) v.cwd_dir (rw new_name valid) (rw new_name absent)

    added : Added name new_node s (record s { nodes = set s.nodes idx new_node })
    unfolding new_node
    added =
        let at = λ (j : ℕ). node_at-set s.nodes idx j new_node slot.0 in
        record {
          index = idx;
          was_free = slot.1;
          was_absent = absent;
          found = (find_child_iff (set s.nodes idx new_node) s.cwd name idx tree').1 (
            ground (arith, at idx, used (node_at s.nodes idx)),
            ground (arith, at idx, par (node_at s.nodes idx)),
            ground (arith, at idx, new_name),
          );
          holds = ground (arith, at idx);
          others = λ j ne. ground (arith, at j);
          same_cwd = refl;
          valid = record { tree = tree'; cwd_dir = ground (arith, at s.cwd, v.cwd_dir, slot.1) };
        }

  pub add_node-Outcome : Outcome name fill s (add_node fill name s).0 (add_node fill name s).1
  unfolding add_node new_node
  add_node-Outcome = elim (Bool-cases (is_valid_name name)) [
    | inr invalid ↦ rw invalid (invalid, refl)
    | inl valid ↦ elim (Option-cases (find_child s.cwd name s.nodes)) [
      | inl (i, taken) ↦ rw (valid, taken) (valid, (i, taken), refl)
      | inr absent ↦ elim (Option-cases (alloc_node s.nodes)) [
        | inr full ↦ rw (valid, absent, full) (valid, absent, full, refl)
        | inl (idx, room) ↦
            rw (valid, absent, room) (node_at s.nodes idx, added idx valid absent room)
      ]
    ]
  ]

pub fs_mkdir-Outcome :
    (name : List ℕ) (s : Fs)
    → IsValid s
    → Outcome name (as_dir s.cwd name) s (fs_mkdir name s).0 (fs_mkdir name s).1
unfolding fs_mkdir
fs_mkdir-Outcome name s v =
    add_node-Outcome (as_dir s.cwd name) name s v (λ n. refl) (λ n. refl) (λ n. refl)

-- `fs_touch` on a valid tree makes a free node the child `name` of the current directory, an empty
-- file, and the tree stays valid; or it returns the error that applies and changes nothing.
pub fs_touch-Outcome :
    (name : List ℕ) (s : Fs)
    → IsValid s
    → Outcome name (as_file s.cwd name []) s (fs_touch name s).0 (fs_touch name s).1
unfolding fs_touch
fs_touch-Outcome name s v =
    add_node-Outcome (as_file s.cwd name []) name s v (λ n. refl) (λ n. refl) (λ n. refl)

-- Whatever it returns, such a call keeps the tree.
pub Outcome-IsValid :
    (name : List ℕ) (fill : Node → Node) (s : Fs) (r : FsResult) (s' : Fs)
    → IsValid s
    → Outcome name fill s r s'
    → IsValid s'
Outcome-IsValid name fill s fs_ok s' v (n, a) = a.valid
Outcome-IsValid name fill s invalid_name s' v o = subst IsValid (sym o.1) v
Outcome-IsValid name fill s already_exists s' v o = subst IsValid (sym o.2) v
Outcome-IsValid name fill s no_space s' v o = subst IsValid (sym o.3) v
Outcome-IsValid name fill s _ s' v o = absurd o
