-- ===== src/Ramfs/Tree.antt =====
-- The node table of src/fs.c is a tree: every node in use hangs under the root, its parent is a
-- directory, and siblings have different valid names. A new node keeps it so.
use mykernel.Base.{
  ℕ, ◌<◌, ◌≡◌, ◌≢◌, ◌↔◌, inl, inr, true, false, none, some, List, arith, ◌==◌, if◌then◌else◌,
  length, set, length-set, Bool-cases, Option-cases,
}
use mykernel.Ramfs.Node.{
  Node, dir, Fs, max_nodes, root_index, node_at, is_free, is_valid_name, find_child,
}
use mykernel.Ramfs.Table.{node_at-set, find_child-some, find_child-none, lt_of_live}

abbrev pub Live : List Node → ℕ → Type 0
Live ns i = is_free (node_at ns i).type ≡ false

-- The parent links lead from `i` to the root, through nodes in use.
pub data Rooted (ns : List Node) : ℕ → Type 0 where
  at_root : {i : ℕ} → i ≡ root_index → Rooted ns i
  up : {i : ℕ} (p : ℕ) → Live ns i → (node_at ns i).parent ≡ some p → Rooted ns p → Rooted ns i

pub record IsTree (ns : List Node) : Type 0 where
  pub size : length ns ≡ max_nodes
  pub root : (node_at ns root_index).type ≡ dir
  pub root_parent : (node_at ns root_index).parent ≡ none
  pub rooted : (i : ℕ) → Live ns i → Rooted ns i
  pub parents : (i p : ℕ) → Live ns i → (node_at ns i).parent ≡ some p → (node_at ns p).type ≡ dir
  pub distinct :
      (i j : ℕ)
      → Live ns i
      → Live ns j
      → (node_at ns i).parent ≡ (node_at ns j).parent
      → (node_at ns i).name ≡ (node_at ns j).name
      → i ≡ j
  pub named : (i : ℕ) → Live ns i → i ≢ root_index → is_valid_name (node_at ns i).name ≡ true

pub record IsValid (s : Fs) : Type 0 where
  pub tree : IsTree s.nodes
  pub cwd_dir : (node_at s.nodes s.cwd).type ≡ dir

-- A path to the root survives a write to a free slot.
Rooted-set :
    (ns : List Node) (idx : ℕ) (n : Node) {i : ℕ}
    → idx < length ns
    → is_free (node_at ns idx).type ≡ true
    → Rooted ns i
    → Rooted (set ns idx n) i
Rooted-set ns idx n lt fr (at_root e) = at_root e
Rooted-set ns idx n {i} lt fr (up p l par r) =
    let at = node_at-set ns idx i n lt in
    up p (ground (arith, at)) (ground (arith, at)) (Rooted-set ns idx n lt fr r)

module _ (ns : List Node) (idx p : ℕ) (n : Node) (t : IsTree ns) (lt : idx < length ns)
    (fr : is_free (node_at ns idx).type ≡ true) (used : is_free n.type ≡ false)
    (par : n.parent ≡ some p) (under : (node_at ns p).type ≡ dir)
    (valid : is_valid_name n.name ≡ true) (new : find_child p n.name ns ≡ none) where
  at : (j : ℕ) → node_at (set ns idx n) j ≡ (if idx == j then n else node_at ns j)
  at j = node_at-set ns idx j n lt

  not_taken : (j : ℕ) → Live ns j → (node_at ns j).parent ≡ some p → (node_at ns j).name ≢ n.name
  not_taken j l e = find_child-none p n.name ns new j (lt_of_live ns j l) l e

  pub IsTree-set : IsTree (set ns idx n)
  IsTree-set = record {
    size = omega (arith, t.size, length-set ns idx n);
    root = ground (arith, at 0, t.root);
    root_parent = ground (arith, at 0, t.root, t.root_parent);
    rooted = λ i l. elim (Bool-cases (idx == i)) [
      | inl here ↦
          up p l (ground (arith, at i)) (Rooted-set ns idx n lt fr (t.rooted p (ground arith)))
      | inr there ↦ Rooted-set ns idx n lt fr (t.rooted i (ground (arith, at i)))
    ];
    parents = λ i q l e. ground (arith, at i, at q, t.parents i q);
    distinct = λ i j l m e f. ground (arith, at i, at j, t.distinct i j, not_taken i, not_taken j);
    named = λ i l ne. ground (arith, at i, t.named i);
  }

-- In a tree the search finds a node exactly when it has that parent and that name.
pub find_child_iff :
    (ns : List Node) (p : ℕ) (name : List ℕ) (i : ℕ)
    → IsTree ns
    → (find_child p name ns ≡ some i)
      ↔ (Live ns i × ((node_at ns i).parent ≡ some p) × ((node_at ns i).name ≡ name))
find_child_iff ns p name i t = (
  (λ e. let (lt, l, par, nm) = find_child-some p name ns i e in (l, par, nm)),
  λ (l, par, nm). elim (Option-cases (find_child p name ns)) [
    | inl (k, e) ↦
        let (lt, l', par', nm') = find_child-some p name ns k e in
        ground (arith, t.distinct i k l l')
    | inr e ↦ absurd (find_child-none p name ns e i (lt_of_live ns i l) l par nm)
  ],
)
