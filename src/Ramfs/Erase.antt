-- ===== src/Ramfs/Erase.antt =====
-- `fs_rm_subtree`, `fs_rm` and `fs_rm_rf` of src/fs.c on a valid tree.
use mykernel.Base.{
  ℕ, zero, suc, ◌≡◌, ◌≢◌, ◌↔◌, inl, inr, refl, ap, ◌∙◌, Bool, true, false, ◌&&◌, ◌||◌, not, none,
  some, List, [], ◌∷◌, arith, leb, if◌then◌else◌, Bool-cases, Option-cases, ne→==, ==-refl,
}
use mathlib.Core.Path.{subst}
use mykernel.Ramfs.Node.{
  Node, dir, Fs, FsResult, fs_ok, not_found, dir_not_empty, invalid_name, max_nodes, root_index,
  node_at, is_free, is_dir, is_empty, parent_is, k_streq, slash, find_child,
}
use mykernel.Ramfs.Remove.{
  cleared, free_all, finish, fs_rm_subtree, parent_or_root, has_child, fs_rm, fs_rm_rf,
}
use mykernel.Ramfs.Marks.{has}
use mykernel.Ramfs.Table.{lt_of_live, find_child-some}
use mykernel.Ramfs.Tree.{Live, IsValid}
use mykernel.Ramfs.Collect.{Under, top, under, parent_is→}
use mykernel.Ramfs.Search.{bfs-Under}
use mykernel.Ramfs.Climb.{in_subtree-Under}
use mykernel.Ramfs.Prune.{parent_of, not-Under_parent, IsTree-free_all, node_after}

-- The subtree of `r` is gone and nothing else; `cwd` has moved to the parent of `r` if it was in
-- the subtree.
pub record Removed (r : ℕ) (s s' : Fs) : Type 0 where
  pub gone : (j : ℕ) → Under s.nodes r j → node_at s'.nodes j ≡ cleared
  pub kept : (j : ℕ) → ¬ Under s.nodes r j → node_at s'.nodes j ≡ node_at s.nodes j
  pub moved : Under s.nodes r s.cwd → some s'.cwd ≡ (node_at s.nodes r).parent
  pub stayed : ¬ Under s.nodes r s.cwd → s'.cwd ≡ s.cwd
  pub valid : IsValid s'

module _ (r : ℕ) (s : Fs) (v : IsValid s) (l : Live s.nodes r) (ne : r ≢ root_index) where
  module _ (q : List ℕ) (iff : (j : ℕ) → (has j q ≡ true) ↔ Under s.nodes r j)
      (lives : (j : ℕ) → has j q ≡ true → Live s.nodes j) (p : ℕ)
      (par : (node_at s.nodes r).parent ≡ some p) (out : has p q ≡ false) where
    abbrev after : Bool → Fs
    after inside = record s {
      nodes = free_all q s.nodes;
      cwd = if inside then parent_or_root (node_at s.nodes r).parent else s.cwd;
    }

    at : (j : ℕ) → node_at (free_all q s.nodes) j ≡ (if has j q then cleared else node_at s.nodes j)
    at j = node_after s.nodes v.tree r q iff lives ne j

    after-Removed : (b : Bool) → ((b ≡ true) ↔ Under s.nodes r s.cwd) → Removed r s (after b)
    after-Removed b inside = record {
      gone = λ j u. ground (arith, at j, (iff j).1 u);
      kept = λ j no_under. elim (Bool-cases (has j q)) [
        | inl h ↦ absurd (no_under ((iff j).0 h))
        | inr h ↦ ground (arith, at j)
      ];
      moved = λ u. ground (arith, inside.1 u);
      stayed = λ no_under. elim (Bool-cases b) [
        | inl h ↦ absurd (no_under (inside.0 h))
        | inr h ↦ ground arith
      ];
      valid = record {
        tree = IsTree-free_all s.nodes v.tree r q iff lives ne;
        cwd_dir = elim (Bool-cases b) [
          | inl h ↦
              let parent_dir : (node_at s.nodes p).type ≡ dir = v.tree.parents r p l par in
              ground (arith, at p)
          | inr h ↦ elim (Bool-cases (has s.cwd q)) [
            | inl m ↦ absurd (ground (arith, inside.1 ((iff s.cwd).0 m)))
            | inr m ↦ ground (arith, at s.cwd, v.cwd_dir)
          ]
        ];
      };
    }

  -- On a valid tree `fs_rm_subtree` at a node in use that is not the root always ends and succeeds. It clears the
  -- node and all that hangs under it, changes no other node, and moves `cwd` out of the way.
  pub fs_rm_subtree-Removed : (s' : Fs) × (fs_rm_subtree r s ≡ some (fs_ok, s')) × Removed r s s'
  unfolding fs_rm_subtree finish
  fs_rm_subtree-Removed =
      let (q, e, iff, lives) = bfs-Under s.nodes r v.tree l in
      let (p, par, rp) = parent_of (v.tree.rooted r l) ne in
      let (b, walk, inside) = in_subtree-Under s.nodes v.tree s.cwd r (ground (arith, v.cwd_dir)) in
      let small : leb max_nodes r ≡ false = ground (arith, lt_of_live s.nodes r l, v.tree.size) in
      let out : has p q ≡ false = elim (Bool-cases (has p q)) [
        | inr x ↦ x
        | inl x ↦ absurd (not-Under_parent s.nodes v.tree r p l par rp ((iff p).0 x))
      ] in
      (
        after q iff lives p par out b,
        rw (small, l, ne→== r root_index ne, e, walk, finish),
        after-Removed q iff lives p par out b inside,
      )

has_child-true :
    (idx : ℕ) (ns : List Node)
    → has_child idx ns ≡ true
    → (j : ℕ) × Live ns j × ((node_at ns j).parent ≡ some idx)
unfolding has_child
has_child-true idx [] h = absurd (ground arith)
has_child-true idx (n ∷ ns) h = elim (Bool-cases (not (is_free n.type) && parent_is n.parent idx)) [
  | inl here ↦ (0, ground arith, parent_is→ n.parent idx (ground arith))
  | inr there ↦ let (j, l, e) = has_child-true idx ns (ground arith) in (suc j, l, e)
]

has_child-false :
    (idx : ℕ) (ns : List Node)
    → has_child idx ns ≡ false
    → (j : ℕ) → Live ns j
    → (node_at ns j).parent ≢ some idx
unfolding has_child
has_child-false idx [] h j l e = ground arith
has_child-false idx (n ∷ ns) h zero l e = ground (arith, ==-refl idx)
has_child-false idx (n ∷ ns) h (suc j) l e = has_child-false idx ns (ground arith) j l e

abbrev bad : List ℕ → Bool
bad name = is_empty name || k_streq name slash

-- Each result of `fs_rm_rf` with what it says of the state before and after.
abbrev pub RmOutcome : List ℕ → Fs → FsResult → Fs → Type 0
RmOutcome name s fs_ok s' = (i : ℕ) × (find_child s.cwd name s.nodes ≡ some i) × Removed i s s'
RmOutcome name s not_found s' = (find_child s.cwd name s.nodes ≡ none) × (s' ≡ s)
RmOutcome name s invalid_name s' = (bad name ≡ true) × (s' ≡ s)
RmOutcome name s dir_not_empty s' =
    (i j : ℕ) × (find_child s.cwd name s.nodes ≡ some i)
    × Live s.nodes j
    × ((node_at s.nodes j).parent ≡ some i)
    × (s' ≡ s)
RmOutcome name s _ s' = ⊥

module _ (name : List ℕ) (s : Fs) (v : IsValid s) where
  remove_found :
      (i : ℕ)
      → find_child s.cwd name s.nodes ≡ some i
      → (s' : Fs) × (fs_rm_subtree i s ≡ some (fs_ok, s')) × Removed i s s'
  remove_found i e =
      let (lt, l, par, nm) = find_child-some s.cwd name s.nodes i e in
      fs_rm_subtree-Removed i s v l (λ z. absurd (ground (arith, v.tree.root_parent)))

  -- `fs_rm_rf` on a valid tree always returns: it removes the subtree of the child `name` of the
  -- current directory, or returns the error that applies and changes nothing.
  pub fs_rm_rf-RmOutcome :
      (r : FsResult) × (s' : Fs) × (fs_rm_rf name s ≡ some (r, s')) × RmOutcome name s r s'
  unfolding fs_rm_rf
  fs_rm_rf-RmOutcome = elim (Bool-cases (bad name)) [
    | inl b ↦ (invalid_name, s, rw (b, fs_rm_rf), (b, refl))
    | inr g ↦ elim (Option-cases (find_child s.cwd name s.nodes)) [
      | inr e ↦ (not_found, s, rw (g, e, fs_rm_rf), (e, refl))
      | inl (i, e) ↦
          let (s', run, removed) = remove_found i e in
          (fs_ok, s', rw (g, e, fs_rm_rf) run, (i, e, removed))
    ]
  ]

  -- `fs_rm` on a valid tree always returns: it removes the child `name`, or returns the error that
  -- applies and changes nothing. It refuses a directory under which something stands, and where it
  -- succeeds no other node was under the removed one.
  pub fs_rm-RmOutcome :
      (r : FsResult) × (s' : Fs) × (fs_rm name s ≡ some (r, s'))
      × RmOutcome name s r s'
      × ((i : ℕ)
          → r ≡ fs_ok
          → find_child s.cwd name s.nodes ≡ some i
          → (j : ℕ) → Under s.nodes i j
          → j ≡ i)
  unfolding fs_rm
  fs_rm-RmOutcome = elim (Bool-cases (bad name)) [
    | inl b ↦ (invalid_name, s, rw (b, fs_rm), (b, refl), λ i no e. absurd (ground arith))
    | inr g ↦ elim (Option-cases (find_child s.cwd name s.nodes)) [
      | inr e ↦ (not_found, s, rw (g, e, fs_rm), (e, refl), λ i no. absurd (ground arith))
      | inl (i, e) ↦ elim (Bool-cases (is_dir (node_at s.nodes i).type && has_child i s.nodes)) [
        | inl children ↦
            let (j, l, par) = has_child-true i s.nodes (ground arith) in
            (
              dir_not_empty,
              s,
              rw (g, e, children, fs_rm),
              (i, j, e, l, par, refl),
              λ k no. absurd (ground arith),
            )
        | inr alone ↦
            let (s', run, removed) = remove_found i e in
            (
              fs_ok,
              s',
              rw (g, e, alone, fs_rm) run,
              (i, e, removed),
              λ k yes_ok f j u.
                  only i alone j (subst (λ x. Under s.nodes x j) (ground arith) u) ∙ ground arith,
            )
      ]
    ]
  ]
    where
      childless :
          (i : ℕ)
          → (is_dir (node_at s.nodes i).type && has_child i s.nodes) ≡ false
          → (j : ℕ) → Live s.nodes j
          → (node_at s.nodes j).parent ≢ some i
      childless i alone j l par = elim (Bool-cases (has_child i s.nodes)) [
        | inl some_child ↦ absurd (ground (arith, v.tree.parents j i l par))
        | inr h ↦ has_child-false i s.nodes h j l par
      ]

      only :
          (i : ℕ)
          → (is_dir (node_at s.nodes i).type && has_child i s.nodes) ≡ false
          → (j : ℕ) → Under s.nodes i j
          → j ≡ i
      only i alone j (top q) = q
      only i alone j (under p l par u) =
          absurd (childless i alone j l (par ∙ ap some (only i alone p u)))
