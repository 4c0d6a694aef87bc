-- ===== src/Ramfs/Update.antt =====
-- A node of src/fs.c that keeps its type and its parent: new contents and new names.
use mykernel.Base.{
  ℕ, ◌≡◌, ◌≢◌, ◌⊎◌, inl, inr, sym, ◌∙◌, true, none, some, List, arith, ◌==◌, if◌then◌else◌, set,
  length-set,
}
use mykernel.Ramfs.Node.{Node, root_index, node_at, is_valid_name, find_child}
use mykernel.Ramfs.Table.{node_at-set, find_child-none, lt_of_live}
use mykernel.Ramfs.Tree.{Live, Rooted, at_root, up, IsTree}

-- The name stays, or the new name is valid and not yet that of a sibling.
abbrev pub Renames : List Node → ℕ → List ℕ → Type 0
Renames ns idx name =
    (name ≡ (node_at ns idx).name)
    ⊎ ((p : ℕ) × ((node_at ns idx).parent ≡ some p)
        × (is_valid_name name ≡ true)
        × (find_child p name ns ≡ none))

module _ (ns : List Node) (idx : ℕ) (n : Node) (t : IsTree ns) (live : Live ns idx)
    (ty : n.type ≡ (node_at ns idx).type) (par : n.parent ≡ (node_at ns idx).parent)
    (nm : Renames ns idx n.name) where
  at : (j : ℕ) → node_at (set ns idx n) j ≡ (if idx == j then n else node_at ns j)
  at j = node_at-set ns idx j n (lt_of_live ns idx live)

  pub same_type : (j : ℕ) → (node_at (set ns idx n) j).type ≡ (node_at ns j).type
  same_type j = ground (arith, at j)

  pub same_parent : (j : ℕ) → (node_at (set ns idx n) j).parent ≡ (node_at ns j).parent
  same_parent j = ground (arith, at j)

  live_before : (j : ℕ) → Live (set ns idx n) j → Live ns j
  live_before j l = ground (arith, same_type j)

  Rooted-update : {i : ℕ} → Rooted ns i → Rooted (set ns idx n) i
  Rooted-update (at_root e) = at_root e
  Rooted-update {i} (up p l e r) =
      up p (ground (arith, same_type i)) (ground (arith, same_parent i)) (Rooted-update r)

  not_taken :
      (j : ℕ)
      → j ≢ idx
      → Live ns j
      → (node_at ns j).parent ≡ (node_at ns idx).parent
      → (node_at ns j).name ≢ n.name
  not_taken j ne l e f = elim nm [
    | inl same ↦ ne (t.distinct j idx l live e (f ∙ same))
    | inr (p, at_p, valid, absent) ↦
        find_child-none p n.name ns absent j (lt_of_live ns j l) l (e ∙ at_p) f
  ]

  named_now : idx ≢ root_index → is_valid_name n.name ≡ true
  named_now ne = elim nm [
    | inl same ↦ rw same (t.named idx live ne)
    | inr (p, at_p, valid, absent) ↦ valid
  ]

  pub IsTree-update : IsTree (set ns idx n)
  IsTree-update = record {
    size = omega (arith, t.size, length-set ns idx n);
    root = same_type 0 ∙ t.root;
    root_parent = same_parent 0 ∙ t.root_parent;
    rooted = λ i l. Rooted-update (t.rooted i (live_before i l));
    parents = λ i p l e. same_type p ∙ t.parents i p (live_before i l) (sym (same_parent i) ∙ e);
    distinct = λ i j l m e f. ground (
      arith,
      at i,
      at j,
      live_before i l,
      live_before j m,
      t.distinct i j,
      not_taken i,
      not_taken j,
    );
    named = λ i l ne. ground (arith, at i, live_before i l, t.named i, named_now);
  }
