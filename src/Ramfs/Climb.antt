-- ===== src/Ramfs/Climb.antt =====
-- `fs_cwd_in_subtree` of src/fs.c ends in a tree, and tells whether a node hangs under another.
use mykernel.Base.{
  ℕ, zero, suc, ◌+◌, ◌<◌, ◌≤◌, ◌≡◌, ◌≢◌, ◌↔◌, inl, inr, refl, sym, ◌∙◌, Bool, true, false, some,
  List, arith, ◌==◌, length, length-set, set, Bool-cases, ==→eq,
}
use mathlib.Core.Path.{subst}
use mykernel.Ramfs.Node.{Node, max_nodes, root_index, node_at}
use mykernel.Ramfs.Remove.{in_subtree, fuel, no_marks}
use mykernel.Ramfs.Marks.{marked, marked-set, marks, marks-set, marks-lt}
use mykernel.Ramfs.Table.{lt_of_live}
use mykernel.Ramfs.Tree.{Live, Rooted, at_root, up, IsTree}
use mykernel.Ramfs.Collect.{Under, top, under}
use mykernel.Ramfs.Search.{marked-no_marks, length-no_marks}

-- `i` stands `d` links below the root.
pub data Depth (ns : List Node) : ℕ → ℕ → Type 0 where
  root : {i d : ℕ} → i ≡ root_index → d ≡ 0 → Depth ns i d
  link :
      {i d : ℕ} (p e : ℕ)
      → Live ns i
      → (node_at ns i).parent ≡ some p
      → d ≡ suc e
      → Depth ns p e
      → Depth ns i d

pub Depth-of : {ns : List Node} {i : ℕ} → Rooted ns i → (d : ℕ) × Depth ns i d
Depth-of (at_root e) = (0, root e refl)
Depth-of (up p l e r) = let (d, at) = Depth-of r in (suc d, link p d l e refl at)

-- `w` hangs under `r`, is not `r`, and has the parent `p`: then `p` hangs under `r`.
pub Under-parent :
    {ns : List Node} {r w p : ℕ}
    → Under ns r w
    → w ≢ r
    → (node_at ns w).parent ≡ some p
    → Under ns r p
Under-parent (top e) ne par = absurd (ne e)
Under-parent {ns} {r} (under q l e u) ne par = subst (Under ns r) (ground arith) u

module _ (ns : List Node) (t : IsTree ns) where
  pub Depth-unique : {i d e : ℕ} → Depth ns i d → Depth ns i e → d ≡ e
  Depth-unique (root e z) (root f y) = z ∙ sym y
  Depth-unique {i} (root e z) (link p d l par s at) = absurd (ground (arith, t.root_parent))
  Depth-unique {i} (link p d l par s at) (root e z) = absurd (ground (arith, t.root_parent))
  Depth-unique (link p d l par s at) (link q e m par' s' at') =
      let same : q ≡ p = ground arith in
      omega (arith, Depth-unique at (subst (λ x. Depth ns x e) same at'))

  abbrev Deeper : List Bool → ℕ → Type 0
  Deeper seen d = (j : ℕ) → marked seen j ≡ true → (e : ℕ) × Depth ns j e × (d < e)

  fresh : {i d : ℕ} (seen : List Bool) → Depth ns i d → Deeper seen d → marked seen i ≡ false
  fresh {i} seen at deep = elim (Bool-cases (marked seen i)) [
    | inr e ↦ e
    | inl e ↦ let (k, at', lt) = deep i e in absurd (omega (arith, Depth-unique at at'))
  ]

  -- The nodes on the way up are all different, so there are at most 256 of them.
  short :
      {i d : ℕ} (seen : List Bool)
      → length seen ≡ max_nodes
      → Depth ns i d
      → Deeper seen d
      → marks seen + d + 1 ≤ max_nodes
  short seen len (root e z) deep =
      omega (arith, marks-lt seen _ (omega arith) (fresh seen (root e z) deep))
  short {i} {d} seen len (link p k l par s at) deep =
      let new = fresh seen (link p k l par s at) deep in
      let lt : i < length seen = omega (arith, lt_of_live ns i l, t.size) in
      omega (
        arith,
        marks-set seen i lt new,
        short (set seen i true) (length-set seen i true ∙ len) at (λ j m.
            elim (Bool-cases (i == j)) [
              | inl here ↦ (
                suc k,
                subst (λ x. Depth ns x (suc k)) (==→eq i j here) (link p k l par refl at),
                omega arith,
              )
              | inr there ↦
                  let (e, at', lt') = deep j (ground (arith, marked-set seen i j lt)) in
                  (e, at', omega arith)
            ]),
      )

  pub Depth-bound : {i d : ℕ} → Depth ns i d → d < max_nodes
  Depth-bound at =
      omega (
        arith,
        short no_marks length-no_marks at (λ j m. absurd (ground (arith, marked-no_marks j))),
      )

  in_subtree_lem :
      (f : ℕ) {w d : ℕ} (r : ℕ)
      → Depth ns w d
      → d + 2 ≤ f
      → (b : Bool) × (in_subtree f ns (some w) r ≡ some b) × ((b ≡ true) ↔ Under ns r w)
  unfolding in_subtree
  in_subtree_lem zero r at enough = absurd (omega arith)
  in_subtree_lem (suc zero) r at enough = absurd (omega arith)
  in_subtree_lem (suc (suc f)) {w} r (root e z) enough = elim (Bool-cases (w == r)) [
    | inl here ↦ (true, rw (here, in_subtree), ((λ _. top (==→eq w r here)), λ _. refl))
    | inr there ↦ (
      false,
      rw (there, in_subtree) (ground (arith, t.root_parent)),
      ((λ q. absurd (ground arith)), λ u. absurd (outside w e there u)),
    )
  ]
    where
      outside : (w : ℕ) → w ≡ root_index → (w == r) ≡ false → Under ns r w → ⊥
      outside w e ne (top q) = ground arith
      outside w e ne (under p l par u) = ground (arith, t.root_parent)
  in_subtree_lem (suc (suc f)) {w} r (link p k l par s at) enough = elim (Bool-cases (w == r)) [
    | inl here ↦ (true, rw (here, in_subtree), ((λ _. top (==→eq w r here)), λ _. refl))
    | inr there ↦
        let (b, e, iff) = in_subtree_lem (suc f) r at (omega arith) in
        (
          b,
          rw (there, in_subtree) (rw par e),
          (
            (λ q. under p l par (iff.0 q)),
            λ u. iff.1 (Under-parent u (λ q. absurd (ground arith)) par),
          ),
        )
  ]

  -- In a tree 257 rounds are enough to climb from any node in use, and the answer is right.
  pub in_subtree-Under :
      (w r : ℕ)
      → Live ns w
      → (b : Bool) × (in_subtree fuel ns (some w) r ≡ some b) × ((b ≡ true) ↔ Under ns r w)
  in_subtree-Under w r l =
      let (d, at) = Depth-of (t.rooted w l) in
      in_subtree_lem fuel r at (omega (arith, Depth-bound at))
