-- ===== src/Ramfs/Prune.antt =====
-- `fs_rm_subtree` of src/fs.c removes one subtree, and leaves a tree with `cwd` in it.
use mykernel.Base.{
  ℕ, ◌<◌, ◌≤◌, ◌≡◌, ◌≢◌, ◌↔◌, inl, inr, refl, sym, ◌∙◌, true, false, some, List, [], ◌∷◌, arith,
  if◌then◌else◌, length, length-set, Bool-cases,
}
use mathlib.Core.Path.{subst}
use mykernel.Ramfs.Node.{Node, root_index, node_at}
use mykernel.Ramfs.Remove.{cleared, free_all}
use mykernel.Ramfs.Marks.{has}
use mykernel.Ramfs.Table.{node_at-set, lt_of_live}
use mykernel.Ramfs.Tree.{Live, Rooted, at_root, up, IsTree}
use mykernel.Ramfs.Collect.{Under, top, under}
use mykernel.Ramfs.Climb.{Depth, root, link, Depth-of, Depth-unique}

length-free_all : (q : List ℕ) (ns : List Node) → length (free_all q ns) ≡ length ns
unfolding free_all
length-free_all [] ns = refl
length-free_all (i ∷ q) ns = length-set (free_all q ns) i cleared ∙ length-free_all q ns

node_at-free_all :
    (q : List ℕ) (ns : List Node) (j : ℕ)
    → ((i : ℕ) → has i q ≡ true → i < length ns)
    → node_at (free_all q ns) j ≡ (if has j q then cleared else node_at ns j)
unfolding free_all
node_at-free_all [] ns j h = refl
node_at-free_all (i ∷ q) ns j h =
    node_at-set (free_all q ns) i j cleared
      (omega (arith, length-free_all q ns, h i (ground arith)))
    ∙ ground (arith, node_at-free_all q ns j (λ k m. h k (ground arith)))

-- A node in use that is not the root has a parent, which leads to the root.
pub parent_of :
    {ns : List Node} {i : ℕ}
    → Rooted ns i
    → i ≢ root_index
    → (p : ℕ) × ((node_at ns i).parent ≡ some p) × Rooted ns p
parent_of (at_root e) ne = absurd (ne e)
parent_of (up p l e r) ne = (p, e, r)

module _ (ns : List Node) (t : IsTree ns) (r : ℕ) where
  -- What hangs under `r` is at least as deep as `r`.
  deeper : {j d k : ℕ} → Under ns r j → Depth ns r d → Depth ns j k → d ≤ k
  deeper {d} {k} (top e) at at' =
      omega (arith, Depth-unique ns t at (subst (λ x. Depth ns x k) e at'))
  deeper (under p l par u) at (root e z) = absurd (ground (arith, t.root_parent))
  deeper (under p l par u) at (link q m l' par' s at') =
      let same : q ≡ p = ground arith in
      omega (arith, deeper u at (subst (λ x. Depth ns x m) same at'))

  pub not-Under_parent :
      (p : ℕ) → Live ns r → (node_at ns r).parent ≡ some p → Rooted ns p → ¬ Under ns r p
  not-Under_parent p l par rp u =
      let (d, at) = Depth-of rp in absurd (omega (arith, deeper u (link p d l par refl at) at))

  not-Under_root : r ≢ root_index → ¬ Under ns r root_index
  not-Under_root ne (top e) = ne (sym e)
  not-Under_root ne (under p l par u) = ground (arith, t.root_parent)

  -- The table without the subtree.
  module _ (q : List ℕ) (iff : (j : ℕ) → (has j q ≡ true) ↔ Under ns r j)
      (lives : (j : ℕ) → has j q ≡ true → Live ns j) (ne : r ≢ root_index) where
    pub node_after :
        (j : ℕ) → node_at (free_all q ns) j ≡ (if has j q then cleared else node_at ns j)
    node_after j = node_at-free_all q ns j (λ i m. lt_of_live ns i (lives i m))

    stays : (j : ℕ) → Live (free_all q ns) j → (has j q ≡ false) × Live ns j
    stays j l = ground (arith, node_after j)

    -- A parent of what stays stays.
    pub parent_stays :
        (j p : ℕ) → has j q ≡ false → Live ns j → (node_at ns j).parent ≡ some p → has p q ≡ false
    parent_stays j p out l e = elim (Bool-cases (has p q)) [
      | inr x ↦ x
      | inl x ↦ absurd (ground (arith, (iff j).1 (under p l e ((iff p).0 x))))
    ]

    pub root_stays : has root_index q ≡ false
    root_stays = elim (Bool-cases (has root_index q)) [
      | inr x ↦ x
      | inl x ↦ absurd (not-Under_root ne ((iff root_index).0 x))
    ]

    Rooted-free_all : {j : ℕ} → Rooted ns j → has j q ≡ false → Rooted (free_all q ns) j
    Rooted-free_all (at_root e) out = at_root e
    Rooted-free_all {j} (up p l e rp) out =
        up p (ground (arith, node_after j)) (ground (arith, node_after j))
          (Rooted-free_all rp (parent_stays j p out l e))

    pub IsTree-free_all : IsTree (free_all q ns)
    IsTree-free_all = record {
      size = length-free_all q ns ∙ t.size;
      root = ground (arith, node_after 0, root_stays, t.root);
      root_parent = ground (arith, node_after 0, root_stays, t.root_parent);
      rooted = λ i l. let (out, l') = stays i l in Rooted-free_all (t.rooted i l') out;
      parents = λ i p l e.
          ground (arith, node_after i, node_after p, stays i l, t.parents i p, parent_stays i p);
      distinct = λ i j l m e f.
          ground (arith, node_after i, node_after j, stays i l, stays j m, t.distinct i j);
      named = λ i l away. ground (arith, node_after i, stays i l, t.named i);
    }
