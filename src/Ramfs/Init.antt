-- ===== src/Ramfs/Init.antt =====
-- `fs_init` of src/fs.c makes a valid tree.
use mykernel.Base.{
  ℕ, zero, suc, ◌≡◌, refl, List, [], ◌∷◌, arith, ◌==◌, if◌then◌else◌, length, set, length-set, map,
}
use mykernel.Ramfs.Node.{Node, free, Fs, max_nodes, node_at, slash}
use mykernel.Ramfs.Create.{fs_mkdir, fs_init, bare_root, as_free, as_root, as_dir, lib, bin, usr}
use mykernel.Ramfs.Table.{node_at-set}
use mykernel.Ramfs.Tree.{Live, at_root, IsValid}
use mykernel.Ramfs.Grow.{Outcome-IsValid, fs_mkdir-Outcome}
use mykernel.Ramfs.Rename.{fs_cd-IsValid}

type-freed : (ns : List Node) (j : ℕ) → (node_at (map as_free ns) j).type ≡ free
type-freed [] j = refl
type-freed (n ∷ ns) zero = refl
type-freed (n ∷ ns) (suc j) = type-freed ns j

length-freed : (ns : List Node) → length (map as_free ns) ≡ length ns
length-freed [] = refl
length-freed (n ∷ ns) = omega (arith, length-freed ns)

bare_root-IsValid : (s : Fs) → length s.nodes ≡ max_nodes → IsValid (bare_root s)
unfolding bare_root
bare_root-IsValid s h = record {
  tree = record {
    size = omega (arith, len, length-set ns 0 (as_root (node_at ns 0)));
    root = ground (arith, at 0);
    root_parent = ground (arith, at 0);
    rooted = λ i l. at_root (only i l);
    parents = λ i p l e. absurd (ground (arith, only i l, at 0));
    distinct = λ i j l m e f. ground (arith, only i l, only j m);
    named = λ i l ne. absurd (ne (only i l));
  };
  cwd_dir = ground (arith, at 0);
}
  where
    ns : List Node
    ns = map as_free s.nodes

    len : length ns ≡ max_nodes
    len = omega (arith, h, length-freed s.nodes)

    at :
        (j : ℕ)
        → node_at (set ns 0 (as_root (node_at ns 0))) j
          ≡ (if 0 == j then as_root (node_at ns 0) else node_at ns j)
    at j = node_at-set ns 0 j (as_root (node_at ns 0)) (omega (arith, len))

    only : (i : ℕ) → Live (set ns 0 (as_root (node_at ns 0))) i → i ≡ 0
    only i l = ground (arith, at i, type-freed s.nodes i)

fs_mkdir-IsValid : (name : List ℕ) (s : Fs) → IsValid s → IsValid (fs_mkdir name s).1
fs_mkdir-IsValid name s v =
    Outcome-IsValid name (as_dir s.cwd name) s (fs_mkdir name s).0 (fs_mkdir name s).1 v
      (fs_mkdir-Outcome name s v)

-- Whatever the 256 nodes hold, `fs_init` makes a valid tree of them.
pub fs_init-IsValid : (s : Fs) → length s.nodes ≡ max_nodes → IsValid (fs_init s)
unfolding fs_init
fs_init-IsValid s h =
    let v₁ = fs_mkdir-IsValid lib (bare_root s) (bare_root-IsValid s h) in
    let v₃ = fs_mkdir-IsValid usr _ (fs_mkdir-IsValid bin _ v₁) in
    (fs_cd-IsValid slash _ (fs_mkdir-IsValid lib _ (fs_cd-IsValid usr _ v₃).1)).1
