-- ===== src/Ramfs/Rename.antt =====
-- `fs_mv`, `fs_cp` and `fs_cd` of src/fs.c on a valid tree.
use mykernel.Base.{
  ◌⊎◌, ℕ, ◌<◌, ◌≡◌, ◌≢◌, inl, inr, refl, true, false, none, some, List, arith, ◌==◌, if◌then◌else◌,
  length, set, Bool-cases, Option-cases,
}
use mykernel.Ramfs.Node.{
  Node, dir, Fs, FsResult, fs_ok, not_found, is_a_directory, already_exists, invalid_name, name_max,
  node_at, is_free, is_valid_name, find_child, k_strcpy_truncate, is_file,
}
use mykernel.Ramfs.Create.{fs_mv, fs_cp, fs_cd, parent_or, as_file, add_node}
use mykernel.Ramfs.Table.{node_at-set, find_child-some, truncate_id}
use mykernel.Ramfs.Tree.{IsTree, IsValid, find_child_iff}
use mykernel.Ramfs.Update.{Renames, IsTree-update}
use mykernel.Ramfs.Grow.{Outcome, Outcome-IsValid, add_node-Outcome}

abbrev renamed : List ℕ → Node → Node
renamed dst n = record n { name = k_strcpy_truncate dst name_max }

-- What a rename leaves behind: the node that was `src` is now `dst`, with its type and contents,
-- nothing is called `src` any more, and no other node has changed.
pub record Moved (src dst : List ℕ) (s s' : Fs) : Type 0 where
  pub index : ℕ
  pub was : find_child s.cwd src s.nodes ≡ some index
  pub was_absent : find_child s.cwd dst s.nodes ≡ none
  pub now : find_child s.cwd dst s'.nodes ≡ some index
  pub gone : find_child s.cwd src s'.nodes ≡ none
  pub holds : node_at s'.nodes index ≡ record (node_at s.nodes index) { name = dst }
  pub others : (j : ℕ) → j ≢ index → node_at s'.nodes j ≡ node_at s.nodes j
  pub valid : IsValid s'

module _ (src dst : List ℕ) (s : Fs) (v : IsValid s) (i : ℕ)
    (was : find_child s.cwd src s.nodes ≡ some i) (ok_name : is_valid_name dst ≡ true)
    (absent : find_child s.cwd dst s.nodes ≡ none) where
  old :
      (i < length s.nodes)
      × (is_free (node_at s.nodes i).type ≡ false)
      × ((node_at s.nodes i).parent ≡ some s.cwd)
      × ((node_at s.nodes i).name ≡ src)
  old = find_child-some s.cwd src s.nodes i was

  abbrev nodes' : List Node
  nodes' = set s.nodes i (renamed dst (node_at s.nodes i))

  at :
      (j : ℕ)
      → node_at nodes' j ≡ (if i == j then renamed dst (node_at s.nodes i) else node_at s.nodes j)
  at j = node_at-set s.nodes i j (renamed dst (node_at s.nodes i)) old.0

  name' : (renamed dst (node_at s.nodes i)).name ≡ dst
  name' = truncate_id dst ok_name

  renames : Renames s.nodes i (renamed dst (node_at s.nodes i)).name
  renames = inr (s.cwd, old.2, rw name' ok_name, rw name' absent)

  differ : src ≢ dst
  differ e = absurd (ground arith)

  tree' : IsTree nodes'
  tree' = IsTree-update s.nodes i (renamed dst (node_at s.nodes i)) v.tree old.1 refl refl renames

  moved : Moved src dst s (record s { nodes = nodes' })
  moved = record {
    index = i;
    was = was;
    was_absent = absent;
    now =
        (find_child_iff nodes' s.cwd dst i tree').1
          (ground (arith, at i, old), ground (arith, at i, old), ground (arith, at i, name'));
    gone = elim (Option-cases (find_child s.cwd src nodes')) [
      | inr e ↦ e
      | inl (k, e) ↦ absurd (
          ground (
            arith,
            find_child-some s.cwd src nodes' k e,
            at k,
            old,
            name',
            v.tree.distinct k i,
            differ,
          ))
    ];
    holds = ground (arith, at i, name');
    others = λ j ne. ground (arith, at j);
    valid = record { tree = tree'; cwd_dir = ground (arith, at s.cwd, v.cwd_dir) };
  }

-- Each result of `fs_mv` with what it says of the state before and after.
abbrev pub MvOutcome : List ℕ → List ℕ → Fs → FsResult → Fs → Type 0
MvOutcome src dst s fs_ok s' = Moved src dst s s'
MvOutcome src dst s not_found s' = (find_child s.cwd src s.nodes ≡ none) × (s' ≡ s)
MvOutcome src dst s invalid_name s' = (is_valid_name dst ≡ false) × (s' ≡ s)
MvOutcome src dst s already_exists s' =
    ((i : ℕ) × (find_child s.cwd dst s.nodes ≡ some i)) × (s' ≡ s)
MvOutcome src dst s _ s' = ⊥

-- `fs_mv` on a valid tree renames the child `src` of the current directory, which is then found as
-- `dst` only, changes no other node and keeps the tree valid; or it returns the error that applies
-- and changes nothing.
pub fs_mv-MvOutcome :
    (src dst : List ℕ) (s : Fs)
    → IsValid s
    → MvOutcome src dst s (fs_mv src dst s).0 (fs_mv src dst s).1
unfolding fs_mv
fs_mv-MvOutcome src dst s v = elim (Option-cases (find_child s.cwd src s.nodes)) [
  | inr e ↦ rw (e, fs_mv) (e, refl)
  | inl (i, was) ↦ elim (Bool-cases (is_valid_name dst)) [
    | inr bad ↦ rw (was, bad, fs_mv) (bad, refl)
    | inl good ↦ elim (Option-cases (find_child s.cwd dst s.nodes)) [
      | inl (j, taken) ↦ rw (was, good, taken, fs_mv) ((j, taken), refl)
      | inr absent ↦ rw (was, good, absent, fs_mv) (moved src dst s v i was good absent)
    ]
  ]
]

-- What `fs_cp` returns and leaves behind: no such source, a source that is no file, or what adding
-- a file `dst` with the contents of the source comes to.
abbrev pub CpOutcome : List ℕ → List ℕ → Fs → FsResult → Fs → Type 0
CpOutcome src dst s r s' =
    ((find_child s.cwd src s.nodes ≡ none) × (r ≡ not_found) × (s' ≡ s))
    ⊎ ((i : ℕ) × (find_child s.cwd src s.nodes ≡ some i)
        × (((is_file (node_at s.nodes i).type ≡ false) × (r ≡ is_a_directory) × (s' ≡ s))
            ⊎ ((is_file (node_at s.nodes i).type ≡ true)
                × Outcome dst (as_file s.cwd dst (node_at s.nodes i).content) s r s')))

-- `fs_cp` on a valid tree adds a file `dst` with the contents of the file `src`, or returns an
-- error that applies and changes nothing. The tree stays valid.
pub fs_cp-CpOutcome :
    (src dst : List ℕ) (s : Fs)
    → IsValid s
    → CpOutcome src dst s (fs_cp src dst s).0 (fs_cp src dst s).1 × IsValid (fs_cp src dst s).1
unfolding fs_cp
fs_cp-CpOutcome src dst s v = elim (Option-cases (find_child s.cwd src s.nodes)) [
  | inr e ↦ rw (e, fs_cp) (inl (refl, refl, refl), v)
  | inl (i, e) ↦ elim (Bool-cases (is_file (node_at s.nodes i).type)) [
    | inr other ↦ rw (e, other, fs_cp) (inr (i, refl, inl (other, refl, refl)), v)
    | inl plain ↦
        let fill = as_file s.cwd dst (node_at s.nodes i).content in
        let out = add_node-Outcome fill dst s v (λ n. refl) (λ n. refl) (λ n. refl) in
        rw (e, plain, fs_cp)
          (
            inr (i, refl, inr (plain, out)),
            Outcome-IsValid dst fill s (add_node fill dst s).0 (add_node fill dst s).1 v out,
          )
  ]
]

nodes-fs_cd : (name : List ℕ) (s : Fs) → (fs_cd name s).1.nodes ≡ s.nodes
unfolding fs_cd
nodes-fs_cd name s = elim (Option-cases (find_child s.cwd name s.nodes)) [
  | inl (i, e) ↦ ground arith
  | inr e ↦ ground arith
]

cwd-fs_cd : (name : List ℕ) (s : Fs) → IsValid s → (node_at s.nodes (fs_cd name s).1.cwd).type ≡ dir
unfolding fs_cd parent_or
cwd-fs_cd name s v = elim (Option-cases (find_child s.cwd name s.nodes)) [
  | inr e ↦ ground (arith, v.cwd_dir, v.tree.root, up_dir)
  | inl (i, e) ↦ ground (arith, v.cwd_dir, v.tree.root, up_dir)
]
  where
    up_dir : (node_at s.nodes (parent_or (node_at s.nodes s.cwd).parent s.cwd)).type ≡ dir
    up_dir = elim (Option-cases (node_at s.nodes s.cwd).parent) [
      | inl (p, e) ↦ rw (e, parent_or) (v.tree.parents s.cwd p (ground (arith, v.cwd_dir)) e)
      | inr e ↦ rw (e, parent_or) v.cwd_dir
    ]

-- `fs_cd` on a valid tree changes no node, and `cwd` is a directory in use afterwards.
pub fs_cd-IsValid :
    (name : List ℕ) (s : Fs)
    → IsValid s
    → ((fs_cd name s).1.nodes ≡ s.nodes) × IsValid (fs_cd name s).1
fs_cd-IsValid name s v = (
  nodes-fs_cd name s,
  record {
    tree = rw (nodes-fs_cd name s) v.tree;
    cwd_dir = rw (nodes-fs_cd name s) (cwd-fs_cd name s v);
  },
)
