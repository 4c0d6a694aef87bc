-- ===== src/Ramfs/Create.antt =====
-- `fs_mkdir`, `fs_touch`, `fs_cp`, `fs_mv` and `fs_init` of src/fs.c.
use mykernel.Base.{ℕ, not, Option, none, some, List, [], ◌∷◌, if◌then◌else◌, set, map}
use mykernel.Ramfs.Node.{
  FsResult, fs_ok, not_found, already_exists, not_a_directory, is_a_directory, no_space,
  invalid_name, Node, free, dir, file, Fs, name_max, root_index, node_at, is_file, is_dir, k_streq,
  k_strcpy_truncate, find_child, alloc_node, is_valid_name, dot, dot_dot, slash,
}

-- The shape that `fs_mkdir`, `fs_touch` and `fs_cp` share: `fill` writes the fields of the new
-- node.
unfoldable pub add_node : (Node → Node) → List ℕ → Fs → FsResult × Fs
add_node fill name s =
    if not (is_valid_name name) then (invalid_name, s) else elim (find_child s.cwd name s.nodes) [
      | some _ ↦ (already_exists, s)
      | none ↦ elim (alloc_node s.nodes) [
        | none ↦ (no_space, s)
        | some idx ↦ (fs_ok, record s { nodes = set s.nodes idx (fill (node_at s.nodes idx)) })
      ]
    ]

abbrev pub as_dir : ℕ → List ℕ → Node → Node
as_dir cwd name n = record n {
  type = dir;
  name = k_strcpy_truncate name name_max;
  parent = some cwd;
}

abbrev pub as_file : ℕ → List ℕ → List ℕ → Node → Node
as_file cwd name content n = record n {
  type = file;
  name = k_strcpy_truncate name name_max;
  parent = some cwd;
  content = content;
}

unfoldable pub fs_mkdir : List ℕ → Fs → FsResult × Fs
fs_mkdir name s = add_node (as_dir s.cwd name) name s

unfoldable pub fs_touch : List ℕ → Fs → FsResult × Fs
fs_touch name s = add_node (as_file s.cwd name []) name s

unfoldable pub fs_cp : List ℕ → List ℕ → Fs → FsResult × Fs
fs_cp src dst s = elim (find_child s.cwd src s.nodes) [
  | none ↦ (not_found, s)
  | some sidx ↦
      if not (is_file (node_at s.nodes sidx).type)
      then (is_a_directory, s)
      else add_node (as_file s.cwd dst (node_at s.nodes sidx).content) dst s
]

unfoldable pub fs_mv : List ℕ → List ℕ → Fs → FsResult × Fs
fs_mv src dst s = elim (find_child s.cwd src s.nodes) [
  | none ↦ (not_found, s)
  | some sidx ↦
      if not (is_valid_name dst) then (invalid_name, s) else elim (find_child s.cwd dst s.nodes) [
        | some _ ↦ (already_exists, s)
        | none ↦ (
          fs_ok,
          record s {
            nodes =
                set s.nodes sidx
                  (record (node_at s.nodes sidx) { name = k_strcpy_truncate dst name_max });
          },
        )
      ]
]

-- `cwd` moves up, unless it is the root.
unfoldable pub parent_or : Option ℕ → ℕ → ℕ
parent_or none cwd = cwd
parent_or (some p) cwd = p

unfoldable pub fs_cd : List ℕ → Fs → FsResult × Fs
unfolding parent_or
fs_cd name s =
    if k_streq name dot
    then (fs_ok, s)
    else if k_streq name dot_dot
    then (fs_ok, record s { cwd = parent_or (node_at s.nodes s.cwd).parent s.cwd })
    else if k_streq name slash
    then (fs_ok, record s { cwd = root_index })
    else elim (find_child s.cwd name s.nodes) [
      | none ↦ (not_found, s)
      | some idx ↦
          if not (is_dir (node_at s.nodes idx).type)
          then (not_a_directory, s)
          else (fs_ok, record s { cwd = idx })
    ]

abbrev pub lib : List ℕ
lib = b'l' ∷ b'i' ∷ b'b' ∷ []

abbrev pub bin : List ℕ
bin = b'b' ∷ b'i' ∷ b'n' ∷ []

abbrev pub usr : List ℕ
usr = b'u' ∷ b's' ∷ b'r' ∷ []

abbrev pub as_free : Node → Node
as_free n = record n { type = free }

abbrev pub as_root : Node → Node
as_root n = record n { type = dir; name = slash; parent = none }

-- The table before the first `fs_mkdir` of `fs_init`.
unfoldable pub bare_root : Fs → Fs
bare_root s =
    let ns = map as_free s.nodes in
    record { nodes = set ns root_index (as_root (node_at ns root_index)); cwd = root_index }

-- The results of the calls are not looked at.
unfoldable pub fs_init : Fs → Fs
fs_init s =
    let s₁ = (fs_mkdir lib (bare_root s)).1 in
    let s₂ = (fs_mkdir bin s₁).1 in
    let s₃ = (fs_mkdir usr s₂).1 in let s₄ = (fs_cd usr s₃).1 in (fs_cd slash (fs_mkdir lib s₄).1).1
