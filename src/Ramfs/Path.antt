-- ===== src/Ramfs/Path.antt =====
-- `fs_read_path` and `fs_mkdir_p` of src/fs.c.
-- Both loops cut the path at '/' in the same way; here it is cut first and the components are then
-- gone through in order.
use mykernel.Base.{
  ℕ, Bool, true, false, ◌||◌, not, Option, none, some, List, [], ◌∷◌, ◌++◌, ◌-◌, leb, ltb, ◌==◌,
  if◌then◌else◌, length, take,
}
use mykernel.Ramfs.Node.{
  FsResult, fs_ok, not_found, is_a_directory, not_a_directory, invalid_name, Node, Fs, name_max,
  root_index, node_at, is_dir, is_file, find_child, k_streq, dot, dot_dot, is_empty,
}
use mykernel.Ramfs.Create.{fs_mkdir, parent_or}

-- The components of a path behind its first '/', with `acc` in front of the first one. One '/'
-- ends a component; nothing stands behind a '/' at the end.
unfoldable pub components_from : List ℕ → List ℕ → List (List ℕ)
components_from acc [] = if is_empty acc then [] else acc ∷ []
components_from acc (c ∷ p) = elim (c == b'/') [
  | true ↦ acc ∷ components_from [] p
  | false ↦ components_from (acc ++ c ∷ []) p
]

unfoldable pub components : List ℕ → List (List ℕ)
components p = components_from [] p

-- One '/' at the front is passed over.
abbrev pub relative : List ℕ → List ℕ
relative [] = []
relative (c ∷ p) = if c == b'/' then p else c ∷ p

abbrev pub is_absolute : List ℕ → Bool
is_absolute [] = false
is_absolute (c ∷ p) = c == b'/'

-- the end of a path: the node must be a file
unfoldable pub read_node : Node → FsResult × Option (List ℕ)
read_node n = if not (is_file n.type) then (is_a_directory, none) else (fs_ok, some n.content)

abbrev pub is_last : List (List ℕ) → Bool
is_last [] = true
is_last (c ∷ cs) = false

-- the loop of `fs_read_path`
unfoldable pub read_from : List (List ℕ) → ℕ → List Node → FsResult × Option (List ℕ)
read_from [] dir ns = (not_found, none)
read_from (c ∷ cs) dir ns =
    if leb name_max (length c) then (invalid_name, none) else elim (is_empty c || k_streq c dot) [
      | true ↦ read_from cs dir ns
      | false ↦ elim (k_streq c dot_dot) [
        | true ↦ read_from cs (parent_or (node_at ns dir).parent dir) ns
        | false ↦ elim (find_child dir c ns) [
          | none ↦ (not_found, none)
          | some idx ↦ elim (is_last cs) [
            | true ↦ read_node (node_at ns idx)
            | false ↦ elim (is_dir (node_at ns idx).type) [
              | true ↦ read_from cs idx ns
              | false ↦ (not_a_directory, none)
            ]
          ]
        ]
      ]
    ]

unfoldable pub fs_read_path : List ℕ → Fs → FsResult × Option (List ℕ)
fs_read_path path s =
    if is_empty path
    then (not_found, none)
    else read_from (components (relative path)) (if is_absolute path then root_index else s.cwd)
        s.nodes

-- One component of `fs_mkdir_p`: go on in a directory, return, or write outside `component`
-- or read outside `nodes`.
pub data Entered : Type 0 where
  enter : Fs → Entered
  stop : FsResult → Fs → Entered
  fault : Entered

unfoldable pub enter_dir : Option ℕ → Fs → Entered
enter_dir none s = fault
enter_dir (some idx) s =
    if not (is_dir (node_at s.nodes idx).type)
    then stop not_a_directory s
    else enter (record s { cwd = idx })

unfoldable pub after_mkdir : List ℕ → FsResult × Fs → Entered
after_mkdir c (fs_ok, s) = enter_dir (find_child s.cwd c s.nodes) s
after_mkdir c (r, s) = stop r s

-- what the inner loop stores in `component`: the characters with `n + 1 < FS_NAME_MAX`
abbrev pub stored_front : List ℕ → List ℕ
stored_front c = take (name_max - 1) c

-- `component[n] = '\0'`, a store into an array of `FS_NAME_MAX` cells that holds the text `s`: the
-- string in it then, or none when the cell is outside the array.
abbrev pub end_string : (n : ℕ) → List ℕ → Option (List ℕ)
end_string n s = if ltb n name_max then some (take n s) else none

-- The rest of the loop's body, with the string in `component`.
unfoldable pub enter_named : List ℕ → Fs → Entered
enter_named c s = if is_empty c then enter s else elim (find_child s.cwd c s.nodes) [
  | none ↦ after_mkdir c (fs_mkdir c s)
  | some idx ↦ enter_dir (some idx) s
]

-- `n` counts all characters of the component, also those that are not stored.
unfoldable pub enter_component : List ℕ → Fs → Entered
enter_component c s = elim (end_string (length c) (stored_front c)) [
  | none ↦ fault
  | some name ↦ enter_named name s
]

-- the loop of `fs_mkdir_p`; both ways out give `cwd` its old value
unfoldable pub mkdir_all : List (List ℕ) → (saved : ℕ) → Fs → Option (FsResult × Fs)
mkdir_all [] saved s = some (fs_ok, record s { cwd = saved })
mkdir_all (c ∷ cs) saved s = elim (enter_component c s) [
  | fault ↦ none
  | stop r s' ↦ some (r, record s' { cwd = saved })
  | enter s' ↦ mkdir_all cs saved s'
]

unfoldable pub fs_mkdir_p : List ℕ → Fs → Option (FsResult × Fs)
fs_mkdir_p path s =
    if not (is_absolute path)
    then some (invalid_name, s)
    else mkdir_all (components (relative path)) s.cwd (record s { cwd = root_index })
