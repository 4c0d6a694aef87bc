-- ===== src/Ramfs/Listing.antt =====
-- `fs_node_count`, `fs_cwd_entry` and `fs_pwd` of src/fs.c.
use mykernel.Base.{
  ℕ, zero, suc, ◌+◌, Bool, true, false, Option, none, some, List, [], ◌∷◌, ◌++◌, ltb, ◌==◌,
  if◌then◌else◌, length,
}
use mykernel.Ramfs.Node.{Node, Fs, node_at, is_free, is_dir, parent_is, k_strcpy_truncate, slash}

unfoldable pub fs_node_count : List Node → ℕ
fs_node_count [] = 0
fs_node_count (n ∷ ns) = (if is_free n.type then 0 else 1) + fs_node_count ns

-- The entry with the number `index`, counted from `n` on: its name and whether it is a directory.
-- The result -1 is `none`.
unfoldable pub entry_from : (n index name_sz cwd : ℕ) → List Node → Option (List ℕ × Bool)
entry_from n index name_sz cwd [] = none
entry_from n index name_sz cwd (m ∷ ns) =
    if is_free m.type then entry_from n index name_sz cwd ns else elim (parent_is m.parent cwd) [
      | false ↦ entry_from n index name_sz cwd ns
      | true ↦ elim (n == index) [
        | true ↦ some (k_strcpy_truncate m.name name_sz, is_dir m.type)
        | false ↦ entry_from (n + 1) index name_sz cwd ns
      ]
    ]

unfoldable pub fs_cwd_entry : (index name_sz : ℕ) → Fs → Option (List ℕ × Bool)
fs_cwd_entry index name_sz s = entry_from 0 index name_sz s.cwd s.nodes

-- `FS_MAX_DEPTH`
abbrev pub max_depth : ℕ
max_depth = 16

-- `path[0 .. depth)`: the node and those above it, at most `d`
unfoldable pub path_up : ℕ → List Node → Option ℕ → List ℕ
path_up zero ns cur = []
path_up (suc d) ns none = []
path_up (suc d) ns (some i) = i ∷ path_up d ns (node_at ns i).parent

-- `buffer[pos++] = c`, if there is room for it and the NUL
unfoldable pub put_char : (buffer_size : ℕ) → List ℕ → ℕ → List ℕ
put_char size buf c = if ltb (length buf + 1) size then buf ++ c ∷ [] else buf

unfoldable pub put_name : (buffer_size : ℕ) → List ℕ → List ℕ → List ℕ
put_name size buf [] = buf
put_name size buf (c ∷ cs) = put_name size (put_char size buf c) cs

-- The names of the path but for its last node, from the upper end down.
unfoldable pub put_path : (buffer_size : ℕ) → List Node → List ℕ → List ℕ
put_path size ns [] = []
put_path size ns (i ∷ []) = []
put_path size ns (i ∷ j ∷ path) =
    put_name size (put_char size (put_path size ns (j ∷ path)) b'/') (node_at ns i).name

-- `buffer` up to its NUL, for a size that is not 0
unfoldable pub fs_pwd : (buffer_size : ℕ) → Fs → List ℕ
fs_pwd size s =
    let path = path_up max_depth s.nodes (some s.cwd) in
    if length path == 1 then k_strcpy_truncate slash size else put_path size s.nodes path
