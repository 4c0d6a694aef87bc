-- ===== src/Ramfs/Content.antt =====
-- `fs_write`, `fs_write_bin`, `fs_append`, `fs_read` and `fs_size` of src/fs.c.
use mykernel.Base.{
  ℕ, ◌-◌, ◌&&◌, not, Option, none, some, List, [], ◌∷◌, ◌++◌, ltb, leb, if◌then◌else◌, length, set,
}
use mykernel.Ramfs.Node.{
  FsResult, fs_ok, not_found, is_a_directory, too_big, Node, Fs, file_max, node_at, is_file, is_dir,
  find_child,
}
use mykernel.Ramfs.Create.{fs_touch}

abbrev pub with_content : List ℕ → Node → Node
with_content bytes n = record n { content = bytes }

-- From `if (idx == -1)` behind the second search on.
unfoldable pub put_content : (List ℕ → List ℕ) → Option ℕ → Fs → FsResult × Fs
put_content f none s = (not_found, s)
put_content f (some idx) s =
    let n = node_at s.nodes idx in
    if not (is_file n.type)
    then (is_a_directory, s)
    else (fs_ok, record s { nodes = set s.nodes idx (with_content (f n.content) n) })

-- From the result of `fs_touch` on.
unfoldable pub after_touch : (List ℕ → List ℕ) → List ℕ → FsResult × Fs → FsResult × Fs
after_touch f name (fs_ok, s) = put_content f (find_child s.cwd name s.nodes) s
after_touch f name (r, s) = (r, s)

-- The shape that `fs_write_bin` and `fs_append` share: a missing file is made first.
unfoldable pub update_content : (List ℕ → List ℕ) → List ℕ → Fs → FsResult × Fs
update_content f name s = elim (find_child s.cwd name s.nodes) [
  | none ↦ after_touch f name (fs_touch name s)
  | some idx ↦ put_content f (some idx) s
]

unfoldable pub fs_write_bin : List ℕ → List ℕ → Fs → FsResult × Fs
fs_write_bin name bytes s =
    if leb file_max (length bytes) then (too_big, s) else update_content (λ old. bytes) name s

unfoldable pub fs_write : List ℕ → List ℕ → Fs → FsResult × Fs
fs_write name text s = fs_write_bin name text s

-- the loop over `text`, which stops at the last byte but one of the buffer
unfoldable pub append_bytes : List ℕ → List ℕ → List ℕ
append_bytes content [] = content
append_bytes content (c ∷ text) =
    if ltb (length content) (file_max - 1) then append_bytes (content ++ c ∷ []) text else content

-- a line break behind what is there already
unfoldable pub append_text : List ℕ → List ℕ → List ℕ
append_text text content =
    append_bytes
      (if ltb 0 (length content) && ltb (length content) (file_max - 1)
        then content ++ b'\n' ∷ []
        else content)
      text

unfoldable pub fs_append : List ℕ → List ℕ → Fs → FsResult × Fs
fs_append name text s = update_content (append_text text) name s

-- The bytes stand for `*out_content` and `*out_len`.
unfoldable pub fs_read : List ℕ → Fs → FsResult × Option (List ℕ)
fs_read name s = elim (find_child s.cwd name s.nodes) [
  | none ↦ (not_found, none)
  | some idx ↦
      let n = node_at s.nodes idx in
      if not (is_file n.type) then (is_a_directory, none) else (fs_ok, some n.content)
]

unfoldable pub fs_size : List ℕ → Fs → FsResult × Option ℕ
fs_size name s = elim (find_child s.cwd name s.nodes) [
  | none ↦ (not_found, none)
  | some idx ↦
      let n = node_at s.nodes idx in
      if is_dir n.type then (is_a_directory, some 0) else (fs_ok, some (length n.content))
]
