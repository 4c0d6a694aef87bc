-- ===== src/Ramfs/Node.antt =====
-- The node table of src/fs.c, its strings and its two searches.
-- A C string is the list of its bytes before the NUL; the first `content_len` bytes of `content`
-- are a list, and `content_len` is its length. A parent of -1 is `none`.
use mykernel.Base.{
  ℕ, zero, suc, ◌+◌, Bool, true, false, ◌&&◌, ◌||◌, not, Option, none, some, List, [], ◌∷◌, ltb,
  ◌==◌, if◌then◌else◌, length, get_or, take,
}

-- `enum fs_result`
pub data FsResult : Type 0 where
  fs_ok not_found already_exists not_a_directory is_a_directory : FsResult
  no_space dir_not_empty invalid_name too_big : FsResult

-- `enum fs_node_type`
pub data NodeType : Type 0 where
  free dir file : NodeType

-- `struct fs_node`
pub record Node : Type 0 where
  pub type : NodeType
  pub name : List ℕ
  pub parent : Option ℕ
  pub content : List ℕ

-- the static variables, but for the lock
pub record Fs : Type 0 where
  pub nodes : List Node
  pub cwd : ℕ

abbrev pub max_nodes : ℕ
max_nodes = 256

abbrev pub name_max : ℕ
name_max = 48

abbrev pub file_max : ℕ
file_max = 8192

abbrev pub root_index : ℕ
root_index = 0

abbrev pub blank : Node
blank = record { type = free; name = []; parent = some 0; content = [] }

abbrev pub node_at : List Node → ℕ → Node
node_at ns i = get_or ns i blank

abbrev pub is_free : NodeType → Bool
is_free free = true
is_free _ = false

abbrev pub is_dir : NodeType → Bool
is_dir dir = true
is_dir _ = false

abbrev pub is_file : NodeType → Bool
is_file file = true
is_file _ = false

-- `nodes[i].parent == idx`
abbrev pub parent_is : Option ℕ → ℕ → Bool
parent_is none idx = false
parent_is (some p) idx = p == idx

unfoldable pub k_streq : List ℕ → List ℕ → Bool
k_streq [] [] = true
k_streq [] (y ∷ ys) = false
k_streq (x ∷ xs) [] = false
k_streq (x ∷ xs) (y ∷ ys) = x == y && k_streq xs ys

-- what `k_strcpy_truncate` leaves in a buffer of `dst_size` bytes
abbrev pub k_strcpy_truncate : List ℕ → ℕ → List ℕ
k_strcpy_truncate src zero = []
k_strcpy_truncate src (suc n) = take n src

unfoldable pub is_child : ℕ → List ℕ → Node → Bool
is_child parent_idx name n =
    not (is_free n.type) && (parent_is n.parent parent_idx && k_streq n.name name)

-- the loop of `fs_find_child` from the index `i` on
unfoldable pub find_from : ℕ → ℕ → List ℕ → List Node → Option ℕ
find_from i parent_idx name [] = none
find_from i parent_idx name (n ∷ ns) =
    let rest = find_from (i + 1) parent_idx name ns in
    if is_child parent_idx name n then some i else rest

-- -1 is `none`.
unfoldable pub find_child : ℕ → List ℕ → List Node → Option ℕ
find_child parent_idx name ns = find_from 0 parent_idx name ns

-- the loop of `fs_alloc_node` from the index `i` on
unfoldable pub alloc_from : ℕ → List Node → Option ℕ
alloc_from i [] = none
alloc_from i (n ∷ ns) = let rest = alloc_from (i + 1) ns in if is_free n.type then some i else rest

unfoldable pub alloc_node : List Node → Option ℕ
alloc_node ns = alloc_from 0 ns

abbrev pub dot : List ℕ
dot = b'.' ∷ []

abbrev pub dot_dot : List ℕ
dot_dot = b'.' ∷ b'.' ∷ []

abbrev pub slash : List ℕ
slash = b'/' ∷ []

abbrev pub is_empty : List ℕ → Bool
is_empty [] = true
is_empty (c ∷ cs) = false

unfoldable pub is_valid_name : List ℕ → Bool
is_valid_name name =
    not (is_empty name)
    && (not (k_streq name dot || k_streq name dot_dot) && ltb (length name) name_max)
