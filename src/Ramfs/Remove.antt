-- ===== src/Ramfs/Remove.antt =====
-- `fs_rm_subtree`, `fs_rm` and `fs_rm_rf` of src/fs.c.
-- The two loops that follow links run on fuel; `none` means that it ran out.
use mykernel.Base.{
  ℕ, zero, suc, ◌+◌, Bool, true, false, ◌&&◌, ◌||◌, not, Option, none, some, List, [], ◌∷◌, ◌++◌,
  ltb, leb, ◌==◌, if◌then◌else◌, length, get_or, set, replicate,
}
use mykernel.Ramfs.Node.{
  FsResult, fs_ok, not_found, no_space, dir_not_empty, invalid_name, Node, free, Fs, max_nodes,
  root_index, node_at, is_free, is_dir, parent_is, find_child, is_empty, k_streq, slash,
}

-- what `fs_free_slot` leaves in the slot
abbrev pub cleared : Node
cleared = record { type = free; name = []; parent = none; content = [] }

-- `fs_cwd_in_subtree`, from `walk` on
unfoldable pub in_subtree : ℕ → List Node → Option ℕ → ℕ → Option Bool
in_subtree zero ns walk idx = none
in_subtree (suc f) ns none idx = some false
in_subtree (suc f) ns (some w) idx = elim (w == idx) [
  | true ↦ some true
  | false ↦ in_subtree f ns (node_at ns w).parent idx
]

-- `seen` and `queue[0 .. qt)`
abbrev pub Search : Type 0
Search = List Bool × List ℕ

-- the body of the inner loop for the node `n` at `i`; `none` is FS_ERR_NO_SPACE
unfoldable pub visit : (i u : ℕ) → Node → Search → Option Search
visit i u n (seen, queue) =
    if is_free n.type || (not (parent_is n.parent u) || get_or seen i false)
    then some (seen, queue)
    else if leb max_nodes (length queue)
    then none
    else some (set seen i true, queue ++ i ∷ [])

-- the inner loop from the index `i` on
unfoldable pub scan_from : (i u : ℕ) → List Node → Search → Option Search
scan_from i u [] st = some st
scan_from i u (n ∷ ns) st = elim (visit i u n st) [
  | none ↦ none
  | some st' ↦ scan_from (i + 1) u ns st'
]

pub data Collected : Type 0 where
  out_of_fuel full : Collected
  collected : List ℕ → Collected

-- `if (nodes[u].type != FS_TYPE_DIR) continue;` and the inner loop
unfoldable pub expand : ℕ → List Node → Search → Option Search
expand u ns st = if is_dir (node_at ns u).type then scan_from 0 u ns st else some st

-- `while (qh < qt)`
unfoldable pub bfs : (fuel qh : ℕ) → List Node → Search → Collected
bfs zero qh ns st = out_of_fuel
bfs (suc f) qh ns (seen, queue) = elim (ltb qh (length queue)) [
  | false ↦ collected queue
  | true ↦ elim (expand (get_or queue qh 0) ns (seen, queue)) [
    | none ↦ full
    | some st' ↦ bfs f (qh + 1) ns st'
  ]
]

-- The slots of the queue are freed from its end.
unfoldable pub free_all : List ℕ → List Node → List Node
free_all [] ns = ns
free_all (i ∷ queue) ns = set (free_all queue ns) i cleared

-- one round for each node, and one for the end of the walk
abbrev pub fuel : ℕ
fuel = 257

-- `(p >= 0) ? p : FS_ROOT_INDEX`
abbrev pub parent_or_root : Option ℕ → ℕ
parent_or_root none = root_index
parent_or_root (some p) = p

-- From the end of the search on.
unfoldable pub finish : ℕ → Fs → Collected → Option (FsResult × Fs)
finish root_idx s out_of_fuel = none
finish root_idx s full = some (no_space, s)
finish root_idx s (collected queue) = elim (in_subtree fuel s.nodes (some s.cwd) root_idx) [
  | none ↦ none
  | some inside ↦ some (
    fs_ok,
    record {
      nodes = free_all queue s.nodes;
      cwd = if inside then parent_or_root (node_at s.nodes root_idx).parent else s.cwd;
    },
  )
]

-- `seen` before the first mark
unfoldable pub no_marks : List Bool
no_marks = replicate max_nodes false

abbrev pub first_search : ℕ → Search
first_search root_idx = (set no_marks root_idx true, root_idx ∷ [])

unfoldable pub fs_rm_subtree : ℕ → Fs → Option (FsResult × Fs)
fs_rm_subtree root_idx s =
    if leb max_nodes root_idx
    then some (not_found, s)
    else if is_free (node_at s.nodes root_idx).type
    then some (fs_ok, s)
    else if root_idx == root_index
    then some (invalid_name, s)
    else finish root_idx s (bfs fuel 0 s.nodes (first_search root_idx))

-- Is there a node in use whose parent is `idx`?
unfoldable pub has_child : ℕ → List Node → Bool
has_child idx [] = false
has_child idx (n ∷ ns) = (not (is_free n.type) && parent_is n.parent idx) || has_child idx ns

-- A null name is the empty one.
unfoldable pub fs_rm : List ℕ → Fs → Option (FsResult × Fs)
fs_rm name s =
    if is_empty name || k_streq name slash
    then some (invalid_name, s)
    else elim (find_child s.cwd name s.nodes) [
      | none ↦ some (not_found, s)
      | some idx ↦
          if is_dir (node_at s.nodes idx).type && has_child idx s.nodes
          then some (dir_not_empty, s)
          else fs_rm_subtree idx s
    ]

unfoldable pub fs_rm_rf : List ℕ → Fs → Option (FsResult × Fs)
fs_rm_rf name s =
    if is_empty name || k_streq name slash
    then some (invalid_name, s)
    else elim (find_child s.cwd name s.nodes) [
      | none ↦ some (not_found, s)
      | some idx ↦ fs_rm_subtree idx s
    ]
