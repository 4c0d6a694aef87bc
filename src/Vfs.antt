-- ===== src/Vfs.antt =====
-- src/vfs.c: the mount table, and which file system a path belongs to.
-- An operation is one step; `vfs_mount` gives the lock back before it makes the directory, and what
-- another task might do there is not modelled.
pub mod Owns
pub mod Longest
pub mod Root
mod Tests
use mykernel.Base.{
  ℕ, zero, suc, ◌+◌, ◌-◌, Bool, true, false, ◌&&◌, ◌||◌, not, Option, none, some, List, [], ◌∷◌,
  ltb, ◌==◌, if◌then◌else◌, length, get_or, set, take, drop, map,
}
use mykernel.Ramfs.Node.{
  FsResult, fs_ok, not_found, already_exists, no_space, invalid_name, Fs, k_streq, is_empty, slash,
}
use mykernel.Ramfs.Path.{fs_mkdir_p, is_absolute}

-- `enum vfs_fs_type`
pub data FsType : Type 0 where
  fs_none : FsType
  fs_ram : FsType
  fs_fat32 : FsType

-- `struct vfs_mount`
pub record Mount : Type 0 where
  pub used : Bool
  pub path : List ℕ
  pub type : FsType

-- `VFS_MP_NAME_MAX`
abbrev pub mount_name_max : ℕ
mount_name_max = 16

-- what C has behind the end of the list is not read
abbrev pub no_mount : Mount
no_mount = record { used = false; path = []; type = fs_none }

abbrev pub str_copy : List ℕ → ℕ → List ℕ
str_copy s max = take (max - 1) s

abbrev pub unused : Mount → Mount
unused m = record m { used = false }

abbrev pub root_mount : Mount
root_mount = record { used = true; path = str_copy slash mount_name_max; type = fs_ram }

unfoldable pub vfs_init : List Mount → List Mount
vfs_init ms = set (map unused ms) 0 root_mount

-- `find_mount`, from the index `i` on
unfoldable pub mount_from : ℕ → List ℕ → List Mount → Option ℕ
mount_from i path [] = none
mount_from i path (m ∷ ms) =
    if m.used && k_streq m.path path then some i else mount_from (i + 1) path ms

unfoldable pub find_mount : List ℕ → List Mount → Option ℕ
find_mount path ms = mount_from 0 path ms

-- the search for a slot that is not used
unfoldable pub unused_from : ℕ → List Mount → Option ℕ
unused_from i [] = none
unused_from i (m ∷ ms) = if not m.used then some i else unused_from (i + 1) ms

unfoldable pub vfs_umount : List ℕ → List Mount → FsResult × List Mount
vfs_umount path ms = if k_streq path slash then (invalid_name, ms) else elim (find_mount path ms) [
  | none ↦ (not_found, ms)
  | some idx ↦ (fs_ok, set ms idx no_mount)
]

abbrev pub is_fat32 : FsType → Bool
is_fat32 fs_fat32 = true
is_fat32 _ = false

abbrev pub is_none : FsType → Bool
is_none fs_none = true
is_none _ = false

-- The table is written; the directory of the mount point is made with the result not looked at.
-- `none` says that `fs_mkdir_p` leaves its arrays.
unfoldable pub mount_in : ℕ → List ℕ → FsType → List Mount → Fs → Option (List Mount × Fs)
mount_in slot path type ms fs =
    let ms' =
      set ms slot (record { used = true; path = str_copy path mount_name_max; type = type }) in
    if is_fat32 type
    then elim (fs_mkdir_p path fs) [ none ↦ none | some (r, fs') ↦ some (ms', fs') ]
    else some (ms', fs)

-- `fat_ready` says whether the FAT32 volume is mounted already or `fat32_mount` mounts it now.
unfoldable pub vfs_mount :
    (fat_ready : Bool) → List ℕ → FsType → List Mount → Fs → Option (FsResult × List Mount × Fs)
vfs_mount fat_ready path type ms fs =
    if not (is_absolute path)
    then some (invalid_name, ms, fs)
    else if is_none type
    then some (invalid_name, ms, fs)
    else if k_streq path slash
    then some (already_exists, ms, fs)
    else elim (find_mount path ms) [
      | some _ ↦ some (already_exists, ms, fs)
      | none ↦
          if is_fat32 type && not fat_ready
          then some (not_found, ms, fs)
          else elim (unused_from 0 ms) [
            | none ↦ some (no_space, ms, fs)
            | some slot ↦ elim (mount_in slot path type ms fs) [
              | none ↦ none
              | some (ms', fs') ↦ some (fs_ok, ms', fs')
            ]
          ]
    ]

-- the loop over `k`
unfoldable pub is_prefix : List ℕ → List ℕ → Bool
is_prefix [] p = true
is_prefix (c ∷ m) [] = false
is_prefix (c ∷ m) (d ∷ p) = c == d && is_prefix m p

-- The path ends or goes on with '/' there, or the mount point is "/".
unfoldable pub at_boundary : List ℕ → List ℕ → Bool
at_boundary mp [] = true
at_boundary mp (d ∷ rest) = d == b'/' || (length mp == 1 && get_or mp 0 0 == b'/')

unfoldable pub owns : List ℕ → Mount → Bool
owns path m = m.used && is_prefix m.path path && at_boundary m.path (drop (length m.path) path)

-- One round of the search; `best_len` is the length of the path of `best`, -1 if there is none.
unfoldable pub better : List ℕ → Mount → Option Mount → Option Mount
better path m none = if owns path m then some m else none
better path m (some b) =
    if owns path m && ltb (length b.path) (length m.path) then some m else some b

unfoldable pub best_from : List ℕ → List Mount → Option Mount → Option Mount
best_from path [] best = best
best_from path (m ∷ ms) best = best_from path ms (better path m best)

-- what is written to `rest_out`, if anything
abbrev pub rest_of : ℕ → List ℕ → Option (List ℕ)
rest_of max rest = if ltb 0 max then some (str_copy rest max) else none

abbrev pub skip_slash : List ℕ → List ℕ
skip_slash [] = []
skip_slash (c ∷ p) = if c == b'/' then p else c ∷ p

unfoldable pub resolve_to : List ℕ → ℕ → Option Mount → FsType × Option (List ℕ)
resolve_to path max none = (fs_ram, rest_of max path)
resolve_to path max (some b) = (b.type, rest_of max (skip_slash (drop (length b.path) path)))

-- `rest_max` 0 stands for a null `rest_out` too.
unfoldable pub vfs_resolve : List ℕ → (rest_max : ℕ) → List Mount → FsType × Option (List ℕ)
vfs_resolve path rest_max ms =
    if is_empty path
    then (fs_ram, rest_of rest_max [])
    else resolve_to path rest_max (best_from path ms none)
