-- ===== src/Fat32/Changes.antt =====
-- src/fat32.c: writing and removing files of the root, and making directories.
use mykernel.Base.{
  ℕ, zero, suc, ◌+◌, ◌/◌, ◌%◌, ◌^◌, Bool, true, false, ◌&&◌, ◌||◌, not, Option, none, some, List,
  [], ◌∷◌, leb, ltb, ◌==◌, if◌then◌else◌, Memory, store_bytes, store_zeros, bytes16, bytes32,
  length, take, drop, replicate,
}
use mykernel.Part.{Ata, blank}
use mykernel.Fat32.{Volume, end_of_chain, fat_set, fat_alloc_cluster, fat_free_chain}
use mykernel.Fat32.Names.{name_to_83}
use mykernel.Fat32.Directory.{
  Dirent, dirent_at, first_cluster, is_directory, is_lfn, Visit, visited, read_error, endless, Slot,
  existing, free_slot, no_slot, slot_error, slot_endless, read_cluster, write_cluster,
  entries_per_cluster, find_slot_in_root,
}
use mykernel.Fat32.Files.{
  fat_ok, fat_err_io, fat_err_not_found, fat_err_is_dir, fat_err_too_big, fat_err_not_mounted,
  fat_err_no_space, fat_err_exists, fat_err_not_empty, Ending, ends, never, minimum, cluster_bytes,
  find_entry,
}

abbrev pub write_max_bytes : ℕ
write_max_bytes = 4096

-- an entry of 32 bytes
abbrev pub put_dirent : (offset : ℕ) (name : List ℕ) (attr cluster size : ℕ) → Memory → Memory
put_dirent offset name attr cluster size buf = store_bytes (offset + 28) (bytes32 size) (
    store_bytes (offset + 26) (bytes16 (cluster % 2 ^ 16)) (
      store_bytes (offset + 20) (bytes16 (cluster / 2 ^ 16)) (
        store_bytes (offset + 11) (attr ∷ [])
          (store_bytes offset name (store_zeros offset 32 buf)))))

-- the first two entries of a directory
abbrev pub dot_entries : (dir root : ℕ) → Memory
dot_entries dir root =
    put_dirent 32 (b'.' ∷ b'.' ∷ replicate 9 b' ') 0x10 root 0
      (put_dirent 0 (b'.' ∷ replicate 10 b' ') 0x10 dir 0 blank)

module _ {D : Type 0} (ata : Ata D) (v : Volume) where
  -- a step that can fail with FAT_ERR_IO
  abbrev pub or_io : Bool × D → (D → Ending D) → Ending D
  or_io (true, d) next = next d
  or_io (false, d) next = ends fat_err_io d

  -- the entry at the end of a write or a mkdir
  abbrev pub store_entry : (cluster : ℕ) → (Memory → Memory) → D → Ending D
  store_entry cluster change d = elim (read_cluster ata v cluster d) [
    | none ↦ ends fat_err_io d
    | some buf ↦ or_io (write_cluster ata v cluster (change buf) d) (ends fat_ok)
  ]

  -- `if (prev) fat_set(prev, value)`
  abbrev pub link : (prev value : ℕ) → D → Bool × D
  link zero value d = (true, d)
  link (suc p) value d = fat_set ata v (suc p) value d

  abbrev pub first_of : (first new : ℕ) → ℕ
  first_of zero new = new
  first_of (suc f) new = suc f

  -- a round behind the allocation
  abbrev pub fill_cluster : (chunk prev : ℕ) (text : List ℕ) → ℕ × D → (ℕ → D → Ending D) → Ending D
  fill_cluster chunk prev text (zero, d) next = ends fat_err_no_space d
  fill_cluster chunk prev text (suc c, d) next = or_io (link prev (suc c) d) (λ d'.
      or_io (write_cluster ata v (suc c) (store_bytes 0 (take chunk text) blank) d') (next (suc c)))

  -- The loop of `fat32_write`, with the rest of the text; `next` gets the first cluster.
  unfoldable pub write_from :
      (fuel first prev : ℕ) (text : List ℕ) → D → (ℕ → D → Ending D) → Ending D
  write_from zero first prev text d next = never
  write_from (suc n) first prev text d next =
      let chunk = minimum (length text) (cluster_bytes ata v) in
      elim (length text == 0) [
        | true ↦ or_io (link prev end_of_chain d) (next first)
        | false ↦
            fill_cluster chunk prev text (fat_alloc_cluster ata v d)
              (λ c d'. write_from n (first_of first c) c (drop chunk text) d' next)
      ]

  -- the text and then the entry
  abbrev pub write_at : (want text : List ℕ) (cluster offset : ℕ) → D → Ending D
  write_at want text cluster offset d =
      write_from (length text + 1) 0 0 text d
        (λ first. store_entry cluster (put_dirent offset want 0x20 first (length text)))

  -- `if (cl >= 2) fat_free_chain(cl)`, whose result is not looked at
  abbrev pub after_free : Option (Bool × D) → (D → Ending D) → Ending D
  after_free none next = never
  after_free (some (ok, d)) next = next d

  abbrev pub free_old : ℕ → D → (D → Ending D) → Ending D
  free_old cluster d next =
      if leb 2 cluster then after_free (fat_free_chain ata v cluster d) next else next d

  abbrev pub write_slot : (want text : List ℕ) → Slot × D → Ending D
  write_slot want text (existing cluster offset de, d) =
      if is_directory de
      then ends fat_err_is_dir d
      else free_old (first_cluster de) d (write_at want text cluster offset)
  write_slot want text (free_slot cluster offset, d) = write_at want text cluster offset d
  write_slot want text (no_slot, d) = ends fat_err_no_space d
  write_slot want text (slot_error, d) = ends fat_err_io d
  write_slot want text (slot_endless, d) = never

  unfoldable pub fat32_write : (name text : List ℕ) → D → Ending D
  fat32_write name text d =
      if not v.mounted
      then ends fat_err_not_mounted d
      else if length name == 0
      then ends fat_err_not_found d
      else if ltb write_max_bytes (length text)
      then ends fat_err_too_big d
      else write_slot (name_to_83 name) text (find_slot_in_root ata v (name_to_83 name) d)

  abbrev pub mkdir_slot : (want : List ℕ) (dir : ℕ) → Slot × D → Ending D
  mkdir_slot want dir (existing cluster offset de, d) =
      after_free (fat_free_chain ata v dir d) (ends fat_err_exists)
  mkdir_slot want dir (free_slot cluster offset, d) =
      store_entry cluster (put_dirent offset want 0x10 dir 0) d
  mkdir_slot want dir (no_slot, d) = after_free (fat_free_chain ata v dir d) (ends fat_err_no_space)
  mkdir_slot want dir (slot_error, d) = after_free (fat_free_chain ata v dir d) (ends fat_err_io)
  mkdir_slot want dir (slot_endless, d) = never

  -- behind the write of the new directory
  abbrev pub mkdir_written : (want : List ℕ) (dir : ℕ) → Bool × D → Ending D
  mkdir_written want dir (false, d) = ends fat_err_io (fat_set ata v dir 0 d).1
  mkdir_written want dir (true, d) = mkdir_slot want dir (find_slot_in_root ata v want d)

  abbrev pub mkdir_at : (want : List ℕ) → ℕ × D → Ending D
  mkdir_at want (zero, d) = ends fat_err_no_space d
  mkdir_at want (suc c, d) =
      mkdir_written want (suc c)
        (write_cluster ata v (suc c) (dot_entries (suc c) v.root_cluster) d)

  abbrev pub mkdir_found : (want : List ℕ) → Visit (Option Dirent) → D → Ending D
  mkdir_found want read_error d = ends fat_err_io d
  mkdir_found want endless d = never
  mkdir_found want (visited r (some de)) d = ends fat_err_exists d
  mkdir_found want (visited r none) d = mkdir_at want (fat_alloc_cluster ata v d)

  unfoldable pub fat32_mkdir : (name : List ℕ) → D → Ending D
  fat32_mkdir name d =
      if not v.mounted
      then ends fat_err_not_mounted d
      else if length name == 0
      then ends fat_err_not_found d
      else mkdir_found (name_to_83 name) (find_entry ata v name d) d

  -- an entry that is neither free nor `.` nor `..`
  unfoldable pub has_entry : (n offset : ℕ) → Memory → Bool
  has_entry zero offset buf = false
  has_entry (suc n) offset buf =
      let more = has_entry n (offset + 32) buf in
      let de = dirent_at buf offset in
      let dot : Bool = buf offset == b'.' && buf (offset + 1) == b' ' in
      let dots : Bool =
        buf offset == b'.' && buf (offset + 1) == b'.' && buf (offset + 2) == b' ' in
      if buf offset == 0
      then false
      else if buf offset == 0xE5 || is_lfn de || dot || dots
      then more
      else true

  abbrev pub remove_entry : (cluster offset chain : ℕ) → D → Ending D
  remove_entry cluster offset chain d = elim (read_cluster ata v cluster d) [
    | none ↦ ends fat_err_io d
    | some buf ↦
        or_io (write_cluster ata v cluster (store_bytes offset (0xE5 ∷ []) buf) d)
          (λ d'. free_old chain d' (ends fat_ok))
  ]

  -- a directory has to be empty
  abbrev pub remove_directory : (cluster offset : ℕ) → Dirent → Option Memory → D → Ending D
  remove_directory cluster offset de none d = ends fat_err_io d
  remove_directory cluster offset de (some buf) d =
      if has_entry (entries_per_cluster ata v) 0 buf
      then ends fat_err_not_empty d
      else remove_entry cluster offset (first_cluster de) d

  abbrev pub unlink_slot : Slot × D → Ending D
  unlink_slot (existing cluster offset de, d) =
      if is_directory de && leb 2 (first_cluster de)
      then remove_directory cluster offset de (read_cluster ata v (first_cluster de) d) d
      else remove_entry cluster offset (first_cluster de) d
  unlink_slot (free_slot cluster offset, d) = ends fat_err_not_found d
  unlink_slot (no_slot, d) = ends fat_err_io d
  unlink_slot (slot_error, d) = ends fat_err_io d
  unlink_slot (slot_endless, d) = never

  unfoldable pub fat32_unlink : (name : List ℕ) → D → Ending D
  fat32_unlink name d =
      if not v.mounted
      then ends fat_err_not_mounted d
      else if length name == 0
      then ends fat_err_not_found d
      else unlink_slot (find_slot_in_root ata v (name_to_83 name) d)
