-- ===== src/Fat32/Files.antt =====
-- src/fat32.c: reading and listing the files of the root.
use mykernel.Base.{
  ℕ, zero, suc, ◌+◌, ◌-◌, ◌*◌, true, false, ◌&&◌, ◌||◌, not, Option, none, some, List, [], ◌∷◌,
  ◌++◌, ltb, ◌==◌, if◌then◌else◌, load_bytes, length,
}
use mykernel.Part.{Ata}
use mykernel.Fat32.{Volume, in_chain, fat_get}
use mykernel.Fat32.Directory.{
  Dirent, first_cluster, is_directory, find_cb, ls_cb, Visit, visited, read_error, endless,
  read_cluster, iterate_dir,
}

-- `enum fat_result`
pub data FatResult : Type 0 where
  fat_ok : FatResult
  fat_err_no_disk : FatResult
  fat_err_not_fat32 : FatResult
  fat_err_io : FatResult
  fat_err_not_found : FatResult
  fat_err_is_dir : FatResult
  fat_err_not_dir : FatResult
  fat_err_too_big : FatResult
  fat_err_not_mounted : FatResult
  fat_err_no_space : FatResult
  fat_err_exists : FatResult
  fat_err_not_empty : FatResult

-- How a function ends: with a code, or with a loop that does not.
pub data Ending (D : Type 0) : Type 0 where
  ends : FatResult → D → Ending D
  never : Ending D

abbrev pub minimum : ℕ → ℕ → ℕ
minimum a b = if ltb b a then b else a

abbrev pub cat_max_bytes : ℕ
cat_max_bytes = 4096

abbrev truncated : List ℕ
truncated =
    b'\n' ∷ b'.' ∷ b'.' ∷ b'.' ∷ b' ' ∷ b'(' ∷ b't' ∷ b'r' ∷ b'u' ∷ b'n' ∷ b'c' ∷ b'a' ∷ b't' ∷ b'e'
    ∷ b'd' ∷ b')' ∷ b'\n' ∷ []

module _ {D : Type 0} (ata : Ata D) (v : Volume) where
  abbrev pub cluster_bytes : ℕ
  cluster_bytes = v.sectors_per_cluster * 512

  -- What a read gives: the bytes, a failure of the disk, or an endless loop.
  pub data Bytes : Type 0 where
    bytes : List ℕ → Bytes
    bytes_error : Bytes
    bytes_endless : Bytes

  abbrev pub with_front : List ℕ → Bytes → Bytes
  with_front front (bytes bs) = bytes (front ++ bs)
  with_front front bytes_error = bytes_error
  with_front front bytes_endless = bytes_endless

  -- the loop of `fat32_read_file`, with `room` more bytes in the buffer
  unfoldable pub read_from : (fuel cluster remaining room : ℕ) → D → Bytes
  read_from zero cluster remaining room d = bytes_endless
  read_from (suc n) cluster remaining room d =
      let chunk = minimum (minimum cluster_bytes remaining) room in
      elim (in_chain cluster && ltb 0 remaining && ltb 0 room) [
        | false ↦ bytes []
        | true ↦ elim (read_cluster ata v cluster d) [
          | none ↦ bytes_error
          | some buf ↦
              with_front (load_bytes chunk 0 buf)
                (read_from n (fat_get ata v cluster d) (remaining - chunk) (room - chunk) d)
        ]
      ]

  -- the loop of `fat32_cat`; the text is cut at `shown` = 4096
  unfoldable pub cat_from : (fuel cluster remaining shown : ℕ) → D → Bytes
  cat_from zero cluster remaining shown d = bytes_endless
  cat_from (suc n) cluster remaining shown d =
      let chunk = minimum cluster_bytes remaining in
      elim (in_chain cluster && ltb 0 remaining) [
        | false ↦ bytes (b'\n' ∷ [])
        | true ↦ elim (read_cluster ata v cluster d) [
          | none ↦ bytes_error
          | some buf ↦ elim (ltb cat_max_bytes (shown + chunk)) [
            | true ↦ bytes (load_bytes (cat_max_bytes - shown) 0 buf ++ truncated)
            | false ↦
                with_front (load_bytes chunk 0 buf)
                  (cat_from n (fat_get ata v cluster d) (remaining - chunk) (shown + chunk) d)
          ]
        ]
      ]

  abbrev pub answer : Bytes → Option (FatResult × List ℕ)
  answer (bytes bs) = some (fat_ok, bs)
  answer bytes_error = some (fat_err_io, [])
  answer bytes_endless = none

  -- what is done with the entry that was found
  abbrev pub on_file : (Dirent → Bytes) → Visit (Option Dirent) → Option (FatResult × List ℕ)
  on_file read (visited r none) = some (fat_err_not_found, [])
  on_file read (visited r (some de)) =
      if is_directory de then some (fat_err_is_dir, []) else answer (read de)
  on_file read read_error = some (fat_err_io, [])
  on_file read endless = none

  -- the entry of the name in the root directory
  abbrev pub find_entry : List ℕ → D → Visit (Option Dirent)
  find_entry name d = iterate_dir ata v (find_cb name) v.root_cluster none d

  unfoldable pub fat32_read_file : (name : List ℕ) (buf_size : ℕ) → D → Option (FatResult × List ℕ)
  fat32_read_file name buf_size d =
      if not v.mounted
      then some (fat_err_not_mounted, [])
      else if length name == 0 || buf_size == 0
      then some (fat_err_not_found, [])
      else on_file (λ de. read_from (de.file_size + 1) (first_cluster de) de.file_size buf_size d)
          (find_entry name d)

  unfoldable pub fat32_cat : (path : List ℕ) → D → Option (FatResult × List ℕ)
  fat32_cat path d =
      if not v.mounted
      then some (fat_err_not_mounted, [])
      else if length path == 0
      then some (fat_err_not_found, [])
      else on_file (λ de. cat_from (de.file_size + 1) (first_cluster de) de.file_size 0 d)
          (find_entry path d)

  abbrev pub listed : Visit (List ℕ) → Option (FatResult × List ℕ)
  listed (visited r screen) = some (fat_ok, screen)
  listed read_error = some (fat_err_io, [])
  listed endless = none

  unfoldable pub fat32_ls : D → Option (FatResult × List ℕ)
  fat32_ls d =
      if not v.mounted
      then some (fat_err_not_mounted, [])
      else listed (iterate_dir ata v ls_cb v.root_cluster [] d)
