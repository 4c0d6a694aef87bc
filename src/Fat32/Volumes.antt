-- ===== src/Fat32/Volumes.antt =====
-- src/fat32.c: how a volume is found, mounted and made.
use mykernel.Base.{
  ℕ, zero, suc, ◌+◌, ◌-◌, ◌*◌, ◌/◌, Bool, true, false, ◌&&◌, ◌||◌, not, Option, none, some, List,
  [], ◌∷◌, leb, ltb, ◌==◌, u32, if◌then◌else◌, Memory, store_bytes, load16, load32, bytes16,
  bytes32,
}
use mykernel.Part.{Ata, blank}
use mykernel.Fat32.{Volume}
use mykernel.Fat32.Directory.{write_sectors}
use mykernel.Fat32.Files.{
  FatResult, fat_ok, fat_err_no_disk, fat_err_not_fat32, fat_err_io, Ending, ends,
}

-- the fields of `struct fat32_bpb`
abbrev pub bytes_per_sector : Memory → ℕ
bytes_per_sector s = load16 s 11

abbrev pub reserved_sectors : Memory → ℕ
reserved_sectors s = load16 s 14

abbrev pub total_sectors_16 : Memory → ℕ
total_sectors_16 s = load16 s 19

abbrev pub total_sectors_32 : Memory → ℕ
total_sectors_32 s = load32 s 32

abbrev pub fat_size_32 : Memory → ℕ
fat_size_32 s = load32 s 36

abbrev pub bpb_root_cluster : Memory → ℕ
bpb_root_cluster s = load32 s 44

abbrev pub has_signature : Memory → Bool
has_signature s = s 510 == 0x55 && s 511 == 0xAA

abbrev pub looks_fat32 : Memory → Bool
looks_fat32 s = s 82 == b'F' || s 66 == 0x29

abbrev pub is_volume : Memory → Bool
is_volume s =
    bytes_per_sector s == 512
    && leb 1 (s 13)
    && leb 1 (s 16)
    && not (fat_size_32 s == 0)
    && looks_fat32 s

abbrev pub is_fat_type : ℕ → Bool
is_fat_type t = t == 0x0B || t == 0x0C || t == 0x0E

-- the first FAT partition of the `n` entries from `i` on
unfoldable pub fat_entry : (n i : ℕ) → Memory → Option ℕ
fat_entry zero i s = none
fat_entry (suc n) i s =
    let more = fat_entry n (i + 1) s in
    if is_fat_type (s (446 + i * 16 + 4)) then some (load32 s (446 + i * 16 + 8)) else more

abbrev pub is_probed : Memory → Bool
is_probed s =
    bytes_per_sector s == 512
    && not (fat_size_32 s == 0)
    && leb 1 (s 13)
    && leb (s 13) 64
    && (looks_fat32 s || has_signature s)

abbrev pub probe : Option Memory → Option ℕ
probe none = none
probe (some s) = if is_probed s then some 2048 else none

abbrev pub or_probe : Option ℕ → Option Memory → Option ℕ
or_probe (some lba) o = some lba
or_probe none o = probe o

abbrev pub partition_in : Option Memory → Option Memory → Option ℕ
partition_in none second = none
partition_in (some s) second =
    if is_volume s
    then some 0
    else if not (has_signature s)
    then none
    else or_probe (fat_entry 4 0 s) second

-- `value ? value : otherwise`
abbrev pub or_default : ℕ → ℕ → ℕ
or_default zero otherwise = otherwise
or_default (suc n) otherwise = suc n

-- the geometry that a boot sector gives
abbrev pub with_geometry : Memory → Volume → Volume
with_geometry s v =
    let fats : ℕ = or_default (s 16) 2 in
    let start : ℕ = u32 (reserved_sectors s + fats * fat_size_32 s) in
    let total : ℕ = or_default (total_sectors_16 s) (total_sectors_32 s) in
    record v {
      sectors_per_cluster = s 13;
      fat_size_sectors = fat_size_32 s;
      num_fats = fats;
      fat_start = reserved_sectors s;
      data_start = start;
      root_cluster = or_default (bpb_root_cluster s) 2;
      total_clusters = if ltb start total then (total - start) / s 13 else 0x10000;
    }

abbrev pub is_mountable : Memory → Bool
is_mountable s =
    bytes_per_sector s == 512 && not (fat_size_32 s == 0) && not (s 13 == 0) && leb (s 13) 64

abbrev pub mount_sector : Option Memory → Volume → Bool × Volume
mount_sector none v = (false, v)
mount_sector (some s) v = if is_mountable s then (true, with_geometry s v) else (false, v)

abbrev pub fat32_set_partition_lba : ℕ → Volume → Volume
fat32_set_partition_lba lba v = record v { partition_lba = lba; mounted = false }

module _ {D : Type 0} (ata : Ata D) where
  unfoldable pub find_fat_partition : D → Option ℕ
  find_fat_partition d = partition_in (ata.read 0 d) (ata.read 2048 d)

  unfoldable pub try_mount_at : ℕ → Volume → D → Bool × Volume
  try_mount_at lba v d = mount_sector (ata.read lba d) (record v { partition_lba = lba })

  abbrev pub mounted_at : Bool × Volume → FatResult × Volume
  mounted_at (true, v) = (fat_ok, record v { mounted = true })
  mounted_at (false, v) = (fat_err_not_fat32, v)

  abbrev pub mount_found : Option ℕ → Volume → D → FatResult × Volume
  mount_found none v d = (fat_err_not_fat32, v)
  mount_found (some lba) v d = mounted_at (try_mount_at lba (record v { partition_lba = lba }) d)

  abbrev pub or_search : Bool × Volume → D → FatResult × Volume
  or_search (true, v) d = (fat_ok, record v { mounted = true })
  or_search (false, v) d = mount_found (find_fat_partition d) v d

  abbrev pub mount_ready : Bool × D → Volume → FatResult × Volume × D
  mount_ready (false, d) v = (fat_err_no_disk, v, d)
  mount_ready (true, d) v =
      let r : FatResult × Volume =
        if v.partition_lba == 0
        then mount_found (find_fat_partition d) v d
        else or_search (try_mount_at v.partition_lba v d) d in
      (r.0, r.1, d)

  -- `ata_init` is an argument.
  unfoldable pub fat32_mount : (ata_init : D → Bool × D) → Volume → D → FatResult × Volume × D
  fat32_mount ata_init v d =
      mount_ready (if ata.present d then (true, d) else ata_init d) (record v { mounted = false })

-- the numbers of `fat32_mkfs`, whose sectors are below 2^32
abbrev pub mkfs_size : ℕ → ℕ
mkfs_size size = if ltb size 2048 then 65536 else size

abbrev pub sectors_for : ℕ → ℕ
sectors_for data_sectors = (data_sectors / 8 * 4 + 511) / 512

abbrev pub mkfs_fat_sz : ℕ → ℕ
mkfs_fat_sz size =
    let rough : ℕ = sectors_for (size - 32) in
    let fat_sz : ℕ = if ltb rough 1 then 1 else rough in sectors_for (size - 32 - 2 * fat_sz)

abbrev oem : List ℕ
oem = b'M' ∷ b'S' ∷ b'W' ∷ b'I' ∷ b'N' ∷ b'4' ∷ b'.' ∷ b'1' ∷ []

abbrev volume_label : List ℕ
volume_label = b'M' ∷ b'Y' ∷ b'K' ∷ b'E' ∷ b'R' ∷ b'N' ∷ b'E' ∷ b'L' ∷ b' ' ∷ b' ' ∷ b' ' ∷ []

abbrev fs_type : List ℕ
fs_type = b'F' ∷ b'A' ∷ b'T' ∷ b'3' ∷ b'2' ∷ b' ' ∷ b' ' ∷ b' ' ∷ []

-- The boot sector; the stores of 0 in a buffer of zeros are left out.
abbrev pub boot_sector : (part_lba size fat_sz : ℕ) → Memory
boot_sector part_lba size fat_sz =
    let head : Memory =
      store_bytes 11 (bytes16 512)
        (store_bytes 3 oem (store_bytes 0 (0xEB ∷ 0x58 ∷ 0x90 ∷ []) blank)) in
    let sizes : Memory = store_bytes 32 (bytes32 size) (
      store_bytes 28 (bytes32 part_lba) (
        store_bytes 26 (bytes16 255) (
          store_bytes 24 (bytes16 63) (
            store_bytes 21 (0xF8 ∷ []) (
              store_bytes 16 (2 ∷ [])
                (store_bytes 14 (bytes16 32) (store_bytes 13 (8 ∷ []) head))))))) in
    let table : Memory = store_bytes 50 (bytes16 6) (
      store_bytes 48 (bytes16 1)
        (store_bytes 44 (bytes32 2) (store_bytes 36 (bytes32 fat_sz) sizes))) in
    store_bytes 510 (0x55 ∷ 0xAA ∷ []) (
      store_bytes 82 fs_type (
        store_bytes 71 volume_label (
          store_bytes 67 (bytes32 0x12345678)
            (store_bytes 66 (0x29 ∷ []) (store_bytes 64 (0x80 ∷ []) table)))))

abbrev pub fs_info : Memory
fs_info = store_bytes 510 (0x55 ∷ 0xAA ∷ []) (
    store_bytes 488 (0xFF ∷ 0xFF ∷ 0xFF ∷ 0xFF ∷ 0x02 ∷ []) (
      store_bytes 484 (0x72 ∷ 0x72 ∷ 0x41 ∷ 0x61 ∷ [])
        (store_bytes 0 (0x52 ∷ 0x52 ∷ 0x61 ∷ 0x41 ∷ []) blank)))

-- the first three entries of a table
abbrev pub first_entries : Memory → Memory
first_entries s =
    store_bytes 0
      (0xF8 ∷ 0xFF ∷ 0xFF ∷ 0x0F ∷ 0xFF ∷ 0xFF ∷ 0xFF ∷ 0x0F ∷ 0xFF ∷ 0xFF ∷ 0xFF ∷ 0x0F ∷ []) s

module _ {D : Type 0} (ata : Ata D) where
  -- a write that can fail with FAT_ERR_IO
  abbrev pub or_stop : Bool × D → (D → Ending D) → Ending D
  or_stop (true, d) next = next d
  or_stop (false, d) next = ends fat_err_io d

  -- the buffer in `n` sectors from `lba` on
  unfoldable pub fill_sectors : (n lba : ℕ) → Memory → D → (D → Ending D) → Ending D
  fill_sectors zero lba buf d next = next d
  fill_sectors (suc n) lba buf d next =
      or_stop (ata.write lba buf d) (λ d'. fill_sectors n (lba + 1) buf d' next)

  -- the first sector of a table, which stays in the buffer
  abbrev pub mark_table : (lba : ℕ) → Option Memory → D → (Memory → D → Ending D) → Ending D
  mark_table lba none d next = ends fat_err_io d
  mark_table lba (some s) d next =
      or_stop (ata.write lba (first_entries s) d) (next (first_entries s))

  -- A table is filled with the buffer as the round before has left it.
  unfoldable pub make_tables : (n lba fat_sz : ℕ) → Memory → D → (D → Ending D) → Ending D
  make_tables zero lba fat_sz buf d next = next d
  make_tables (suc n) lba fat_sz buf d next = fill_sectors fat_sz lba buf d (λ d'.
      mark_table lba (ata.read lba d') d'
        (λ buf' d''. make_tables n (lba + fat_sz) fat_sz buf' d'' next))

  unfoldable pub make_volume : (part_lba size fat_sz : ℕ) → D → Ending D
  make_volume part_lba size fat_sz d =
      or_stop (ata.write part_lba (boot_sector part_lba size fat_sz) d) (λ d₁.
        or_stop (ata.write (part_lba + 1) fs_info d₁) (λ d₂.
          make_tables 2 (part_lba + 32) fat_sz blank d₂ (λ d₃.
            or_stop (write_sectors ata 8 (part_lba + 32 + 2 * fat_sz) blank d₃) (ends fat_ok))))

  abbrev pub is_ok : Ending D → Bool
  is_ok (ends fat_ok d) = true
  is_ok r = false

  abbrev pub made : Ending D → (part_lba : ℕ) → Volume → Ending D × Volume
  made r part_lba v = (r, if is_ok r then fat32_set_partition_lba part_lba v else v)

  unfoldable pub fat32_mkfs : (part_lba size_sectors : ℕ) → Volume → D → Ending D × Volume
  fat32_mkfs part_lba size_sectors v d =
      if not (ata.present d)
      then (ends fat_err_no_disk d, v)
      else made
          (make_volume part_lba (mkfs_size size_sectors) (mkfs_fat_sz (mkfs_size size_sectors)) d)
          part_lba v
