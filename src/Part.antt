-- ===== src/Part.antt =====
-- src/part.c: partition tables on the disk.
-- A sector is a function from the offset to the byte. The disk of src/ata.c, which is behind port
-- I/O, is the interface `Ata`.
pub mod RoundTrip
mod Tests
use mykernel.Base.{
  ℕ, zero, suc, ◌+◌, ◌-◌, ◌*◌, ◌/◌, ◌%◌, ◌^◌, ◌<◌, ◌≡◌, ◌≢◌, Bool, true, false, ◌&&◌, ◌||◌, not,
  Option, none, some, List, [], ◌∷◌, ◌++◌, ltb, ◌==◌, u32, if◌then◌else◌, map, Memory, store_bytes,
  store_zeros, bytes32, load32,
}
use Prim.Native.Nat.{bit_xor}

-- `ata_present`, `ata_read_sectors(lba, 1, sec)` and `ata_write_sectors(lba, 1, sec)`; `none` and
-- `false` are errors.
pub record Ata (D : Type 0) : Type 0 where
  pub present : D → Bool
  pub read : ℕ → D → Option Memory
  pub write : ℕ → Memory → D → Bool × D

-- What a disk does: what was written can be read, and other sectors are as they were.
pub record IsDisk {D : Type 0} (ata : Ata D) : Type 0 where
  pub read_written :
      (lba : ℕ) (s : Memory) (d : D)
      → (ata.write lba s d).0 ≡ true
      → (t : Memory) × (ata.read lba (ata.write lba s d).1 ≡ some t)
        × ((x : ℕ) → x < 512 → t x ≡ s x)
  pub read_other :
      (lba other : ℕ) (s : Memory) (d : D)
      → lba ≢ other
      → ata.read other (ata.write lba s d).1 ≡ ata.read other d
  pub stays : (lba : ℕ) (s : Memory) (d : D) → ata.present (ata.write lba s d).1 ≡ ata.present d

-- `set32`, and `set64` with a high word of 0
abbrev pub set32 : ℕ → ℕ → Memory → Memory
set32 a v s = store_bytes a (bytes32 v) s

abbrev pub set64 : ℕ → ℕ → Memory → Memory
set64 a lo s = set32 (a + 4) 0 (set32 a lo s)

abbrev pub set8 : ℕ → ℕ → Memory → Memory
set8 a v s = store_bytes a (v ∷ []) s

-- `mem0(sec, 512)`
abbrev pub blank : Memory
blank x = 0

-- One round of the inner loop of `crc32`, and all eight.
abbrev pub crc_bit : ℕ → ℕ
crc_bit c = bit_xor (c / 2) (if c % 2 == 1 then 0xEDB88320 else 0)

unfoldable pub crc_bits : ℕ → ℕ → ℕ
crc_bits zero c = c
crc_bits (suc k) c = crc_bits k (crc_bit c)

unfoldable pub crc_from : (n i : ℕ) → Memory → ℕ → ℕ
crc_from zero i s c = c
crc_from (suc n) i s c = crc_from n (i + 1) s (crc_bits 8 (bit_xor c (s i)))

unfoldable pub crc32 : Memory → ℕ → ℕ
crc32 s len = 2 ^ 32 - 1 - crc_from len 0 s (2 ^ 32 - 1)

abbrev pub signed : Memory → Memory
signed s = store_bytes 510 (0x55 ∷ 0xAA ∷ []) s

-- The bootstrap code: that of the sector, or a stub that halts if there is none.
abbrev pub bootstrap : Option Memory → Memory
bootstrap none = store_bytes 0 (0xFA ∷ 0xF4 ∷ 0xEB ∷ 0xFD ∷ []) blank
bootstrap (some s) =
    if s 0 == 0 && s 1 == 0 && s 2 == 0
    then store_bytes 0 (0xFA ∷ 0xF4 ∷ 0xEB ∷ 0xFD ∷ []) blank
    else s

abbrev pub mbr_sector : (start size : ℕ) → Memory → Memory
mbr_sector start size s =
    signed (set32 458 size (set32 454 start (set8 450 0x0C (set8 446 0x80 (store_zeros 446 64 s)))))

-- `if (value < least) value = otherwise`
abbrev pub default_below : (least otherwise value : ℕ) → ℕ
default_below least otherwise value = if ltb value least then otherwise else value

abbrev pub protective_mbr : Memory
protective_mbr = signed (set32 458 0xFFFFFFFF (set32 454 1 (set8 450 0xEE (set8 446 0 blank))))

abbrev pub type_guid : List ℕ
type_guid =
    0xA2 ∷ 0xA0 ∷ 0xD0 ∷ 0xEB ∷ 0xE5 ∷ 0xB9 ∷ 0x33 ∷ 0x44 ∷ 0x87 ∷ 0xC0 ∷ 0x68 ∷ 0xB6 ∷ 0xB7 ∷ 0x26
    ∷ 0x99 ∷ 0xC7 ∷ []

abbrev pub unique_guid : List ℕ
unique_guid =
    0x11 ∷ 0x22 ∷ 0x33 ∷ 0x44 ∷ 0x55 ∷ 0x66 ∷ 0x77 ∷ 0x88 ∷ 0x99 ∷ 0xAA ∷ 0xBB ∷ 0xCC ∷ 0xDD ∷ 0xEE
    ∷ 0xFF ∷ 0x01 ∷ []

-- "MYKERNEL" in UTF-16
abbrev pub wide_name : List ℕ
wide_name =
    b'M' ∷ 0 ∷ b'Y' ∷ 0 ∷ b'K' ∷ 0 ∷ b'E' ∷ 0 ∷ b'R' ∷ 0 ∷ b'N' ∷ 0 ∷ b'E' ∷ 0 ∷ b'L' ∷ 0 ∷ []

abbrev pub entry_sector : (start last : ℕ) → Memory
entry_sector start last =
    store_bytes 56 wide_name
      (set64 40 last (set64 32 start (store_bytes 16 unique_guid (store_bytes 0 type_guid blank))))

abbrev pub disk_guid : List ℕ
disk_guid =
    0xA0 ∷ 0xA1 ∷ 0xA2 ∷ 0xA3 ∷ 0xA4 ∷ 0xA5 ∷ 0xA6 ∷ 0xA7 ∷ 0xA8 ∷ 0xA9 ∷ 0xAA ∷ 0xAB ∷ 0xAC ∷ 0xAD
    ∷ 0xAE ∷ 0xAF ∷ []

-- The GPT header before its own checksum is put in.
abbrev pub header_body : (start size last part_crc : ℕ) → Memory
header_body start size last part_crc = set32 88 part_crc (
    set32 84 128 (
      set32 80 128 (
        set64 72 2 (
          store_bytes 56 disk_guid (
            set64 48 last (
              set64 40 34 (
                set64 32 (u32 (size + start + 100)) (
                  set64 24 1 (
                    set32 16 0 (
                      set32 12 92 (
                        set32 8 0x00010000 (
                          store_bytes 0 (b'E' ∷ b'F' ∷ b'I' ∷ b' ' ∷ b'P' ∷ b'A' ∷ b'R' ∷ b'T' ∷ [])
                            blank))))))))))))

-- What `part_print_mbr` and `part_print_gpt` print.
pub data Report : Type 0 where
  no_disk read_fail no_signature : Report
  partitions : List (ℕ × (ℕ × (ℕ × ℕ))) → Report
  header_only : Report
  extent : (start end : ℕ) → Report

-- the entries from `i` on that have a type, `n` left: number, type, first sector, size
abbrev pub entries_from : (n i : ℕ) → Memory → List (ℕ × (ℕ × (ℕ × ℕ)))
entries_from zero i s = []
entries_from (suc n) i s =
    let e = 446 + i * 16 in
    let rest = entries_from n (i + 1) s in
    if s (e + 4) == 0 then rest else (i, (s (e + 4), (load32 s (e + 8), load32 s (e + 12)))) ∷ rest

module _ {D : Type 0} (ata : Ata D) where
  unfoldable pub part_create_mbr_fat32 : (start size : ℕ) → D → Bool × D
  part_create_mbr_fat32 start size d =
      if not (ata.present d)
      then (false, d)
      else ata.write 0
          (mbr_sector (default_below 1 2048 start) (default_below 1 262144 size)
            (bootstrap (ata.read 0 d)))
          d

  -- From the first write on; each write is done only if those before went well.
  unfoldable pub write_gpt : (start size : ℕ) → D → Bool × D
  write_gpt start size d =
      let last = u32 (start + size + (2 ^ 32 - 1)) in
      let mbr = ata.write 0 protective_mbr d in
      let sector = entry_sector start last in
      let entry = ata.write 2 sector mbr.1 in
      let body = header_body start size last (crc32 sector 128) in
      let header = ata.write 1 (set32 16 (crc32 body 92) body) entry.1 in
      if not mbr.0 then (false, mbr.1) else if not entry.0 then (false, entry.1) else header

  unfoldable pub part_create_gpt_fat32 : (start size : ℕ) → D → Bool × D
  part_create_gpt_fat32 start size d =
      if not (ata.present d)
      then (false, d)
      else write_gpt (default_below 34 2048 start) (default_below 1 262144 size) d

  abbrev pub report_mbr : Option Memory → Report
  report_mbr none = read_fail
  report_mbr (some s) =
      if not (s 510 == 0x55 && s 511 == 0xAA) then no_signature else partitions (entries_from 4 0 s)

  unfoldable pub part_print_mbr : D → Report
  part_print_mbr d = if not (ata.present d) then no_disk else report_mbr (ata.read 0 d)

  abbrev pub report_entry : Option Memory → Report
  report_entry none = header_only
  report_entry (some s) = extent (load32 s 32) (load32 s 40)

  abbrev pub report_gpt : D → Option Memory → Report
  report_gpt d none = read_fail
  report_gpt d (some s) =
      if not (s 0 == b'E' && s 1 == b'F' && s 2 == b'I')
      then no_signature
      else report_entry (ata.read (load32 s 72) d)

  unfoldable pub part_print_gpt : D → Report
  part_print_gpt d = if not (ata.present d) then no_disk else report_gpt d (ata.read 1 d)
