-- ===== src/Fat32/Tests.antt =====
-- src/fat32.c on a disk in memory, and its theorems there.
use mykernel.Base.{
  ℕ, ◌+◌, ◌<◌, ◌≡◌, ◌≢◌, refl, true, false, Option, none, some, List, [], ◌∷◌, ◌++◌, arith, ◌==◌,
  if◌then◌else◌, map, Memory,
}
use mykernel.Part.{Ata, IsDisk}
use mykernel.Fat32.{
  Volume, end_of_chain, fat_get, fat_set, set_copies, alloc_from, fat_alloc_cluster, free_from,
  fat_free_chain,
}
use mykernel.Fat32.Entries.{Placed}
use mykernel.Fat32.Sets.{EntrySet, fat_get-fat_set, Reliable}
use mykernel.Fat32.Chains.{
  Linked, AllocOutcome, fat_alloc_cluster-AllocOutcome, Freed, fat_free_chain-Freed,
}
use mykernel.Fat32.Names.{base_part, name_to_83, name_from_83}
use mykernel.Fat32.Directory.{
  scan_entries, search_slots, read_cluster, write_cluster, iterate_from, iterate_dir, slot_from,
  find_slot_in_root,
}
use mykernel.Fat32.Files.{
  FatResult, fat_ok, fat_err_not_found, Ending, ends, never, read_from, fat32_read_file,
}
use mykernel.Fat32.Changes.{write_from, fat32_write, fat32_unlink}
use mykernel.Fat32.Volumes.{
  fat32_mount, fill_sectors, make_tables, make_volume, fat32_mkfs, fat32_set_partition_lba,
}
use mykernel.Fat32.Formats.{mkfs_volume, fat32_mount-fat32_mkfs}
use mykernel.Fat32.Shown.{name_from_83-name_to_83, capital, dotted, Letters}

abbrev Drive : Type 0
Drive = ℕ → Memory

-- A drive that never fails.
abbrev ata : Ata Drive
ata = record {
  present = λ d. true;
  read = λ lba d. some (d lba);
  write = λ lba s d. (true, λ other. if lba == other then s else d other);
}

ata-IsDisk : IsDisk ata
ata-IsDisk = record {
  read_written = λ lba s d ok. (s, ground arith, λ x lt. refl);
  read_other = λ lba other s d ne. ground arith;
  stays = λ lba s d. refl;
}

ata-Reliable : Reliable ata
ata-Reliable = record { reads = λ lba d. (d lba, refl); writes = λ lba s d. refl }

abbrev empty : Drive
empty lba x = 0

-- a small volume with two tables of one sector
abbrev volume : Volume
volume = record {
  mounted = true;
  partition_lba = 0;
  fat_start = 1;
  data_start = 3;
  root_cluster = 2;
  sectors_per_cluster = 1;
  fat_size_sectors = 1;
  num_fats = 2;
  total_clusters = 20;
}

-- its root directory is cluster 2
abbrev formatted : Drive
formatted = (fat_set ata volume 2 end_of_chain empty).1

abbrev name : List ℕ
name = b'a' ∷ b'.' ∷ b't' ∷ b'x' ∷ b't' ∷ []

abbrev text : List ℕ
text = b'h' ∷ b'e' ∷ b'l' ∷ b'l' ∷ b'o' ∷ []

abbrev after_write : Ending Drive → Option (FatResult × List ℕ)
after_write (ends r d) = fat32_read_file ata volume name 100 d
after_write never = none

-- what is written is read
write_read : after_write (fat32_write ata volume name text formatted) ≡ some (fat_ok, text)
unfolding fat32_read_file fat32_write read_from write_from find_slot_in_root slot_from iterate_dir
    iterate_from read_cluster write_cluster search_slots scan_entries name_to_83 base_part
    fat_alloc_cluster alloc_from fat_get fat_set set_copies
write_read = refl

abbrev after_unlink : Ending Drive → Ending Drive
after_unlink (ends r d) = fat32_unlink ata volume name d
after_unlink never = never

-- and no more when it is removed
unlink_read :
    after_write (after_unlink (fat32_write ata volume name text formatted))
    ≡ some (fat_err_not_found, [])
unfolding fat32_read_file fat32_write read_from write_from find_slot_in_root slot_from iterate_dir
    iterate_from read_cluster write_cluster search_slots scan_entries name_to_83 base_part
    fat_alloc_cluster alloc_from fat_get fat_set set_copies fat32_unlink fat_free_chain free_from
unlink_read = refl

volume-Placed : (c : ℕ) → c < 22 → Placed volume c
volume-Placed c lt = record { inside = omega arith; small = omega arith; fits = omega arith }

fat_get-fat_set_example :
    EntrySet ata volume ata-IsDisk 5 7 formatted (fat_set ata volume 5 7 formatted).1
unfolding fat_set set_copies
fat_get-fat_set_example =
    fat_get-fat_set ata volume ata-IsDisk 5 7 formatted (volume-Placed 5 (omega arith))
      (omega arith) refl

fat_alloc_cluster-AllocOutcome_example :
    AllocOutcome ata volume ata-IsDisk formatted (fat_alloc_cluster ata volume formatted)
fat_alloc_cluster-AllocOutcome_example =
    fat_alloc_cluster-AllocOutcome ata volume ata-IsDisk (omega arith) volume-Placed formatted
      (omega arith)

-- cluster 4, then 5
abbrev chained : Drive
chained = (fat_set ata volume 4 5 (fat_set ata volume 5 end_of_chain formatted).1).1

chained-Linked : Linked ata volume chained (4 ∷ 5 ∷ []) 4
unfolding fat_get fat_set set_copies
chained-Linked =
    (refl, refl, volume-Placed 4 (omega arith), (refl, refl, volume-Placed 5 (omega arith), refl))

fat_free_chain-Freed_example :
    (d' : Drive) × (fat_free_chain ata volume 4 chained ≡ some (true, d'))
    × Freed ata volume ata-IsDisk (omega arith) ata-Reliable (4 ∷ 5 ∷ []) chained d'
fat_free_chain-Freed_example =
    fat_free_chain-Freed ata volume ata-IsDisk (omega arith) ata-Reliable (4 ∷ 5 ∷ []) 4 chained
      chained-Linked (refl, (refl, tt)) (omega arith)

apart : (c d : ℕ) → (c == d) ≡ false → c ≢ d
apart c d h e = ground (arith, h, e)

text-Letters : Letters text
text-Letters = (
  apart _ _ refl,
  apart _ _ refl,
  (
    apart _ _ refl,
    apart _ _ refl,
    (
      apart _ _ refl,
      apart _ _ refl,
      (apart _ _ refl, apart _ _ refl, (apart _ _ refl, apart _ _ refl, tt)),
    ),
  ),
)

abbrev txt : List ℕ
txt = b't' ∷ b'x' ∷ b't' ∷ []

txt-Letters : Letters txt
txt-Letters = (
  apart _ _ refl,
  apart _ _ refl,
  (apart _ _ refl, apart _ _ refl, (apart _ _ refl, apart _ _ refl, tt)),
)

name_from_83-name_to_83_example :
    name_from_83 (name_to_83 (text ++ dotted txt)) ≡ map capital text ++ dotted (map capital txt)
name_from_83-name_to_83_example =
    name_from_83-name_to_83 text txt (omega arith) (omega arith) text-Letters txt-Letters

abbrev drive_of : Ending Drive → Drive
drive_of (ends r d) = d
drive_of never = empty

-- a volume of 2048 sectors from sector 1 on
abbrev made_drive : Drive
made_drive = drive_of (fat32_mkfs ata 1 2048 volume empty).0

abbrev made_volume : Volume
made_volume = fat32_set_partition_lba 1 volume

mkfs_runs : fat32_mkfs ata 1 2048 volume empty ≡ (ends fat_ok made_drive, made_volume)
unfolding fat32_mkfs make_volume make_tables fill_sectors
mkfs_runs = refl

fat32_mount-fat32_mkfs_example :
    fat32_mount ata (λ d. (true, d)) made_volume made_drive
    ≡ (fat_ok, mkfs_volume 1 2048, made_drive)
fat32_mount-fat32_mkfs_example =
    fat32_mount-fat32_mkfs ata (λ d. (true, d)) 1 2048 volume made_volume empty made_drive
      ata-IsDisk refl refl (apart 1 0 refl) (omega arith) (omega arith) mkfs_runs

-- The second sector of the first table is empty, that of the second table is not.
tables_differ : (made_drive (1 + 32 + 1) 0 ≡ 0) × (made_drive (1 + 32 + 2 + 1) 0 ≡ 0xF8)
unfolding fat32_mkfs make_volume make_tables fill_sectors
tables_differ = (refl, refl)
