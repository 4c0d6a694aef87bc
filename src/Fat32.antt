-- ===== src/Fat32.antt =====
-- src/fat32.c: the volume, its sectors and the file allocation table.
-- The disk of src/ata.c is the interface `Ata` of Part; a transfer of several sectors goes sector by
-- sector. Both buffers are filled before they are used, so they are local to the functions here.
pub mod Names
pub mod Directory
pub mod Files
pub mod Changes
pub mod Volumes
pub mod Mounts
pub mod Formats
pub mod Shown
mod Tests
pub mod Entries
pub mod Copies
pub mod Sets
pub mod Chains
use mykernel.Base.{
  ℕ, zero, suc, ◌+◌, ◌-◌, ◌*◌, ◌/◌, ◌%◌, ◌^◌, Bool, true, false, ◌&&◌, Option, none, some, leb, ltb,
  ◌==◌, u32, if◌then◌else◌, Memory, store_bytes, bytes32, load32,
}
use mykernel.Part.{Ata}

-- the static variables, apart from the buffers
pub record Volume : Type 0 where
  pub mounted : Bool
  pub partition_lba : ℕ
  pub fat_start : ℕ
  pub data_start : ℕ
  pub root_cluster : ℕ
  pub sectors_per_cluster : ℕ
  pub fat_size_sectors : ℕ
  pub num_fats : ℕ
  pub total_clusters : ℕ

abbrev pub sector_size : ℕ
sector_size = 512

-- the last cluster of a chain, and what `fat_get` gives when the disk fails
abbrev pub end_of_chain : ℕ
end_of_chain = 0x0FFFFFFF

abbrev pub bad_cluster : ℕ
bad_cluster = 0x0FFFFFF7

-- the test of the loops over a chain
abbrev pub in_chain : ℕ → Bool
in_chain cluster = leb 2 cluster && ltb cluster 0x0FFFFFF8

abbrev pub entry_offset : ℕ → ℕ
entry_offset cluster = u32 (cluster * 4) % sector_size

-- the sector of an entry in the copy `f` of the table
abbrev pub entry_lba : Volume → (f cluster : ℕ) → ℕ
entry_lba v f cluster =
    u32 (v.partition_lba + (v.fat_start + u32 (cluster * 4) / sector_size + f * v.fat_size_sectors))

abbrev pub cluster_to_lba : Volume → ℕ → ℕ
cluster_to_lba v cluster = u32 (v.data_start + u32 (cluster + (2 ^ 32 - 2)) * v.sectors_per_cluster)

-- the entry of 28 bits in its sector
abbrev pub entry_value : ℕ → Memory → ℕ
entry_value cluster s = load32 s (entry_offset cluster) % 2 ^ 28

-- the new entry, which keeps the four high bits of the old one
abbrev pub new_entry : (old value : ℕ) → ℕ
new_entry old value = old / 2 ^ 28 % 16 * 2 ^ 28 + value % 2 ^ 28

abbrev pub put_entry : (cluster value : ℕ) → Memory → Memory
put_entry cluster value s =
    store_bytes (entry_offset cluster) (bytes32 (new_entry (load32 s (entry_offset cluster)) value))
      s

module _ {D : Type 0} (ata : Ata D) (v : Volume) where
  abbrev pub value_in : ℕ → Option Memory → ℕ
  value_in cluster none = bad_cluster
  value_in cluster (some s) = entry_value cluster s

  unfoldable pub fat_get : ℕ → D → ℕ
  fat_get cluster d = value_in cluster (ata.read (entry_lba v 0 cluster) d)

  -- a write, and the rest of the loop if it succeeds
  abbrev pub go_on : Bool × D → (D → Bool × D) → Bool × D
  go_on (true, d) loop = loop d
  go_on (false, d) loop = (false, d)

  abbrev pub set_in : (f cluster value : ℕ) → Option Memory → (D → Bool × D) → D → Bool × D
  set_in f cluster value none loop d = (false, d)
  set_in f cluster value (some s) loop d =
      go_on (ata.write (entry_lba v f cluster) (put_entry cluster value s) d) loop

  -- the copies of the table from `f` on
  unfoldable pub set_copies : (n f cluster value : ℕ) → D → Bool × D
  set_copies zero f cluster value d = (true, d)
  set_copies (suc n) f cluster value d =
      set_in f cluster value (ata.read (entry_lba v f cluster) d)
        (set_copies n (f + 1) cluster value) d

  unfoldable pub fat_set : (cluster value : ℕ) → D → Bool × D
  fat_set cluster value d = set_copies v.num_fats 0 cluster value d

  -- the cluster, if its entry could be written
  abbrev pub claimed : ℕ → Bool × D → ℕ × D
  claimed c (true, d) = (c, d)
  claimed c (false, d) = (0, d)

  unfoldable pub alloc_from : (n c : ℕ) → D → ℕ × D
  alloc_from zero c d = (0, d)
  alloc_from (suc n) c d = elim (fat_get c d == 0) [
    | true ↦ claimed c (fat_set c end_of_chain d)
    | false ↦ alloc_from n (c + 1) d
  ]

  unfoldable pub fat_alloc_cluster : D → ℕ × D
  fat_alloc_cluster d = alloc_from (u32 (v.total_clusters + 2) - 2) 2 d

  abbrev pub freed : Bool × D → (D → Option (Bool × D)) → Option (Bool × D)
  freed (true, d) loop = loop d
  freed (false, d) loop = some (false, d)

  -- One unit of fuel for each cluster.
  unfoldable pub free_from : (fuel cluster : ℕ) → D → Option (Bool × D)
  free_from zero cluster d = none
  free_from (suc n) cluster d = elim (in_chain cluster) [
    | true ↦ freed (fat_set cluster 0 d) (free_from n (fat_get cluster d))
    | false ↦ some (true, d)
  ]

  -- There are fewer clusters than that.
  unfoldable pub fat_free_chain : ℕ → D → Option (Bool × D)
  fat_free_chain cluster d = free_from (2 ^ 28) cluster d
