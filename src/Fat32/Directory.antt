-- ===== src/Fat32/Directory.antt =====
-- src/fat32.c: clusters, the entries of directories, and the search for an entry or a free place.
use mykernel.Base.{
  ℕ, zero, suc, ◌+◌, ◌-◌, ◌*◌, ◌/◌, ◌%◌, ◌^◌, Bool, true, false, ◌&&◌, ◌||◌, not, Option, none,
  some, List, [], ◌∷◌, ◌++◌, leb, ltb, ◌==◌, u32, if◌then◌else◌, Memory, load_bytes, load16, load32,
}
use mykernel.Part.{Ata, blank}
use mykernel.Fat32.{Volume, in_chain, cluster_to_lba, fat_get, fat_set, fat_alloc_cluster}
use mykernel.Fat32.Names.{name_to_83, name_from_83, same_name}
use mykernel.Mylang.Command.{write_uint}

-- `struct fat_dirent`, the fields that are used
pub record Dirent : Type 0 where
  pub name : List ℕ
  pub attr : ℕ
  pub first_cluster_hi : ℕ
  pub first_cluster_lo : ℕ
  pub file_size : ℕ

abbrev pub dirent_at : Memory → ℕ → Dirent
dirent_at buf off = record {
  name = load_bytes 11 off buf;
  attr = buf (off + 11);
  first_cluster_hi = load16 buf (off + 20);
  first_cluster_lo = load16 buf (off + 26);
  file_size = load32 buf (off + 28);
}

abbrev pub first_cluster : Dirent → ℕ
first_cluster de = de.first_cluster_hi * 2 ^ 16 + de.first_cluster_lo

abbrev pub is_volume_id : Dirent → Bool
is_volume_id de = de.attr / 8 % 2 == 1

abbrev pub is_directory : Dirent → Bool
is_directory de = de.attr / 16 % 2 == 1

abbrev pub is_lfn : Dirent → Bool
is_lfn de = de.attr == 0x0F

abbrev pub dirent_match : Dirent → List ℕ → Bool
dirent_match de name = same_name de.name (name_to_83 name)

-- The end of a walk over the entries of a cluster, or how it goes on.
pub data Scan (C : Type 0) : Type 0 where
  stops : ℕ → C → Scan C
  goes_on : C → Scan C

-- what `iterate_dir` returns: the result of the callback, -1, or nothing at all
pub data Visit (C : Type 0) : Type 0 where
  visited : ℕ → C → Visit C
  read_error : Visit C
  endless : Visit C

module _ {C : Type 0} (fn : Dirent → C → ℕ × C) where
  abbrev pub after_call : ℕ × C → (C → Scan C) → Scan C
  after_call (zero, ctx) loop = loop ctx
  after_call (suc r, ctx) loop = stops (suc r) ctx

  -- `n` entries from `off` on
  unfoldable pub scan_entries : (n off : ℕ) → Memory → C → Scan C
  scan_entries zero off buf ctx = goes_on ctx
  scan_entries (suc n) off buf ctx =
      let de = dirent_at buf off in
      elim (buf off == 0) [
        | true ↦ stops 0 ctx
        | false ↦ elim (buf off == 0xE5 || is_lfn de || is_volume_id de) [
          | true ↦ scan_entries n (off + 32) buf ctx
          | false ↦ after_call (fn de ctx) (scan_entries n (off + 32) buf)
        ]
      ]

abbrev pub find_cb : List ℕ → Dirent → Option Dirent → ℕ × Option Dirent
find_cb name de ctx = if dirent_match de name then (1, some de) else (0, ctx)

-- what is written for an entry
abbrev pub ls_cb : Dirent → List ℕ → ℕ × List ℕ
ls_cb de screen =
    let name = name_from_83 de.name in
    (
      0,
      screen
          ++ (if is_directory de
              then b' '
                ∷ b' '
                ∷ b'['
                ∷ b'D'
                ∷ b'I'
                ∷ b'R'
                ∷ b']'
                ∷ b' '
                ∷ b' '
                ∷ (name ++ b'\n' ∷ [])
              else b' '
                ∷ b' '
                ∷ b'['
                ∷ b'F'
                ∷ b'I'
                ∷ b'L'
                ∷ b'E'
                ∷ b']'
                ∷ b' '
                ∷ (name
                    ++ b' '
                      ∷ b' '
                      ∷ (write_uint de.file_size
                          ++ b' ' ∷ b'b' ∷ b'y' ∷ b't' ∷ b'e' ∷ b's' ∷ b'\n' ∷ []))),
    )

-- The place of an entry: one with the name, a free one, or the codes -2 and -1.
pub data Slot : Type 0 where
  existing : (cluster offset : ℕ) → Dirent → Slot
  free_slot : (cluster offset : ℕ) → Slot
  no_slot : Slot
  slot_error : Slot
  slot_endless : Slot

-- the walk over a cluster in `find_slot_in_root`
pub data Search : Type 0 where
  matches : ℕ → Dirent → Search
  first_unused : ℕ → Search
  no_match : Option (ℕ × ℕ) → Search

-- the first free place that was seen
abbrev pub or_place : Option (ℕ × ℕ) → ℕ × ℕ → Option (ℕ × ℕ)
or_place (some place) new = some place
or_place none new = some new

abbrev pub is_none : Option (ℕ × ℕ) → Bool
is_none none = true
is_none (some place) = false

unfoldable pub search_slots : (n off cluster : ℕ) (want : List ℕ) → Memory → Option (ℕ × ℕ) → Search
search_slots zero off cluster want buf place = no_match place
search_slots (suc n) off cluster want buf place =
    let de = dirent_at buf off in
    let free : Bool = buf off == 0 || buf off == 0xE5 in
    elim (not free && not (is_lfn de) && not (is_volume_id de) && same_name de.name want) [
      | true ↦ matches off de
      | false ↦ elim (is_none place && buf off == 0) [
        | true ↦ first_unused off
        | false ↦
            search_slots n (off + 32) cluster want buf
              (if free then or_place place (cluster, off) else place)
      ]
    ]

module _ {D : Type 0} (ata : Ata D) where
  -- `ata_read_sectors(lba, n, buf)`
  abbrev pub read_sectors : (n lba : ℕ) → D → Option Memory
  read_sectors zero lba d = some blank
  read_sectors (suc n) lba d = elim (ata.read lba d) [
    | none ↦ none
    | some s ↦ elim (read_sectors n (lba + 1) d) [
      | none ↦ none
      | some rest ↦ some (λ x. if ltb x 512 then s x else rest (x - 512))
    ]
  ]

  abbrev pub then_write : Bool × D → (D → Bool × D) → Bool × D
  then_write (true, d) loop = loop d
  then_write (false, d) loop = (false, d)

  -- `ata_write_sectors(lba, n, buf)`
  abbrev pub write_sectors : (n lba : ℕ) → Memory → D → Bool × D
  write_sectors zero lba buf d = (true, d)
  write_sectors (suc n) lba buf d =
      then_write (ata.write lba buf d) (write_sectors n (lba + 1) (λ x. buf (x + 512)))

  module _ (v : Volume) where
    unfoldable pub read_cluster : ℕ → D → Option Memory
    read_cluster cluster d =
        if v.sectors_per_cluster == 0
        then none
        else read_sectors v.sectors_per_cluster (u32 (v.partition_lba + cluster_to_lba v cluster)) d

    unfoldable pub write_cluster : ℕ → Memory → D → Bool × D
    write_cluster cluster buf d =
        if v.sectors_per_cluster == 0
        then (false, d)
        else write_sectors v.sectors_per_cluster (u32 (v.partition_lba + cluster_to_lba v cluster))
            buf d

    -- the number of entries in a cluster
    abbrev pub entries_per_cluster : ℕ
    entries_per_cluster = v.sectors_per_cluster * 512 / 32

    -- One unit of fuel for each cluster; the loop of a cyclic chain without an end does not stop.
    unfoldable pub iterate_from :
        {C : Type 0} → (fuel : ℕ) → (Dirent → C → ℕ × C) → (cluster : ℕ) → C → D → Visit C
    iterate_from zero fn cluster ctx d = endless
    iterate_from (suc n) fn cluster ctx d = elim (in_chain cluster) [
      | false ↦ visited 0 ctx
      | true ↦ elim (read_cluster cluster d) [
        | none ↦ read_error
        | some buf ↦ elim (scan_entries fn entries_per_cluster 0 buf ctx) [
          | stops r ctx' ↦ visited r ctx'
          | goes_on ctx' ↦ iterate_from n fn (fat_get ata v cluster d) ctx' d
        ]
      ]
    ]

    unfoldable pub iterate_dir : {C : Type 0} → (Dirent → C → ℕ × C) → ℕ → C → D → Visit C
    iterate_dir fn start ctx d = iterate_from (2 ^ 28) fn start ctx d

    -- a new cluster behind the last one of the root directory
    abbrev pub cleared_slot : (new : ℕ) → Bool × D → Slot × D
    cleared_slot new (false, d) = (slot_error, d)
    cleared_slot new (true, d) = (free_slot new 0, d)

    abbrev pub linked_slot : (new : ℕ) → Bool × D → Slot × D
    linked_slot new (false, d) = (slot_error, d)
    linked_slot new (true, d) = cleared_slot new (write_cluster new blank d)

    abbrev pub extend_with : (cluster : ℕ) → ℕ × D → Slot × D
    extend_with cluster (zero, d) = (no_slot, d)
    extend_with cluster (suc c, d) = linked_slot (suc c) (fat_set ata v cluster (suc c) d)

    unfoldable pub extend_root : (cluster : ℕ) → D → Slot × D
    extend_root cluster d = extend_with cluster (fat_alloc_cluster ata v d)

    abbrev pub slot_of : Option (ℕ × ℕ) → Slot × D → Slot × D
    slot_of none otherwise = otherwise
    slot_of (some (cluster, offset)) (s, d) = (free_slot cluster offset, d)

    unfoldable pub slot_from : (fuel cluster : ℕ) (want : List ℕ) → Option (ℕ × ℕ) → D → Slot × D
    slot_from zero cluster want place d = (slot_endless, d)
    slot_from (suc n) cluster want place d = elim (in_chain cluster) [
      | false ↦ slot_of place (no_slot, d)
      | true ↦ elim (read_cluster cluster d) [
        | none ↦ (slot_error, d)
        | some buf ↦ elim (search_slots entries_per_cluster 0 cluster want buf place) [
          | matches offset de ↦ (existing cluster offset de, d)
          | first_unused offset ↦ (free_slot cluster offset, d)
          | no_match none ↦ elim (leb 0x0FFFFFF8 (fat_get ata v cluster d)) [
            | true ↦ extend_root cluster d
            | false ↦ slot_from n (fat_get ata v cluster d) want none d
          ]
          | no_match (some here) ↦ elim (leb 0x0FFFFFF8 (fat_get ata v cluster d)) [
            | true ↦ (free_slot here.0 here.1, d)
            | false ↦ slot_from n (fat_get ata v cluster d) want (some here) d
          ]
        ]
      ]
    ]

    unfoldable pub find_slot_in_root : List ℕ → D → Slot × D
    find_slot_in_root want d = slot_from (2 ^ 28) v.root_cluster want none d
