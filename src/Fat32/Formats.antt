-- ===== src/Fat32/Formats.antt =====
-- fat32_mkfs and fat32_mount of src/fat32.c together: the volume that is made is the one that is
-- mounted.
use mykernel.Base.{
  ℕ, ◌+◌, ◌-◌, ◌*◌, ◌/◌, ◌%◌, ◌^◌, ◌<◌, ◌≤◌, ◌≡◌, ◌≢◌, refl, sym, ap, ◌∙◌, Bool, true, false, some,
  arith, ltb, ◌==◌, u32, if◌then◌else◌, Memory, load16, load32,
}
use mathlib.Core.Path.{subst}
use mykernel.Part.{Ata, IsDisk}
use mykernel.Fat32.{Volume}
use mykernel.Fat32.Files.{fat_ok, Ending, ends}
use mykernel.Fat32.Volumes.{
  is_mountable, with_geometry, mount_sector, try_mount_at, fat32_mount, mkfs_size, mkfs_fat_sz,
  boot_sector, or_stop, make_volume, is_ok, made, fat32_mkfs, fat32_set_partition_lba,
}
use mykernel.Fat32.Mounts.{Kept, after_boot}

-- The volume that mkfs makes, as it is mounted.
abbrev pub mkfs_volume : (lba size : ℕ) → Volume
mkfs_volume lba size =
    let fat_sz : ℕ = mkfs_fat_sz size in
    record {
      mounted = true;
      partition_lba = lba;
      fat_start = 32;
      data_start = 32 + 2 * fat_sz;
      root_cluster = 2;
      sectors_per_cluster = 8;
      fat_size_sectors = fat_sz;
      num_fats = 2;
      total_clusters = (size - (32 + 2 * fat_sz)) / 8;
    }

fat_sz-bounds :
    (size : ℕ) → 2048 ≤ size → (1 ≤ mkfs_fat_sz size) × (32 + 2 * mkfs_fat_sz size < size)
fat_sz-bounds size big = (ground arith, ground arith)

word :
    (x : ℕ)
    → x < 2 ^ 32
    → x % 256
        + 2 ^ 8 * (x / 2 ^ 8 % 256)
        + 2 ^ 16 * (x / 2 ^ 16 % 256)
        + 2 ^ 24 * (x / 2 ^ 24 % 256)
      ≡ x
word x lt = omega arith

-- the two facts that a mount takes from the sector
abbrev Geometry : Memory → Volume → Volume → Type 0
Geometry s v w = (is_mountable s ≡ true) × (with_geometry s v ≡ w)

module _ (lba size : ℕ) (v : Volume) (big : 2048 ≤ size) (small : size < 2 ^ 32) where
  abbrev unmounted : Volume
  unmounted = record v { partition_lba = lba; mounted = false }

  boot-Geometry :
      (fat_sz : ℕ)
      → 1 ≤ fat_sz
      → 32 + 2 * fat_sz < size
      → Geometry (boot_sector lba size fat_sz) unmounted (record {
        mounted = false;
        partition_lba = lba;
        fat_start = 32;
        data_start = 32 + 2 * fat_sz;
        root_cluster = 2;
        sectors_per_cluster = 8;
        fat_size_sectors = fat_sz;
        num_fats = 2;
        total_clusters = (size - (32 + 2 * fat_sz)) / 8;
      })
  boot-Geometry fat_sz some_sector room =
      let size_word = word size small in
      let fat_word = word fat_sz (omega arith) in
      let nonzero : (fat_sz == 0) ≡ false = ground arith in
      let start : u32 (32 + 2 * fat_sz) ≡ 32 + 2 * fat_sz = omega arith in
      let more : ltb (32 + 2 * fat_sz) size ≡ true = ground arith in
      (rw (fat_word, nonzero) refl, rw (fat_word, size_word, start, more) refl)

-- It depends on the bytes of the sector only.
Geometry-same :
    (t s : Memory) (v w : Volume)
    → ((x : ℕ) → x < 512 → t x ≡ s x)
    → Geometry s v w
    → Geometry t v w
Geometry-same t s v w same h =
    let two : (a : ℕ) → a + 1 < 512 → load16 t a ≡ load16 s a =
      λ a lt. rw (same a (omega arith), same (a + 1) lt) refl in
    let four : (a : ℕ) → a + 3 < 512 → load32 t a ≡ load32 s a = λ a lt.
      rw
        (
          same a (omega arith),
          same (a + 1) (omega arith),
          same (a + 2) (omega arith),
          same (a + 3) lt,
        )
        refl in
    let sector = two 11 (omega arith) in
    let reserved = two 14 (omega arith) in
    let total = two 19 (omega arith) in
    let total32 = four 32 (omega arith) in
    let table = four 36 (omega arith) in
    let root = four 44 (omega arith) in
    let cluster = same 13 (omega arith) in
    let fats = same 16 (omega arith) in
    (rw (sector, table, cluster) h.0, rw (reserved, total, total32, table, root, cluster, fats) h.1)

module _ {D : Type 0} (ata : Ata D) where
  -- a mount of the sector at the place that is set
  mount-Geometry :
      (ata_init : D → Bool × D) (lba : ℕ) (v w : Volume) (d : D) (t : Memory)
      → ata.present d ≡ true
      → lba ≢ 0
      → ata.read lba d ≡ some t
      → Geometry t (fat32_set_partition_lba lba v) w
      → fat32_mount ata ata_init (fat32_set_partition_lba lba v) d
        ≡ (fat_ok, record w { mounted = true }, d)
  unfolding fat32_mount try_mount_at
  mount-Geometry ata_init lba v w d t here ne read h =
      let place : (lba == 0) ≡ false = ground (arith, ne) in
      let sector : mount_sector (ata.read lba d) (fat32_set_partition_lba lba v) ≡ (true, w) =
        ap (λ o. mount_sector o (fat32_set_partition_lba lba v)) read ∙ rw (h.0, h.1) refl in
      rw (here, place, sector) refl

  made-fat_ok :
      (r : Ending D) (lba : ℕ) (v v' : Volume) (d' : D)
      → made ata r lba v ≡ (ends fat_ok d', v')
      → (r ≡ ends fat_ok d') × (v' ≡ fat32_set_partition_lba lba v)
  made-fat_ok r lba v v' d' e =
      let done = ap (λ x. x.0) e in
      (
        done,
        sym (ap (λ x. x.1) e)
            ∙ ap (λ x. if is_ok ata x then fat32_set_partition_lba lba v else v) done,
      )

  or_stop-ok :
      (w : Bool × D) (next : D → Ending D) (d' : D)
      → or_stop ata w next ≡ ends fat_ok d'
      → w.0 ≡ true
  or_stop-ok (true, d) next d' e = refl
  or_stop-ok (false, d) next d' e =
      let wrong : false ≡ true = ap (is_ok ata) e in absurd (ground (arith, wrong))

  -- the boot sector behind a run of mkfs
  boot_read :
      (disk : IsDisk ata) (lba size fat_sz : ℕ) (d d' : D)
      → make_volume ata lba size fat_sz d ≡ ends fat_ok d'
      → (t : Memory) × (ata.read lba d' ≡ some t)
        × ((x : ℕ) → x < 512 → t x ≡ boot_sector lba size fat_sz x)
  unfolding make_volume
  boot_read disk lba size fat_sz d d' run =
      let w = ata.write lba (boot_sector lba size fat_sz) d in
      let ok = or_stop-ok w _ d' run in
      let (t, read, bytes) = disk.read_written lba (boot_sector lba size fat_sz) d ok in
      let kept = after_boot ata disk lba size fat_sz d w refl t read ok in
      (t, (subst (Kept ata disk lba (some t)) run kept).kept, bytes)

  -- A volume that was made is mounted, with two tables behind 32 reserved sectors, clusters of eight
  -- sectors and the root directory in the first of them. It is made at a sector other than 0, with
  -- at least 2048 and fewer than 2^32 sectors, and the disk is there.
  pub fat32_mount-fat32_mkfs :
      (ata_init : D → Bool × D) (lba size : ℕ) (v v' : Volume) (d d' : D)
      → IsDisk ata
      → ata.present d ≡ true
      → ata.present d' ≡ true
      → lba ≢ 0
      → 2048 ≤ size
      → size < 2 ^ 32
      → fat32_mkfs ata lba size v d ≡ (ends fat_ok d', v')
      → fat32_mount ata ata_init v' d' ≡ (fat_ok, mkfs_volume lba size, d')
  unfolding fat32_mkfs
  fat32_mount-fat32_mkfs ata_init lba size v v' d d' disk here still ne big small run =
      let fat_sz = mkfs_fat_sz size in
      let same_size : mkfs_size size ≡ size = ground arith in
      let (some_sector, room) = fat_sz-bounds size big in
      let made_it : made ata (make_volume ata lba size fat_sz d) lba v ≡ (ends fat_ok d', v') =
        ap (λ n. made ata (make_volume ata lba n (mkfs_fat_sz n) d) lba v) (sym same_size)
        ∙ sym (rw here refl)
        ∙ run in
      let (ok, place) = made-fat_ok (make_volume ata lba size fat_sz d) lba v v' d' made_it in
      let (t, read, bytes) = boot_read disk lba size fat_sz d d' ok in
      let w : Volume = record (mkfs_volume lba size) { mounted = false } in
      let geometry =
        Geometry-same t (boot_sector lba size fat_sz) (fat32_set_partition_lba lba v) w bytes
          (boot-Geometry lba size v big small fat_sz some_sector room) in
      ap (λ x. fat32_mount ata ata_init x d') place
      ∙ mount-Geometry ata_init lba v w d' t still ne read geometry
