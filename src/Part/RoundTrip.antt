-- ===== src/Part/RoundTrip.antt =====
-- The tables that src/part.c writes are those that it prints.
use mykernel.Base.{
  ℕ, zero, suc, ◌+◌, ◌-◌, ◌*◌, ◌/◌, ◌%◌, ◌^◌, ◌≤◌, ◌<◌, ◌≡◌, ◌≢◌, inl, inr, refl, sym, ap, ◌∙◌,
  true, false, not, some, [], ◌∷◌, arith, u32, if◌then◌else◌, Memory, load32, Bool-cases,
}
use mykernel.Part.{
  Ata, IsDisk, partitions, extent, bootstrap, mbr_sector, default_below, entries_from, entry_sector,
  header_body, protective_mbr, set32, crc32, write_gpt, report_mbr, report_gpt,
  part_create_mbr_fat32, part_create_gpt_fat32, part_print_mbr, part_print_gpt,
}

-- two sectors with the same 512 bytes
abbrev Same : Memory → Memory → Type 0
Same t s = (x : ℕ) → x < 512 → t x ≡ s x

join_bytes :
    (v : ℕ)
    → v < 2 ^ 32
    → v % 256
        + 2 ^ 8 * (v / 2 ^ 8 % 256)
        + 2 ^ 16 * (v / 2 ^ 16 % 256)
        + 2 ^ 24 * (v / 2 ^ 24 % 256)
      ≡ v
join_bytes v lt = omega arith

load32-Same : (t s : Memory) → Same t s → (a : ℕ) → a + 3 < 512 → load32 t a ≡ load32 s a
load32-Same t s same a lt =
    rw
      (
        same a (omega arith),
        same (a + 1) (omega arith),
        same (a + 2) (omega arith),
        same (a + 3) (omega arith),
      )
      refl

entries_from-Same :
    (t s : Memory) → Same t s → (n i : ℕ) → i + n ≤ 4 → entries_from n i t ≡ entries_from n i s
entries_from-Same t s same zero i le = refl
entries_from-Same t s same (suc n) i le =
    let e = 446 + i * 16 in
    let rest = entries_from-Same t s same n (i + 1) (omega arith) in
    let lba = load32-Same t s same (e + 8) (omega arith) in
    let size = load32-Same t s same (e + 12) (omega arith) in
    rw (same (e + 4) (omega arith), rest, lba, size) refl

one_ne_two : ◌≢◌ {A = ℕ} 1 2
one_ne_two e = absurd (omega (arith, e))

module _ {D : Type 0} (ata : Ata D) where
  report_mbr-Same : (t s : Memory) → Same t s → report_mbr ata (some t) ≡ report_mbr ata (some s)
  report_mbr-Same t s same =
      rw
        (
          same 510 (omega arith),
          same 511 (omega arith),
          entries_from-Same t s same 4 0 (omega arith),
        )
        refl

  report_mbr-sector :
      (start size : ℕ) (boot : Memory)
      → start < 2 ^ 32
      → size < 2 ^ 32
      → report_mbr ata (some (mbr_sector start size boot))
        ≡ partitions ((0, (0x0C, (start, size))) ∷ [])
  report_mbr-sector start size boot lt lt' =
      let e = join_bytes start lt in let f = join_bytes size lt' in rw (e, f) refl

  -- On a disk, a table that was written by `part_create_mbr_fat32` is printed as one FAT32 partition
  -- with the sectors that were asked for, which are not 0.
  pub part_print_mbr-create :
      (start size : ℕ) (d : D)
      → IsDisk ata
      → ata.present d ≡ true
      → 1 ≤ start
      → start < 2 ^ 32
      → 1 ≤ size
      → size < 2 ^ 32
      → (part_create_mbr_fat32 ata start size d).0 ≡ true
      → part_print_mbr ata (part_create_mbr_fat32 ata start size d).1
        ≡ partitions ((0, (0x0C, (start, size))) ∷ [])
  unfolding part_create_mbr_fat32 part_print_mbr
  part_print_mbr-create start size d disk here some_start lt some_size lt' ok =
      let s = mbr_sector start size (bootstrap (ata.read 0 d)) in
      let a : default_below 1 2048 start ≡ start = ground arith in
      let b : default_below 1 262144 size ≡ size = ground arith in
      let run : part_create_mbr_fat32 ata start size d ≡ ata.write 0 s d =
        rw (here, a, b, part_create_mbr_fat32) refl in
      let (t, r, same) = disk.read_written 0 s d (ap (λ w. w.0) (sym run) ∙ ok) in
      let there = disk.stays 0 s d ∙ here in
      ap (λ w. part_print_mbr ata w.1) run
      ∙ rw (there, r, part_print_mbr)
          (report_mbr-Same t s same
            ∙ report_mbr-sector start size (bootstrap (ata.read 0 d)) lt lt')

  gpt_sector :
      (start last size crc : ℕ)
      → (d : D) (t u : Memory)
      → Same t (set32 16 crc (header_body start size last (crc32 (entry_sector start last) 128)))
      → Same u (entry_sector start last)
      → ata.read 2 d ≡ some u
      → start < 2 ^ 32
      → last < 2 ^ 32
      → report_gpt ata d (some t) ≡ extent start last
  gpt_sector start last size crc d t u same same' r lt lt' =
      let where_entry : load32 t 72 ≡ 2 = load32-Same t _ same 72 (omega arith) in
      let from : load32 u 32 ≡ start =
        load32-Same u _ same' 32 (omega arith) ∙ join_bytes start lt in
      let to : load32 u 40 ≡ last = load32-Same u _ same' 40 (omega arith) ∙ join_bytes last lt' in
      rw (same 0 (omega arith), same 1 (omega arith), same 2 (omega arith), where_entry, r)
        (rw (from, to) refl)

  -- On a disk, a partition that was written by `part_create_gpt_fat32` is printed from its first
  -- sector, which is 34 or more, to its last; its size is not 0 and it ends below 2^32.
  pub part_print_gpt-create :
      (start size : ℕ) (d : D)
      → IsDisk ata
      → ata.present d ≡ true
      → 34 ≤ start
      → 1 ≤ size
      → start + size < 2 ^ 32
      → (part_create_gpt_fat32 ata start size d).0 ≡ true
      → part_print_gpt ata (part_create_gpt_fat32 ata start size d).1
        ≡ extent start (start + size - 1)
  unfolding part_create_gpt_fat32 part_print_gpt write_gpt
  part_print_gpt-create start size d disk here low some_size lt ok =
      let last = start + size - 1 in
      let a : default_below 34 2048 start ≡ start = ground arith in
      let b : default_below 1 262144 size ≡ size = ground arith in
      let end : u32 (start + size + (2 ^ 32 - 1)) ≡ last = omega arith in
      let sector = entry_sector start last in
      let body = header_body start size last (crc32 sector 128) in
      let head = set32 16 (crc32 body 92) body in
      let mbr = ata.write 0 protective_mbr d in
      let entry = ata.write 2 sector mbr.1 in
      let header = ata.write 1 head entry.1 in
      let run : part_create_gpt_fat32 ata start size d ≡ (
          if not mbr.0 then (false, mbr.1) else if not entry.0 then (false, entry.1) else header) =
        rw (here, a, b, end, part_create_gpt_fat32, write_gpt) refl in
      let well = ap (λ w. w.0) (sym run) ∙ ok in
      elim (Bool-cases mbr.0) [
        | inr bad ↦ let no : false ≡ true = rw bad at well in absurd (ground arith)
        | inl good ↦ elim (Bool-cases entry.0) [
          | inr bad ↦ let no : false ≡ true = rw (good, bad) at well in absurd (ground arith)
          | inl good' ↦
              let good'' : header.0 ≡ true = rw (good, good') at well in
              let same_run : part_create_gpt_fat32 ata start size d ≡ header =
                run ∙ rw (good, good') refl in
              let (t, r, same) = disk.read_written 1 head entry.1 good'' in
              let (u, r', same') = disk.read_written 2 sector mbr.1 good' in
              let kept = disk.read_other 1 2 head entry.1 one_ne_two ∙ r' in
              let there =
                disk.stays 1 head entry.1
                ∙ disk.stays 2 sector mbr.1
                ∙ disk.stays 0 protective_mbr d
                ∙ here in
              ap (λ w. part_print_gpt ata w.1) same_run
              ∙ rw (there, r, part_print_gpt)
                  (gpt_sector start last size (crc32 body 92) header.1 t u same same' kept
                    (omega arith) (omega arith))
        ]
      ]
