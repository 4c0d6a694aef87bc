-- ===== src/Fat32/Mounts.antt =====
-- A volume that fat32_mkfs of src/fat32.c has made is mounted with its geometry.
use mykernel.Base.{
  ℕ, zero, suc, ◌+◌, ◌*◌, ◌<◌, ◌≡◌, ◌∙◌, Bool, true, false, Option, none, some, arith, Memory,
}
use mykernel.Part.{Ata, IsDisk, blank}
use mykernel.Fat32.Directory.{then_write, write_sectors}
use mykernel.Fat32.Files.{fat_ok, Ending, ends, never}
use mykernel.Fat32.Volumes.{
  boot_sector, fs_info, first_entries, or_stop, fill_sectors, mark_table, make_tables,
}

module _ {D : Type 0} (ata : Ata D) (disk : IsDisk ata) (lba : ℕ) where
  abbrev pub Reads : Option Memory → Ending D → Type 0
  Reads o (ends code d) = ata.read lba d ≡ o
  Reads o never = Unit

  -- wherever it ends, the sector is read as it was
  pub record Kept (o : Option Memory) (r : Ending D) : Type 0 where
    pub kept : Reads o r

  or_stop-Kept :
      (o : Option Memory) (w : Bool × D) (next : D → Ending D)
      → ata.read lba w.1 ≡ o
      → ((d : D) → ata.read lba d ≡ o → Kept o (next d))
      → Kept o (or_stop ata w next)
  or_stop-Kept o (true, d) next e h = h d e
  or_stop-Kept o (false, d) next e h = record { kept = e }

  fill_sectors-Kept :
      (o : Option Memory) (n first : ℕ) (buf : Memory) (d : D) (next : D → Ending D)
      → lba < first
      → ata.read lba d ≡ o
      → ((d' : D) → ata.read lba d' ≡ o → Kept o (next d'))
      → Kept o (fill_sectors ata n first buf d next)
  unfolding fill_sectors
  fill_sectors-Kept o zero first buf d next lt e h = h d e
  fill_sectors-Kept o (suc n) first buf d next lt e h =
      or_stop-Kept o (ata.write first buf d) (λ d'. fill_sectors ata n (first + 1) buf d' next)
        (disk.read_other first lba buf d (λ same. absurd (omega (arith, same))) ∙ e)
        (λ d' e'. fill_sectors-Kept o n (first + 1) buf d' next (omega arith) e' h)

  mark_table-Kept :
      (o : Option Memory) (first : ℕ) (s : Option Memory) (d : D) (next : Memory → D → Ending D)
      → lba < first
      → ata.read lba d ≡ o
      → ((buf : Memory) (d' : D) → ata.read lba d' ≡ o → Kept o (next buf d'))
      → Kept o (mark_table ata first s d next)
  mark_table-Kept o first none d next lt e h = record { kept = e }
  mark_table-Kept o first (some s) d next lt e h =
      let new = first_entries s in
      or_stop-Kept o (ata.write first new d) (next new)
        (disk.read_other first lba new d (λ same. absurd (omega (arith, same))) ∙ e) (h new)

  make_tables-Kept :
      (o : Option Memory) (n first fat_sz : ℕ) (buf : Memory) (d : D) (next : D → Ending D)
      → lba < first
      → ata.read lba d ≡ o
      → ((d' : D) → ata.read lba d' ≡ o → Kept o (next d'))
      → Kept o (make_tables ata n first fat_sz buf d next)
  unfolding make_tables
  make_tables-Kept o zero first fat_sz buf d next lt e h = h d e
  make_tables-Kept o (suc n) first fat_sz buf d next lt e h =
      let rest =
        λ (buf' : Memory) (d' : D). make_tables ata n (first + fat_sz) fat_sz buf' d' next in
      fill_sectors-Kept o fat_sz first buf d
        (λ d'. mark_table ata first (ata.read first d') d' rest) lt e
        (λ d' e'. mark_table-Kept o first (ata.read first d') d' rest lt e' (λ buf' d'' e''.
          make_tables-Kept o n (first + fat_sz) fat_sz buf' d'' next (omega arith) e'' h))

  then_write-keeps :
      (o : Option Memory) (w : Bool × D) (loop : D → Bool × D)
      → ata.read lba w.1 ≡ o
      → ((d : D) → ata.read lba d ≡ o → ata.read lba (loop d).1 ≡ o)
      → ata.read lba (then_write ata w loop).1 ≡ o
  then_write-keeps o (true, d) loop e h = h d e
  then_write-keeps o (false, d) loop e h = e

  write_sectors-keeps :
      (o : Option Memory) (n first : ℕ) (buf : Memory) (d : D)
      → lba < first
      → ata.read lba d ≡ o
      → ata.read lba (write_sectors ata n first buf d).1 ≡ o
  write_sectors-keeps o zero first buf d lt e = e
  write_sectors-keeps o (suc n) first buf d lt e =
      let rest = λ (x : ℕ). buf (x + 512) in
      then_write-keeps o (ata.write first buf d) (write_sectors ata n (first + 1) rest)
        (disk.read_other first lba buf d (λ same. absurd (omega (arith, same))) ∙ e)
        (λ d' e'. write_sectors-keeps o n (first + 1) rest d' (omega arith) e')

  -- The boot sector is there when all is done.
  pub after_boot :
      (size fat_sz : ℕ) (d : D)
      → (w : Bool × D) → ata.write lba (boot_sector lba size fat_sz) d ≡ w
      → (s : Memory) → ata.read lba w.1 ≡ some s
      → w.0 ≡ true
      → Kept (some s) (
          or_stop ata w (λ d₁. or_stop ata (ata.write (lba + 1) fs_info d₁) (λ d₂.
            make_tables ata 2 (lba + 32) fat_sz blank d₂ (λ d₃.
              or_stop ata (write_sectors ata 8 (lba + 32 + 2 * fat_sz) blank d₃) (ends fat_ok)))))
  after_boot size fat_sz d (false, d₁) e s here ok = absurd (ground (arith, ok))
  after_boot size fat_sz d (true, d₁) e s here ok =
      let last = λ (d₃ : D).
        or_stop ata (write_sectors ata 8 (lba + 32 + 2 * fat_sz) blank d₃) (ends fat_ok) in
      or_stop-Kept (some s) (ata.write (lba + 1) fs_info d₁)
        (λ d₂. make_tables ata 2 (lba + 32) fat_sz blank d₂ last)
        (disk.read_other (lba + 1) lba fs_info d₁ (λ same. absurd (omega (arith, same))) ∙ here)
        (λ d₂ e₂.
          make_tables-Kept (some s) 2 (lba + 32) fat_sz blank d₂ last (omega arith) e₂ (λ d₃ e₃.
            or_stop-Kept (some s) (write_sectors ata 8 (lba + 32 + 2 * fat_sz) blank d₃)
              (ends fat_ok)
              (write_sectors-keeps (some s) 8 (lba + 32 + 2 * fat_sz) blank d₃ (omega arith) e₃)
              (λ d₄ e₄. record { kept = e₄ })))
