-- ===== src/Fat32/Sets.antt =====
-- fat_set of src/fat32.c on a disk: what was set is read, and all other entries are as before.
use mykernel.Base.{
  ℕ, zero, suc, ◌+◌, ◌%◌, ◌^◌, ◌<◌, ◌≤◌, ◌≡◌, ◌≢◌, refl, sym, ap, ◌∙◌, Bool, true, false, some,
  arith, Memory, Bool-cases, ==→eq, ◌==◌, inl, inr,
}
use mykernel.Part.{Ata, IsDisk}
use mykernel.Fat32.{
  Volume, entry_offset, entry_lba, entry_value, put_entry, value_in, fat_get, go_on, set_in,
  set_copies, fat_set,
}
use mykernel.Fat32.Entries.{
  Placed, copy_sector, entry_lba-exact, copy_sector-apart, put_entry_self, put_entry-other,
}
use mykernel.Fat32.Copies.{CopySet, Rewritten, Range, Rewritten-CopySet, set_copies-Range}

entry_value-same :
    (c : ℕ) (t s : Memory) → ((x : ℕ) → x < 512 → t x ≡ s x) → entry_value c t ≡ entry_value c s
entry_value-same c t s same =
    let a = entry_offset c in
    rw
      (
        same a (omega arith),
        same (a + 1) (omega arith),
        same (a + 2) (omega arith),
        same (a + 3) (omega arith),
      )
      refl

module _ {D : Type 0} (ata : Ata D) (v : Volume) (disk : IsDisk ata) where
  -- The entry reads as the value, and every other entry of the table as before. In every copy of the
  -- table the sector of the entry has the value there and is as before else, and all other sectors
  -- of the disk are as before.
  pub record EntrySet (c value : ℕ) (d d' : D) : Type 0 where
    pub self : fat_get ata v c d' ≡ value % 2 ^ 28
    pub other : (c' : ℕ) → Placed v c' → c' ≢ c → fat_get ata v c' d' ≡ fat_get ata v c' d
    pub copies : (f : ℕ) → f < v.num_fats → CopySet ata v f c value d d'
    pub elsewhere :
        (lba : ℕ)
        → ((f : ℕ) → f < v.num_fats → lba ≢ copy_sector v f c)
        → ata.read lba d' ≡ ata.read lba d

  module _ (c value : ℕ) (d d' : D) (p : Placed v c) (some_copy : 0 < v.num_fats)
      (r : Range ata v v.num_fats 0 c value d d') where
    first_read : (c' : ℕ) → Placed v c' → entry_lba v 0 c' ≡ copy_sector v 0 c'
    first_read c' p' = entry_lba-exact v 0 c' p' some_copy

    same_sector :
        (c' : ℕ)
        → Placed v c'
        → copy_sector v 0 c ≡ copy_sector v 0 c'
        → (w : Rewritten ata v 0 c value d d')
        → (fat_get ata v c' d' ≡ entry_value c' (put_entry c value w.before))
          × (fat_get ata v c' d ≡ entry_value c' w.before)
    unfolding fat_get
    same_sector c' p' same w =
        let at = first_read c' p' ∙ sym same in
        (
          ap (λ lba. value_in ata v c' (ata.read lba d')) at
              ∙ ap (value_in ata v c') w.read_after
              ∙ entry_value-same c' w.after (put_entry c value w.before) w.bytes,
          ap (λ lba. value_in ata v c' (ata.read lba d)) at ∙ ap (value_in ata v c') w.read_before,
        )

    other_sector :
        (c' : ℕ)
        → Placed v c'
        → copy_sector v 0 c ≢ copy_sector v 0 c'
        → fat_get ata v c' d' ≡ fat_get ata v c' d
    unfolding fat_get
    other_sector c' p' differs =
        let at = first_read c' p' in
        let kept = r.elsewhere (copy_sector v 0 c') away in
        ap (λ lba. value_in ata v c' (ata.read lba d')) at
        ∙ ap (value_in ata v c') kept
        ∙ ap (λ lba. value_in ata v c' (ata.read lba d)) (sym at)
      where
        away : (g : ℕ) → 0 ≤ g → g < 0 + v.num_fats → copy_sector v 0 c' ≢ copy_sector v g c
        away zero low high = λ same. differs (sym same)
        away (suc g) low high = copy_sector-apart v 0 (suc g) c' c p' p (omega arith)

    Range-other : (c' : ℕ) → Placed v c' → c' ≢ c → fat_get ata v c' d' ≡ fat_get ata v c' d
    Range-other c' p' ne = elim (Bool-cases (copy_sector v 0 c == copy_sector v 0 c')) [
      | inl hit ↦
          let same = ==→eq (copy_sector v 0 c) (copy_sector v 0 c') hit in
          let reads = same_sector c' p' same (r.each 0 (omega arith) (omega arith)) in
          reads.0
          ∙ put_entry-other c c' value (r.each 0 (omega arith) (omega arith)).before p.small
              p'.small (λ q. ne (sym q)) (omega (arith, same))
          ∙ sym reads.1
      | inr differs ↦ other_sector c' p' (λ same. ground (arith, differs, same))
    ]

    Range-EntrySet : EntrySet c value d d'
    Range-EntrySet =
        let first = r.each 0 (omega arith) (omega arith) in
        record {
          self = (same_sector c p refl first).0 ∙ put_entry_self c value first.before;
          other = Range-other;
          copies = λ f lt.
              Rewritten-CopySet ata v f c value d d' p (r.each f (omega arith) (omega arith));
          elsewhere = λ lba apart. r.elsewhere lba (λ g low high. apart g (omega arith));
        }

  -- What was set is read from the table, less the four high bits, and all other entries are read as
  -- before. In every copy of the table, the entry has the low 28 bits of the value and keeps its
  -- four high bits, and the other bytes of its sector are as before; no other sector of the disk
  -- changes. The conditions: fat_set succeeded, and the copies of the table lie one behind the other
  -- below 2^32 and have both entries.
  pub fat_get-fat_set :
      (c value : ℕ) (d : D)
      → Placed v c
      → 0 < v.num_fats
      → (fat_set ata v c value d).0 ≡ true
      → EntrySet c value d (fat_set ata v c value d).1
  unfolding fat_set
  fat_get-fat_set c value d p some_copy ok =
      Range-EntrySet c value d (fat_set ata v c value d).1 p some_copy
        (set_copies-Range ata v disk c value p v.num_fats 0 d (omega arith) ok)

-- a disk that does not fail
pub record Reliable {D : Type 0} (ata : Ata D) : Type 0 where
  pub reads : (lba : ℕ) (d : D) → (s : Memory) × (ata.read lba d ≡ some s)
  pub writes : (lba : ℕ) (s : Memory) (d : D) → (ata.write lba s d).0 ≡ true

module _ {D : Type 0} (ata : Ata D) (v : Volume) (reliable : Reliable ata) where
  go_on-Reliable :
      (w : Bool × D) (loop : D → Bool × D)
      → w.0 ≡ true
      → ((d : D) → (loop d).0 ≡ true)
      → (go_on ata v w loop).0 ≡ true
  go_on-Reliable (true, d) loop ok h = h d
  go_on-Reliable (false, d) loop ok h = ok

  set_copies-Reliable : (n f c value : ℕ) (d : D) → (set_copies ata v n f c value d).0 ≡ true
  unfolding set_copies
  set_copies-Reliable zero f c value d = refl
  set_copies-Reliable (suc n) f c value d =
      let (s, e) = reliable.reads (entry_lba v f c) d in
      ap (λ o. (set_in ata v f c value o (set_copies ata v n (f + 1) c value) d).0) e
      ∙ go_on-Reliable (ata.write (entry_lba v f c) (put_entry c value s) d)
          (set_copies ata v n (f + 1) c value)
          (reliable.writes (entry_lba v f c) (put_entry c value s) d)
          (set_copies-Reliable n (f + 1) c value)

  pub fat_set-Reliable : (c value : ℕ) (d : D) → (fat_set ata v c value d).0 ≡ true
  unfolding fat_set
  fat_set-Reliable c value d = set_copies-Reliable v.num_fats 0 c value d
