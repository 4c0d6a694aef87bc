-- ===== src/Fat32/Copies.antt =====
-- fat_set of src/fat32.c, copy by copy: the loop over the copies of the table on a disk.
use mykernel.Base.{
  ℕ, zero, suc, ◌+◌, ◌*◌, ◌/◌, ◌%◌, ◌^◌, ◌<◌, ◌≤◌, ◌≡◌, ◌≢◌, ◌⊎◌, refl, sym, ap, ◌∙◌, Bool, true,
  false, Option, none, some, arith, Memory, load32, bytes32, store_bytes-outside, Bool-cases, ◌==◌,
  ==→eq, inl, inr,
}
use mykernel.Part.{Ata, IsDisk}
use mykernel.Fat32.{
  Volume, entry_offset, entry_lba, new_entry, put_entry, go_on, set_in, set_copies,
}
use mykernel.Fat32.Entries.{
  Placed, copy_sector, first_byte, entry_lba-exact, copy_sector-apart, load32-store,
}

module _ {D : Type 0} (ata : Ata D) (v : Volume) where
  -- The sector of the entry in one copy: the entry has the low 28 bits of the value and keeps its
  -- four high bits, and all other bytes are as before.
  pub record CopySet (f c value : ℕ) (d d' : D) : Type 0 where
    pub before : Memory
    pub after : Memory
    pub read_before : ata.read (copy_sector v f c) d ≡ some before
    pub read_after : ata.read (copy_sector v f c) d' ≡ some after
    pub entry :
        load32 after (first_byte c)
        ≡ load32 before (first_byte c) / 2 ^ 28 % 16 * 2 ^ 28 + value % 2 ^ 28
    pub others :
        (x : ℕ) → x < 512 → (x < first_byte c) ⊎ (first_byte c + 4 ≤ x) → after x ≡ before x

  -- The sector of one copy holds what was written.
  pub record Rewritten (f c value : ℕ) (d d' : D) : Type 0 where
    pub before : Memory
    pub after : Memory
    pub read_before : ata.read (copy_sector v f c) d ≡ some before
    pub read_after : ata.read (copy_sector v f c) d' ≡ some after
    pub bytes : (x : ℕ) → x < 512 → after x ≡ put_entry c value before x

  -- the copies `f` to `f + n - 1`
  pub record Range (n f c value : ℕ) (d d' : D) : Type 0 where
    pub each : (g : ℕ) → f ≤ g → g < f + n → Rewritten g c value d d'
    pub elsewhere :
        (lba : ℕ)
        → ((g : ℕ) → f ≤ g → g < f + n → lba ≢ copy_sector v g c)
        → ata.read lba d' ≡ ata.read lba d

  load32-same :
      (a : ℕ) (t s : Memory)
      → a + 4 ≤ 512
      → ((x : ℕ) → x < 512 → t x ≡ s x)
      → load32 t a ≡ load32 s a
  load32-same a t s inside same =
      rw
        (
          same a (omega arith),
          same (a + 1) (omega arith),
          same (a + 2) (omega arith),
          same (a + 3) (omega arith),
        )
        refl

  pub Rewritten-CopySet :
      (f c value : ℕ) (d d' : D) → Placed v c → Rewritten f c value d d' → CopySet f c value d d'
  Rewritten-CopySet f c value d d' p r =
      let small = p.small in
      let at : first_byte c ≡ entry_offset c = omega arith in
      let inside : entry_offset c + 4 ≤ 512 = omega arith in
      let old = load32 r.before (entry_offset c) in
      let word =
        load32-same (entry_offset c) r.after (put_entry c value r.before) inside r.bytes
        ∙ load32-store (entry_offset c) (new_entry old value) r.before (omega arith) in
      record {
        before = r.before;
        after = r.after;
        read_before = r.read_before;
        read_after = r.read_after;
        entry = rw at word;
        others = λ x lt out.
            r.bytes x lt
            ∙ store_bytes-outside (entry_offset c) (bytes32 (new_entry old value)) r.before x
                (elim out [
                  | inl low ↦ inl (omega (arith, low, at))
                  | inr high ↦ inr (omega (arith, high, at))
                ]);
      }

  module _ (disk : IsDisk ata) (c value : ℕ) (p : Placed v c) where
    -- one round of the loop, and the rest of it
    round-Range :
        (n f : ℕ) (s : Memory) (d : D) (loop : D → Bool × D) (w : Bool × D)
        → f + suc n ≤ v.num_fats
        → ata.read (copy_sector v f c) d ≡ some s
        → ata.write (copy_sector v f c) (put_entry c value s) d ≡ w
        → ((d₁ : D) → (loop d₁).0 ≡ true → Range n (f + 1) c value d₁ (loop d₁).1)
        → (go_on ata v w loop).0 ≡ true
        → Range (suc n) f c value d (go_on ata v w loop).1
    round-Range n f s d loop (false, d₁) le e wrote later ok = absurd (ground (arith, ok))
    round-Range n f s d loop (true, d₁) le e wrote later ok =
        let lba = copy_sector v f c in
        let new = put_entry c value s in
        let r = later d₁ ok in
        let behind = (loop d₁).1 in
        let at : (ata.write lba new d).1 ≡ d₁ = ap (λ w. w.1) wrote in
        let (t, stored, bytes) = disk.read_written lba new d (ap (λ w. w.0) wrote) in
        let left : (other : ℕ) → lba ≢ other → ata.read other d₁ ≡ ata.read other d =
          λ other ne. ap (λ q. ata.read other q) (sym at) ∙ disk.read_other lba other new d ne in
        let kept : ata.read lba behind ≡ ata.read lba d₁ =
          r.elsewhere lba (λ g low high. copy_sector-apart v f g c c p p (omega arith)) in
        record {
          each = λ g low high. elim (Bool-cases (f == g)) [
            | inl here ↦
                let same = ==→eq f g here in
                rw (sym same) (record {
                  before = s;
                  after = t;
                  read_before = e;
                  read_after = kept ∙ ap (λ q. ata.read lba q) (sym at) ∙ stored;
                  bytes = bytes;
                })
            | inr there ↦
                let above : f < g = ground (arith, there) in
                let one = r.each g (omega arith) (omega arith) in
                record {
                  before = one.before;
                  after = one.after;
                  read_before =
                      sym (left (copy_sector v g c) (copy_sector-apart v f g c c p p above))
                      ∙ one.read_before;
                  read_after = one.read_after;
                  bytes = one.bytes;
                }
          ];
          elsewhere = λ other apart.
              r.elsewhere other (λ g low high. apart g (omega arith) (omega arith))
              ∙ left other (λ same. apart f (omega arith) (omega arith) (sym same));
        }

    read_round :
        (n f : ℕ) (d : D) (loop : D → Bool × D) (o : Option Memory)
        → f + suc n ≤ v.num_fats
        → ((d₁ : D) → (loop d₁).0 ≡ true → Range n (f + 1) c value d₁ (loop d₁).1)
        → ata.read (entry_lba v f c) d ≡ o
        → (set_in ata v f c value o loop d).0 ≡ true
        → Range (suc n) f c value d (set_in ata v f c value o loop d).1
    read_round n f d loop none le later e ok = absurd (ground (arith, ok))
    read_round n f d loop (some s) le later e ok =
        let sector = entry_lba-exact v f c p (omega arith) in
        round-Range n f s d loop (ata.write (entry_lba v f c) (put_entry c value s) d) le
          (ap (λ q. ata.read q d) (sym sector) ∙ e)
          (ap (λ q. ata.write q (put_entry c value s) d) (sym sector)) later ok

    pub set_copies-Range :
        (n f : ℕ) (d : D)
        → f + n ≤ v.num_fats
        → (set_copies ata v n f c value d).0 ≡ true
        → Range n f c value d (set_copies ata v n f c value d).1
    unfolding set_copies
    set_copies-Range zero f d le ok = record {
      each = λ g low high. absurd (omega arith);
      elsewhere = λ lba apart. refl;
    }
    set_copies-Range (suc n) f d le ok =
        read_round n f d (set_copies ata v n (f + 1) c value) (ata.read (entry_lba v f c) d) le
          (λ d₁ fine. set_copies-Range n (f + 1) d₁ (omega arith) fine) refl ok
