-- ===== src/Part/Tests.antt =====
-- src/part.c on a disk of four sectors, and its theorems there.
use mykernel.Base.{ℕ, ◌≡◌, refl, true, some, arith, ◌==◌, ◌-◌, ◌+◌, if◌then◌else◌, Memory}
use mykernel.Part.{
  Ata, IsDisk, extent, part_create_mbr_fat32, part_create_gpt_fat32, part_print_gpt, write_gpt,
}
use mykernel.Part.RoundTrip.{part_print_gpt-create}

abbrev Drive : Type 0
Drive = ℕ → Memory

-- A drive that never fails.
abbrev ata : Ata Drive
ata = record {
  present = λ d. true;
  read = λ lba d. some (d lba);
  write = λ lba s d. (true, λ other. if lba == other then s else d other);
}

ata-IsDisk : IsDisk ata
ata-IsDisk = record {
  read_written = λ lba s d ok. (s, ground arith, λ x lt. refl);
  read_other = λ lba other s d ne. ground arith;
  stays = λ lba s d. refl;
}

abbrev empty : Drive
empty lba x = 0

mbr_written : (part_create_mbr_fat32 ata 2048 4096 empty).0 ≡ true
unfolding part_create_mbr_fat32
mbr_written = refl

gpt_written : (part_create_gpt_fat32 ata 2048 4096 empty).0 ≡ true
unfolding part_create_gpt_fat32 write_gpt
gpt_written = refl

part_print_gpt-create_example :
    part_print_gpt ata (part_create_gpt_fat32 ata 2048 4096 empty).1 ≡ extent 2048 (2048 + 4096 - 1)
part_print_gpt-create_example =
    part_print_gpt-create ata 2048 4096 empty ata-IsDisk refl (omega arith) (omega arith)
      (omega arith) gpt_written
