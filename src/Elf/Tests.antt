-- ===== src/Elf/Tests.antt =====
-- Runs of src/elf.c on a small program, and its theorems there.
use mykernel.Base.{
  ℕ, zero, suc, ◌^◌, ◌<◌, ◌≡◌, inl, refl, ap, some, List, [], ◌∷◌, ◌++◌, arith, bytes16, bytes32,
  replicate,
}
use mykernel.Elf.{
  elf_ok, e_entry, e_phnum, phdr, elf_load, check_header, load_from, load_segment, mem_copy,
  mem_zero,
}
use mykernel.Elf.Window.{TameImage, LastAt, segment_byte, elf_load-TameImage, elf_load-LastAt}

-- One segment: the four bytes at the end of the file to 0x400000, and `memsz` in memory.
abbrev program : (vaddr filesz memsz : ℕ) → List ℕ
program vaddr filesz memsz =
    (0x7f ∷ b'E' ∷ b'L' ∷ b'F' ∷ 1 ∷ 1 ∷ replicate 10 0)
    ++ (bytes16 2 ++ bytes16 3 ++ bytes32 1 ++ bytes32 0x400000 ++ bytes32 52 ++ bytes32 0)
    ++ (bytes32 0 ++ bytes16 52 ++ bytes16 32 ++ bytes16 1 ++ replicate 6 0)
    ++ (bytes32 1 ++ bytes32 84 ++ bytes32 vaddr ++ bytes32 0 ++ bytes32 filesz ++ bytes32 memsz)
    ++ (bytes32 5 ++ bytes32 4096 ++ (11 ∷ 22 ∷ 33 ∷ 44 ∷ []))

abbrev image : List ℕ
image = program 0x400000 4 10

abbrev beyond : ℕ → ℕ
beyond i = 0

abbrev memory : ℕ → ℕ
memory a = 7

loads : (elf_load image beyond memory).0 ≡ (elf_ok, some 0x400000)
unfolding elf_load check_header load_from phdr load_segment
loads = refl

-- A segment whose bytes in the file are more than it has in memory is loaded past the window.
overrun : (elf_load (program 0x3ffffff 4 1) beyond memory).1 0x4000002 ≡ 44
unfolding elf_load check_header load_from phdr load_segment mem_copy mem_zero
overrun = refl

image-TameImage : TameImage image beyond
unfolding phdr
image-TameImage zero lt l = (omega arith, omega arith)
image-TameImage (suc k) lt l = absurd (omega arith)

elf_load-TameImage_example : (elf_load image beyond memory).1 0x5000 ≡ memory 0x5000
elf_load-TameImage_example =
    elf_load-TameImage image beyond memory 0x5000 image-TameImage (inl (omega arith)) (omega arith)

elf_load-LastAt_example :
    ((elf_load image beyond memory).0.1 ≡ some (e_entry image beyond))
    × ((k x : ℕ)
        → x < 2 ^ 32
        → LastAt image beyond (e_phnum image beyond) k x
        → (elf_load image beyond memory).1 x ≡ segment_byte image beyond (phdr image beyond k) x)
elf_load-LastAt_example = elf_load-LastAt image beyond memory image-TameImage (ap (λ r. r.0) loads)
