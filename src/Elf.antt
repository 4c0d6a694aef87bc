-- ===== src/Elf.antt =====
-- src/elf.c: the loader of static ELF32 programs.
-- The image is a list of bytes; `beyond` has what stands in memory behind it, at each offset. The
-- memory that is loaded into is apart from the image; addresses wrap around at 2^32.
pub mod Window
mod Tests
use mykernel.Base.{
  ℕ, zero, suc, ◌+◌, ◌-◌, ◌*◌, ◌^◌, Bool, true, false, ◌&&◌, ◌||◌, not, Option, none, some, List,
  leb, ltb, ◌==◌, u32, if◌then◌else◌, length, get_or, Memory,
}

-- `enum elf_result`
pub data ElfResult : Type 0 where
  elf_ok bad_magic not_32 not_exec : ElfResult
  bad_arch no_load too_big : ElfResult

abbrev pub window_start : ℕ
window_start = 0x00100000

abbrev pub window_end : ℕ
window_end = 0x04000000

-- `n` bytes of `src` to the address `dst` and those behind it
unfoldable pub mem_copy : (dst : ℕ) → (src : ℕ → ℕ) → (n : ℕ) → Memory → Memory
mem_copy dst src n m x = let i = u32 (x + (2 ^ 32 - dst)) in if ltb i n then src i else m x

unfoldable pub mem_zero : (dst n : ℕ) → Memory → Memory
mem_zero dst n m x = if ltb (u32 (x + (2 ^ 32 - dst))) n then 0 else m x

-- `struct elf32_phdr`
pub record Phdr : Type 0 where
  pub type : ℕ
  pub offset : ℕ
  pub vaddr : ℕ
  pub filesz : ℕ
  pub memsz : ℕ

abbrev pub is_load : Phdr → Bool
is_load ph = ph.type == 1

-- the test of the user window
abbrev pub in_window : Phdr → Bool
in_window ph = not (ltb ph.vaddr window_start || ltb window_end (u32 (ph.vaddr + ph.memsz)))

module _ (image : List ℕ) (beyond : ℕ → ℕ) where
  abbrev pub image_byte : ℕ → ℕ
  image_byte i = if ltb (u32 i) (length image) then get_or image (u32 i) 0 else beyond (u32 i)

  abbrev pub half_at : ℕ → ℕ
  half_at a = image_byte a + 2 ^ 8 * image_byte (a + 1)

  abbrev pub word_at : ℕ → ℕ
  word_at a = half_at a + 2 ^ 16 * half_at (a + 2)

  abbrev pub e_type : ℕ
  e_type = half_at 16

  abbrev pub e_machine : ℕ
  e_machine = half_at 18

  abbrev pub e_entry : ℕ
  e_entry = word_at 24

  abbrev pub e_phoff : ℕ
  e_phoff = word_at 28

  abbrev pub e_phentsize : ℕ
  e_phentsize = half_at 42

  abbrev pub e_phnum : ℕ
  e_phnum = half_at 44

  -- the program header `i`
  unfoldable pub phdr : ℕ → Phdr
  phdr i =
      let at = e_phoff + i * e_phentsize in
      record {
        type = word_at at;
        offset = word_at (at + 4);
        vaddr = word_at (at + 8);
        filesz = word_at (at + 16);
        memsz = word_at (at + 20);
      }

  unfoldable pub load_segment : Phdr → Memory → Memory
  load_segment ph m =
      let copied = mem_copy ph.vaddr (λ i. image_byte (ph.offset + i)) ph.filesz m in
      if ltb ph.filesz ph.memsz
      then mem_zero (u32 (ph.vaddr + ph.filesz)) (ph.memsz - ph.filesz) copied
      else copied

  -- The loop over the program headers from `i` on, `n` of them.
  unfoldable pub load_from : (n i : ℕ) → (loaded : Bool) → Memory → ElfResult × Memory
  load_from zero i loaded m = (if loaded then elf_ok else no_load, m)
  load_from (suc n) i loaded m = elim (is_load (phdr i)) [
    | false ↦ load_from n (i + 1) loaded m
    | true ↦ elim (ltb (length image) (u32 ((phdr i).offset + (phdr i).filesz))) [
      | true ↦ (no_load, m)
      | false ↦ elim (in_window (phdr i)) [
        | false ↦ (too_big, m)
        | true ↦ load_from n (i + 1) true (load_segment (phdr i) m)
      ]
    ]
  ]

  -- The checks of the file header: the error, if there is one.
  unfoldable pub check_header : Option ElfResult
  check_header =
      if ltb (length image) 52
      then some bad_magic
      else if not (
          image_byte 0 == 0x7f
          && image_byte 1 == b'E'
          && image_byte 2 == b'L'
          && image_byte 3 == b'F')
      then some bad_magic
      else if not (image_byte 4 == 1)
      then some not_32
      else if not (image_byte 5 == 1)
      then some bad_magic
      else if not (e_type == 2)
      then some not_exec
      else if not (e_machine == 3)
      then some bad_arch
      else if ltb (length image) (u32 (e_phoff + e_phnum * e_phentsize))
      then some no_load
      else none

  -- `*entry` is written if the result is ELF_OK only; otherwise it is `none`.
  abbrev pub entry_of : ElfResult → Option ℕ
  entry_of elf_ok = some e_entry
  entry_of _ = none

  unfoldable pub elf_load : Memory → (ElfResult × Option ℕ) × Memory
  elf_load m = elim check_header [
    | some e ↦ ((e, none), m)
    | none ↦ let r = load_from e_phnum 0 false m in ((r.0, entry_of r.0), r.1)
  ]
