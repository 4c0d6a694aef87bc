-- ===== src/Elf/Window.antt =====
-- What src/elf.c loads, and where it writes.
use mykernel.Base.{
  ℕ, zero, suc, ◌+◌, ◌-◌, ◌^◌, ◌≤◌, ◌<◌, ◌≡◌, ◌≢◌, ◌⊎◌, inl, inr, refl, sym, ap, ◌∙◌, Bool, true,
  false, ◌&&◌, some, List, arith, leb, ltb, ◌==◌, u32, if◌then◌else◌, length, Memory, Bool-cases,
  Option-cases,
}
use mykernel.Elf.{
  elf_ok, no_load, too_big, window_start, window_end, mem_copy, mem_zero, Phdr, image_byte, e_entry,
  e_phnum, phdr, is_load, in_window, load_segment, load_from, check_header, elf_load,
}

no_both : false ≢ true
no_both e = ground (arith, e)

apart : (i k : ℕ) → i ≤ k → i ≢ k → i < k
apart i k le ne = elim (Bool-cases (i == k)) [
  | inl same ↦ absurd (ne (ground arith))
  | inr other ↦ ground arith
]

-- the addresses of the segment
abbrev pub inside : Phdr → ℕ → Bool
inside ph x = leb ph.vaddr x && ltb x (ph.vaddr + ph.memsz)

-- The file gives no more bytes than the segment has, and the segment ends below 2^32.
abbrev pub IsTame : Phdr → Type 0
IsTame ph = (ph.filesz ≤ ph.memsz) × (ph.vaddr + ph.memsz < 2 ^ 32)

mem_copy_lem :
    (dst n x : ℕ) (src : ℕ → ℕ) (m : Memory)
    → x < 2 ^ 32
    → dst + n < 2 ^ 32
    → mem_copy dst src n m x ≡ (if leb dst x && ltb x (dst + n) then src (x - dst) else m x)
unfolding mem_copy
mem_copy_lem dst n x src m lt ends = elim (Bool-cases (leb dst x)) [
  | inl above ↦
      let at : u32 (x + (2 ^ 32 - dst)) ≡ x - dst = ground arith in rw (at, mem_copy) (ground arith)
  | inr below ↦
      let out : ltb (u32 (x + (2 ^ 32 - dst))) n ≡ false = ground arith in
      rw (out, mem_copy) (ground arith)
]

mem_zero_lem :
    (dst n x : ℕ) (m : Memory)
    → x < 2 ^ 32
    → dst + n < 2 ^ 32
    → mem_zero dst n m x ≡ (if leb dst x && ltb x (dst + n) then 0 else m x)
unfolding mem_zero
mem_zero_lem dst n x m lt ends = elim (Bool-cases (leb dst x)) [
  | inl above ↦
      let at : u32 (x + (2 ^ 32 - dst)) ≡ x - dst = ground arith in rw (at, mem_zero) (ground arith)
  | inr below ↦
      let out : ltb (u32 (x + (2 ^ 32 - dst))) n ≡ false = ground arith in
      rw (out, mem_zero) (ground arith)
]

module _ (image : List ℕ) (beyond : ℕ → ℕ) where
  -- A segment is its bytes from the file and then zeros, and nothing else is written.
  load_segment_lem :
      (ph : Phdr) (m : Memory) (x : ℕ)
      → IsTame ph
      → x < 2 ^ 32
      → load_segment image beyond ph m x ≡ (
          if inside ph x
          then (if ltb (x - ph.vaddr) ph.filesz
              then image_byte image beyond (ph.offset + (x - ph.vaddr))
              else 0)
          else m x)
  unfolding load_segment
  load_segment_lem ph m x tame lt =
      let (small, ends) = tame in
      let src = λ (i : ℕ). image_byte image beyond (ph.offset + i) in
      let next : u32 (ph.vaddr + ph.filesz) ≡ ph.vaddr + ph.filesz = omega arith in
      let copy = mem_copy_lem ph.vaddr ph.filesz x src m lt (omega arith) in
      elim (Bool-cases (ltb ph.filesz ph.memsz)) [
        | inl more ↦
            let zeros =
              mem_zero_lem (ph.vaddr + ph.filesz) (ph.memsz - ph.filesz) x
                (mem_copy ph.vaddr src ph.filesz m) lt (omega arith) in
            rw (more, next, load_segment) (zeros ∙ rw copy (ground arith))
        | inr no_more ↦ rw (no_more, load_segment) (copy ∙ ground arith)
      ]

  -- no later program header is for the address `x`, unless the test of the window refuses it
  abbrev Spared : (n i x : ℕ) → Type 0
  Spared n i x =
      (k : ℕ)
      → i ≤ k
      → k < i + n
      → is_load (phdr image beyond k) ≡ true
      → in_window (phdr image beyond k) ≡ true
      → inside (phdr image beyond k) x ≡ false

  AllTame : (n i : ℕ) → Type 0
  AllTame n i =
      (k : ℕ)
      → i ≤ k
      → k < i + n
      → is_load (phdr image beyond k) ≡ true
      → IsTame (phdr image beyond k)

  load_from-Spared :
      (n i x : ℕ) (loaded : Bool) (m : Memory)
      → x < 2 ^ 32
      → AllTame n i
      → Spared n i x
      → (load_from image beyond n i loaded m).1 x ≡ m x
  unfolding load_from AllTame
  load_from-Spared zero i x loaded m lt tame spared = refl
  load_from-Spared (suc n) i x loaded m lt tame spared =
      let ph = phdr image beyond i in
      let later_tame : AllTame n (i + 1) = λ k lo hi l. tame k (omega arith) (omega arith) l in
      let later : Spared n (i + 1) x = λ k lo hi l w. spared k (omega arith) (omega arith) l w in
      elim (Bool-cases (is_load ph)) [
        | inr skip ↦
            rw (skip, load_from) (load_from-Spared n (i + 1) x loaded m lt later_tame later)
        | inl load ↦ elim (Bool-cases (ltb (length image) (u32 (ph.offset + ph.filesz)))) [
          | inl cut ↦ rw (load, cut, load_from) refl
          | inr fits ↦ elim (Bool-cases (in_window ph)) [
            | inr out ↦ rw (load, fits, out, load_from) refl
            | inl window ↦
                let here = spared i (omega arith) (omega arith) load window in
                let t = tame i (omega arith) (omega arith) load in
                let kept : load_segment image beyond ph m x ≡ m x =
                  load_segment_lem ph m x t lt ∙ rw here refl in
                rw (load, fits, window, load_from)
                  (load_from-Spared n (i + 1) x true (load_segment image beyond ph m) lt later_tame
                      later
                    ∙ kept)
          ]
        ]
      ]

  -- the byte of the segment at the address `x`
  abbrev pub segment_byte : Phdr → ℕ → ℕ
  segment_byte ph x =
      if ltb (x - ph.vaddr) ph.filesz
      then image_byte image beyond (ph.offset + (x - ph.vaddr))
      else 0

  -- the address `x` is in the segment `k`, and in none of the segments behind it and before `end`
  pub record LastAt (end k x : ℕ) : Type 0 where
    before : k < end
    load : is_load (phdr image beyond k) ≡ true
    holds : inside (phdr image beyond k) x ≡ true
    last :
        (j : ℕ)
        → k < j
        → j < end
        → is_load (phdr image beyond j) ≡ true
        → inside (phdr image beyond j) x ≡ false

  load_from-LastAt :
      (n i k x : ℕ) (loaded : Bool) (m : Memory)
      → x < 2 ^ 32
      → AllTame n i
      → i ≤ k
      → LastAt (i + n) k x
      → (load_from image beyond n i loaded m).0 ≡ elf_ok
      → (load_from image beyond n i loaded m).1 x ≡ segment_byte (phdr image beyond k) x
  unfolding load_from AllTame
  load_from-LastAt zero i k x loaded m lt tame le w ok = absurd (omega (arith, w.before))
  load_from-LastAt (suc n) i k x loaded m lt tame le w ok =
      let ph = phdr image beyond i in
      let later_tame : AllTame n (i + 1) = λ k lo hi l. tame k (omega arith) (omega arith) l in
      let w' : LastAt (i + 1 + n) k x = record {
        before = omega (arith, w.before);
        load = w.load;
        holds = w.holds;
        last = λ j lo hi l. w.last j lo (omega arith) l;
      } in
      elim (Bool-cases (is_load ph)) [
        | inr skip ↦
            let next : i < k = apart i k le (λ same.
              no_both (sym skip ∙ ap (λ j. is_load (phdr image beyond j)) same ∙ w.load)) in
            rw (skip, load_from)
              (load_from-LastAt n (i + 1) k x loaded m lt later_tame (omega arith) w'
                (rw (skip, load_from) at ok))
        | inl load ↦ elim (Bool-cases (ltb (length image) (u32 (ph.offset + ph.filesz)))) [
          | inl cut ↦
              let no : no_load ≡ elf_ok = rw (load, cut, load_from) at ok in absurd (ground arith)
          | inr fits ↦ elim (Bool-cases (in_window ph)) [
            | inr out ↦
                let no : too_big ≡ elf_ok = rw (load, fits, out, load_from) at ok in
                absurd (ground arith)
            | inl window ↦
                let ok' = rw (load, fits, window, load_from) at ok in
                let m' = load_segment image beyond ph m in
                rw (load, fits, window, load_from)
                  (elim (Bool-cases (i == k)) [
                    | inl here ↦
                        let same : i ≡ k = ground arith in
                        let spared : Spared n (i + 1) x =
                          λ j lo hi l win. w.last j (omega arith) (omega arith) l in
                        let holds : inside ph x ≡ true =
                          ap (λ j. inside (phdr image beyond j) x) same ∙ w.holds in
                        let t = tame i (omega arith) (omega arith) load in
                        load_from-Spared n (i + 1) x true m' lt later_tame spared
                        ∙ load_segment_lem ph m x t lt
                        ∙ rw holds (ap (λ j. segment_byte (phdr image beyond j) x) same)
                    | inr later ↦
                        load_from-LastAt n (i + 1) k x true m' lt later_tame (ground arith) w' ok'
                  ])
          ]
        ]
      ]

  abbrev pub TameImage : Type 0
  TameImage =
      (k : ℕ)
      → k < e_phnum image beyond
      → is_load (phdr image beyond k) ≡ true
      → IsTame (phdr image beyond k)

  -- If each segment is at least as long as its bytes in the file and ends below 2^32, the loader
  -- writes nothing outside 0x100000 .. 0x4000000, whatever it returns.
  pub elf_load-TameImage :
      (m : Memory) (x : ℕ)
      → TameImage
      → (x < window_start) ⊎ (window_end ≤ x)
      → x < 2 ^ 32
      → (elf_load image beyond m).1 x ≡ m x
  unfolding elf_load AllTame
  elf_load-TameImage m x tame outside lt = elim (Option-cases (check_header image beyond)) [
    | inl (e, bad) ↦ rw (bad, elf_load) refl
    | inr good ↦
        let all : AllTame (e_phnum image beyond) 0 = λ k lo hi l. tame k (omega arith) l in
        let spared : Spared (e_phnum image beyond) 0 x =
          λ k lo hi l window. let t = tame k (omega arith) l in ground (arith, t) in
        rw (good, elf_load) (load_from-Spared (e_phnum image beyond) 0 x false m lt all spared)
  ]

  check_header-not_ok : check_header image beyond ≡ some elf_ok → ⊥
  unfolding check_header
  check_header-not_ok e = ground (arith, e)

  -- If each segment is at least as long as its bytes in the file and ends below 2^32, and the image
  -- is loaded with the result ELF_OK, the entry is that of the file header, and the
  -- bytes at the addresses of a segment are those of the file, and zero behind them, except where
  -- a later segment is for the same address.
  pub elf_load-LastAt :
      (m : Memory)
      → TameImage
      → (elf_load image beyond m).0.0 ≡ elf_ok
      → ((elf_load image beyond m).0.1 ≡ some (e_entry image beyond))
        × ((k x : ℕ)
            → x < 2 ^ 32
            → LastAt (e_phnum image beyond) k x
            → (elf_load image beyond m).1 x ≡ segment_byte (phdr image beyond k) x)
  unfolding elf_load AllTame
  elf_load-LastAt m tame ok = elim (Option-cases (check_header image beyond)) [
    | inl (e, bad) ↦
        let same : e ≡ elf_ok = rw (bad, elf_load) at ok in
        absurd (check_header-not_ok (bad ∙ ap some same))
    | inr good ↦
        let n = e_phnum image beyond in
        let ok' : (load_from image beyond n 0 false m).0 ≡ elf_ok = rw (good, elf_load) at ok in
        let all : AllTame n 0 = λ k lo hi l. tame k (omega arith) l in
        let w₀ : (k x : ℕ) → LastAt n k x → LastAt (0 + n) k x = λ k x w. record {
          before = omega (arith, w.before);
          load = w.load;
          holds = w.holds;
          last = λ j lo hi l. w.last j lo (omega arith) l;
        } in
        (
          rw (good, elf_load) (rw ok' refl),
          λ k x lt w.
              rw (good, elf_load)
                (load_from-LastAt n 0 k x false m lt all (omega arith) (w₀ k x w) ok'),
        )
  ]
