-- ===== src/Mylang/Lines.antt =====
-- Lines in src/mlang.c: how a text is split into lines, and how a block is put together again.
use mykernel.Base.{
  ℕ, zero, suc, ◌+◌, ◌-◌, ◌*◌, ◌≤◌, ◌≡◌, refl, sym, ap, ◌∙◌, ◌≢◌, false, List, [], ◌∷◌, ◌++◌, arith,
  leb, ◌==◌, ne→==, length, length-append, Bool-cases, inl, inr,
}
use mathlib.Core.List.{append_assoc, append-nil}
use mykernel.Mylang.{max_line, max_lines}
use mykernel.Mylang.Script.{read_line, split_lines, join_lines}

abbrev pub Clean : List ℕ → Type 0
Clean [] = Unit
Clean (c ∷ line) = (c ≢ b'\n') × Clean line

-- a line fits in its buffer and has no newline in it
pub record Line (line : List ℕ) : Type 0 where
  pub short : length line ≤ max_line - 1
  pub clean : Clean line

abbrev pub Lines : List (List ℕ) → Type 0
Lines [] = Unit
Lines (line ∷ lines) = Line line × Lines lines

-- each line with its newline
abbrev pub flat : List (List ℕ) → List ℕ
flat [] = []
flat (line ∷ lines) = line ++ (b'\n' ∷ flat lines)

read_line-newline :
    (room : ℕ) (line rest : List ℕ)
    → length line ≤ room
    → Clean line
    → read_line room (line ++ (b'\n' ∷ rest)) ≡ (line, rest)
unfolding read_line
read_line-newline zero [] rest le h = refl
read_line-newline (suc room) [] rest le h = refl
read_line-newline zero (c ∷ line) rest le h = absurd (omega arith)
read_line-newline (suc room) (c ∷ line) rest le h =
    let other = ne→== c b'\n' h.0 in
    rw other (ap (λ r. (c ∷ r.0, r.1)) (read_line-newline room line rest (omega arith) h.1))

split_lines-newline :
    (n : ℕ) (line rest : List ℕ)
    → Line line
    → split_lines (suc n) (line ++ (b'\n' ∷ rest)) ≡ line ∷ split_lines n rest
unfolding split_lines
split_lines-newline n [] rest h =
    ap (λ r. r.0 ∷ split_lines n r.1) (read_line-newline 127 [] rest h.short h.clean)
split_lines-newline n (c ∷ line) rest h =
    ap (λ r. r.0 ∷ split_lines n r.1) (read_line-newline 127 (c ∷ line) rest h.short h.clean)

pub split_lines-flat :
    (n : ℕ) (lines : List (List ℕ))
    → length lines ≤ n
    → Lines lines
    → split_lines n (flat lines) ≡ lines
unfolding split_lines
split_lines-flat n [] le h = refl
split_lines-flat zero (line ∷ lines) le h = absurd (omega arith)
split_lines-flat (suc n) (line ∷ lines) le h =
    split_lines-newline n line (flat lines) h.0
    ∙ ap (λ ls. line ∷ ls) (split_lines-flat n lines (omega arith) h.1)

join_lines-flat :
    (lines : List (List ℕ)) (sub : List ℕ)
    → Lines lines
    → length sub + 128 * length lines ≤ 8064
    → join_lines lines sub ≡ sub ++ flat lines
unfolding join_lines
join_lines-flat [] sub h le = sym (append-nil sub)
join_lines-flat (line ∷ lines) sub h le =
    let short = h.0.short in
    let room : leb (max_lines * max_line) (length sub + length line + 2) ≡ false = ground arith in
    let more = sub ++ (line ++ (b'\n' ∷ [])) in
    let longer : length more ≡ length sub + (length line + 1) =
      length-append sub (line ++ (b'\n' ∷ []))
      ∙ ap (λ k. length sub + k) (length-append line (b'\n' ∷ [])) in
    rw room (
      join_lines-flat lines more h.1 (omega arith)
      ∙ append_assoc sub (line ++ (b'\n' ∷ [])) (flat lines)
      ∙ ap (λ s. sub ++ s) (append_assoc line (b'\n' ∷ []) (flat lines)))

-- The script that is made of the rest of a block has just the lines of that rest, for at most 63
-- lines of at most 127 characters without a newline.
pub split_lines-join_lines :
    (lines : List (List ℕ))
    → Lines lines
    → length lines ≤ 63
    → split_lines max_lines (join_lines lines []) ≡ lines
split_lines-join_lines lines h le =
    ap (split_lines max_lines) (join_lines-flat lines [] h (omega arith))
    ∙ split_lines-flat max_lines lines (omega arith) h

read_line-Line :
    (room : ℕ) (s : List ℕ) → (length (read_line room s).0 ≤ room) × Clean (read_line room s).0
unfolding read_line
read_line-Line zero [] = (omega arith, tt)
read_line-Line (suc room) [] = (omega arith, tt)
read_line-Line zero (c ∷ s) = elim (Bool-cases (c == b'\n')) [
  | inl e ↦ rw e (omega arith, tt)
  | inr e ↦ rw e (omega arith, tt)
]
read_line-Line (suc room) (c ∷ s) = elim (Bool-cases (c == b'\n')) [
  | inl e ↦ rw e (omega arith, tt)
  | inr e ↦
      let (short, clean) = read_line-Line room s in
      rw e (omega arith, ((λ same. ground (arith, same, e)), clean))
]

-- Every line of a split text fits in its buffer.
pub split_lines-Lines : (n : ℕ) (s : List ℕ) → Lines (split_lines n s)
unfolding split_lines
split_lines-Lines n [] = tt
split_lines-Lines zero (c ∷ s) = tt
split_lines-Lines (suc n) (c ∷ s) =
    let r = read_line (max_line - 1) (c ∷ s) in
    let line = read_line-Line (max_line - 1) (c ∷ s) in
    (record { short = line.0; clean = line.1 }, split_lines-Lines n r.1)

pub length-split_lines : (n : ℕ) (s : List ℕ) → length (split_lines n s) ≤ n
unfolding split_lines
length-split_lines n [] = omega arith
length-split_lines zero (c ∷ s) = omega arith
length-split_lines (suc n) (c ∷ s) =
    omega (arith, length-split_lines n (read_line (max_line - 1) (c ∷ s)).1)
