-- ===== src/Mylang/Meaning.antt =====
-- Scripts of src/mlang.c do what the programs that are written in them do.
use mykernel.Base.{
  ℕ, suc, ◌<◌, ◌≤◌, ◌≡◌, refl, sym, ap, ◌∙◌, true, false, ◌||◌, Option, none, some, List, [], ◌∷◌,
  ◌++◌, arith, length,
}
use mathlib.Core.List.{append_assoc}
use mykernel.Mylang.{max_lines, skip_ws}
use mykernel.Mylang.Command.{
  behind, Mlang, Run, done, failed, crashed, stuck, then_run, mlang_exec_line,
}
use mykernel.Mylang.Script.{
  if_word, while_word, end_word, is_some, blank_end, opens, nested, consed, matching_end,
  split_lines, join_lines, run_body,
}
use mykernel.Mylang.Lines.{Lines, split_lines-join_lines}
use mykernel.Mylang.Programs.{
  Stmt, simple, choice, loop, Block, empty, ◌⨾◌, if_line, while_line, stmt_lines, block_lines, exec,
  Plain, Plains, WellFormed, WellFormeds, prepended, prepended-append, prepended-some,
}

opens-nested : (t : List ℕ) → nested t ≡ false → opens t ≡ false
opens-nested t h = by_words (behind if_word t) (behind while_word t) h
  where
    by_words :
        (i w : Option (List ℕ))
        → (is_some (blank_end i) || is_some w) ≡ false
        → (is_some (blank_end i) || is_some (blank_end w)) ≡ false
    by_words none none h = refl
    by_words none (some q) h = absurd (ground (arith, h))
    by_words (some p) none h = h
    by_words (some p) (some q) h = absurd (ground (arith, h))

skip_one :
    (depth : ℕ) (line : List ℕ) (lines : List (List ℕ))
    → Plain line
    → matching_end depth (line ∷ lines) ≡ consed line (matching_end depth lines)
unfolding matching_end
skip_one depth line lines h =
    rw (opens-nested (skip_ws line) h.opens_none, h.closes_none, matching_end) refl

pub skip_body :
    (depth : ℕ) (body rest : List (List ℕ))
    → Plains body
    → matching_end depth (body ++ rest) ≡ prepended body (matching_end depth rest)
skip_body depth [] rest h = refl
skip_body depth (line ∷ body) rest h =
    skip_one depth line (body ++ rest) h.0 ∙ ap (consed line) (skip_body depth body rest h.1)

end-matching_end :
    (depth : ℕ) (rest : List (List ℕ))
    → matching_end (suc depth) (end_word ∷ rest) ≡ consed end_word (matching_end depth rest)
unfolding matching_end skip_ws behind
end-matching_end depth rest = refl

if-matching_end :
    (depth : ℕ) (cond : List ℕ) (rest : List (List ℕ))
    → matching_end depth (if_line cond ∷ rest)
      ≡ consed (if_line cond) (matching_end (suc depth) rest)
unfolding matching_end skip_ws behind
if-matching_end depth cond rest = refl

while-matching_end :
    (depth : ℕ) (cond : List ℕ) (rest : List (List ℕ))
    → matching_end depth (while_line cond ∷ rest)
      ≡ consed (while_line cond) (matching_end (suc depth) rest)
unfolding matching_end skip_ws behind
while-matching_end depth cond rest = refl

-- a body, and the `end` behind it
body-matching_end :
    (depth : ℕ) (body rest : List (List ℕ))
    → ((d : ℕ) (after : List (List ℕ))
        → matching_end d (body ++ after) ≡ prepended body (matching_end d after))
    → matching_end (suc depth) ((body ++ end_word ∷ []) ++ rest)
      ≡ prepended (body ++ end_word ∷ []) (matching_end depth rest)
body-matching_end depth body rest h =
    ap (matching_end (suc depth)) (append_assoc body (end_word ∷ []) rest)
    ∙ h (suc depth) (end_word ∷ rest)
    ∙ ap (prepended body) (end-matching_end depth rest)
    ∙ sym (prepended-append body (end_word ∷ []) (matching_end depth rest))

-- The search passes over whole statements.
mutual
  pub stmt-matching_end :
      (s : Stmt)
      → WellFormed s
      → (depth : ℕ) (rest : List (List ℕ))
      → matching_end depth (stmt_lines s ++ rest)
        ≡ prepended (stmt_lines s) (matching_end depth rest)
  stmt-matching_end (simple line) h depth rest = skip_one depth line rest h
  stmt-matching_end (choice cond body) h depth rest =
      let inner = block_lines body in
      if-matching_end depth cond ((inner ++ end_word ∷ []) ++ rest)
      ∙ ap (consed (if_line cond))
          (body-matching_end depth inner rest (block-matching_end body h.1))
  stmt-matching_end (loop cond body) h depth rest =
      while-matching_end depth cond ((body ++ end_word ∷ []) ++ rest)
      ∙ ap (consed (while_line cond))
          (body-matching_end depth body rest (λ d after. skip_body d body after h.1))

  pub block-matching_end :
      (b : Block)
      → WellFormeds b
      → (depth : ℕ) (rest : List (List ℕ))
      → matching_end depth (block_lines b ++ rest)
        ≡ prepended (block_lines b) (matching_end depth rest)
  block-matching_end empty h depth rest = refl
  block-matching_end (s ⨾ b) h depth rest =
      ap (matching_end depth) (append_assoc (stmt_lines s) (block_lines b) rest)
      ∙ stmt-matching_end s h.0 depth (block_lines b ++ rest)
      ∙ ap (prepended (stmt_lines s)) (block-matching_end b h.1 depth rest)
      ∙ sym (prepended-append (stmt_lines s) (block_lines b) (matching_end depth rest))

-- the block behind a line that opens it
pub found_block :
    (body rest : List (List ℕ))
    → ((d : ℕ) (after : List (List ℕ))
        → matching_end d (body ++ after) ≡ prepended body (matching_end d after))
    → matching_end 0 ((body ++ end_word ∷ []) ++ rest) ≡ some (body, rest)
unfolding matching_end skip_ws behind
found_block body rest h =
    ap (matching_end 0) (append_assoc body (end_word ∷ []) rest)
    ∙ h 0 (end_word ∷ rest)
    ∙ prepended-some body rest

pub then_run-ext :
    (r : Run) (f g : Mlang → Run) → ((st : Mlang) → f st ≡ g st) → then_run r f ≡ then_run r g
then_run-ext (done st) f g h = h st
then_run-ext (failed st) f g h = refl
then_run-ext (crashed st) f g h = refl
then_run-ext stuck f g h = refl

-- scripts of fewer than `n` lines do what their programs do
pub record Meant (n : ℕ) (script : List (List ℕ) → Mlang → Run) : Type 0 where
  pub means :
      (b : Block) (st : Mlang)
      → WellFormeds b
      → Lines (block_lines b)
      → length (block_lines b) < n
      → script (block_lines b) st ≡ exec b st

pub Lines-append : (xs ys : List (List ℕ)) → Lines (xs ++ ys) → Lines xs × Lines ys
Lines-append [] ys h = (tt, h)
Lines-append (x ∷ xs) ys h = let (first, second) = Lines-append xs ys h.1 in ((h.0, first), second)

-- the first line of a block opens it, in the body of an if too
nested-if : (cond : List ℕ) → nested (skip_ws (if_line cond)) ≡ true
unfolding skip_ws behind
nested-if cond = refl

nested-while : (cond : List ℕ) → nested (skip_ws (while_line cond)) ≡ true
unfolding skip_ws behind
nested-while cond = refl

module _ (n : ℕ) (script : List (List ℕ) → Mlang → Run) (meant : Meant n script)
    (small : n ≤ 64) where
  abbrev pub handed : List ℕ → Mlang → Run
  handed sub = script (split_lines max_lines sub)

  -- The rest of a body from a nested block on is run as a script.
  handed-exec :
      (b : Block) (st : Mlang)
      → WellFormeds b
      → Lines (block_lines b)
      → length (block_lines b) < n
      → handed (join_lines (block_lines b) []) st ≡ exec b st
  handed-exec b st h lines few =
      ap (λ ls. script ls st) (split_lines-join_lines (block_lines b) lines (omega arith))
      ∙ meant.means b st h lines few

  pub run_body-exec :
      (b : Block) (st : Mlang)
      → WellFormeds b
      → Lines (block_lines b)
      → length (block_lines b) < n
      → run_body handed (block_lines b) st ≡ exec b st
  unfolding run_body
  run_body-exec empty st h lines few = refl
  run_body-exec (simple line ⨾ b) st h lines few =
      rw (h.0.opens_none, run_body)
        (then_run-ext (mlang_exec_line line st) (run_body handed (block_lines b)) (exec b)
          (λ st'. run_body-exec b st' h.1 lines.1 (omega arith)))
  run_body-exec (choice cond body ⨾ b) st h lines few =
      rw (nested-if cond, run_body) (handed-exec (choice cond body ⨾ b) st h lines few)
  run_body-exec (loop cond body ⨾ b) st h lines few =
      rw (nested-while cond, run_body) (handed-exec (loop cond body ⨾ b) st h lines few)
