-- ===== src/Mylang/Script.antt =====
-- src/mlang.c: conditions and scripts, lines with if and while blocks.
use mykernel.Base.{
  ℕ, zero, suc, ◌+◌, ◌-◌, ◌*◌, ◌^◌, Bool, true, false, ◌&&◌, ◌||◌, not, Option, none, some, List,
  [], ◌∷◌, ◌++◌, leb, ltb, ◌==◌, u32, if◌then◌else◌, length, take,
}
use mykernel.Mylang.{
  max_line, max_lines, Var, str_eq, peek, skip_ws, Value, value_is, bad, exception, endless,
  eval_expr,
}
use mykernel.Mylang.Command.{
  Mlang, Run, done, crashed, stuck, then_run, say_failed, behind, is_blank, is_empty,
  mlang_exec_line, unexpected_end, bad_condition, if_without_end, while_without_end,
}

-- the operators of a condition
pub data Op : Type 0 where
  eq : Op
  ne : Op
  le : Op
  ge : Op
  lt : Op
  gt : Op

-- an operator at the start of the text, and what is behind it
unfoldable pub op_at : List ℕ → Option (Op × List ℕ)
op_at [] = none
op_at (c ∷ q) =
    let behind_two : List ℕ = elim q [ [] ↦ [] | _ ∷ r ↦ r ] in
    if c == b'=' && peek q == b'='
    then some (eq, behind_two)
    else if c == b'!' && peek q == b'='
    then some (ne, behind_two)
    else if c == b'<' && peek q == b'='
    then some (le, behind_two)
    else if c == b'>' && peek q == b'='
    then some (ge, behind_two)
    else if c == b'<'
    then some (lt, q)
    else if c == b'>'
    then some (gt, q)
    else none

-- the first operator, with the text before and behind it
unfoldable pub find_op : List ℕ → Option (List ℕ × Op × List ℕ)
find_op [] = none
find_op (c ∷ q) =
    let later = find_op q in
    elim (op_at (c ∷ q)) [
      | some (op, right) ↦ some ([], op, right)
      | none ↦ elim later [ some (left, op, right) ↦ some (c ∷ left, op, right) | none ↦ none ]
    ]

-- the order of signed values
abbrev pub below : ℕ → ℕ → Bool
below a b = ltb (u32 (a + 2 ^ 31)) (u32 (b + 2 ^ 31))

abbrev pub compared : Op → ℕ → ℕ → Bool
compared eq a b = a == b
compared ne a b = not (a == b)
compared le a b = not (below b a)
compared ge a b = not (below a b)
compared lt a b = below a b
compared gt a b = below b a

-- What a condition gives: a result, the code -1, or the exception of the processor.
pub data Test : Type 0 where
  result : Bool → Test
  bad_test : Test
  exception_test : Test
  endless_test : Test

abbrev pub with_value : Value → (ℕ → Test) → Test
with_value (value_is v) f = f v
with_value bad f = bad_test
with_value exception f = exception_test
with_value endless f = endless_test

-- The sides are cut to the size of their buffers.
abbrev pub operand : List ℕ → List ℕ
operand s = take 63 s

unfoldable pub eval_condition : List Var → List ℕ → Test
eval_condition vars cond =
    let p = skip_ws cond in
    elim (find_op p) [
      | none ↦ with_value (eval_expr vars p) (λ v. result (not (v == 0)))
      | some (left, op, right) ↦
          with_value (eval_expr vars (operand left))
            (λ a. with_value (eval_expr vars (operand right)) (λ b. result (compared op a b)))
    ]

abbrev pub if_word : List ℕ
if_word = b'i' ∷ b'f' ∷ []

abbrev pub while_word : List ℕ
while_word = b'w' ∷ b'h' ∷ b'i' ∷ b'l' ∷ b'e' ∷ []

abbrev pub end_word : List ℕ
end_word = b'e' ∷ b'n' ∷ b'd' ∷ []

-- the text behind the word when a blank follows it
abbrev pub blank_end : Option (List ℕ) → Option (List ℕ)
blank_end none = none
blank_end (some q) = if is_blank (peek q) then some q else none

abbrev pub keyword : List ℕ → List ℕ → Option (List ℕ)
keyword word t = blank_end (behind word t)

abbrev pub is_some : Option (List ℕ) → Bool
is_some none = false
is_some (some q) = true

abbrev pub opens : List ℕ → Bool
opens t = is_some (keyword if_word t) || is_some (keyword while_word t)

-- The test in the body of an if: no blank is asked for behind `while`.
abbrev pub nested : List ℕ → Bool
nested t = is_some (keyword if_word t) || is_some (behind while_word t)

abbrev pub consed :
    List ℕ → Option (List (List ℕ) × List (List ℕ)) → Option (List (List ℕ) × List (List ℕ))
consed line none = none
consed line (some (body, after)) = some (line ∷ body, after)

-- at an `end`, with the loop that goes on
abbrev pub closed :
    (depth : ℕ) (line : List ℕ) (lines : List (List ℕ))
    → (ℕ → Option (List (List ℕ) × List (List ℕ)))
    → Option (List (List ℕ) × List (List ℕ))
closed zero line lines loop = some ([], lines)
closed (suc d) line lines loop = consed line (loop d)

-- The lines up to the `end` of the block, and the lines behind it; `depth` blocks are open in the
-- block.
unfoldable pub matching_end : (depth : ℕ) → List (List ℕ) → Option (List (List ℕ) × List (List ℕ))
matching_end depth [] = none
matching_end depth (line ∷ lines) =
    let t = skip_ws line in
    elim (opens t) [
      | true ↦ consed line (matching_end (suc depth) lines)
      | false ↦ elim (str_eq t end_word) [
        | true ↦ closed depth line lines (λ d. matching_end d lines)
        | false ↦ consed line (matching_end depth lines)
      ]
    ]

-- The characters of a line, and the text behind it with its newline skipped.
unfoldable pub read_line : (room : ℕ) → List ℕ → List ℕ × List ℕ
read_line room [] = ([], [])
read_line zero (c ∷ s) = if c == b'\n' then ([], s) else ([], c ∷ s)
read_line (suc room) (c ∷ s) =
    let more = read_line room s in if c == b'\n' then ([], s) else (c ∷ more.0, more.1)

-- At most `n` lines.
unfoldable pub split_lines : (n : ℕ) → List ℕ → List (List ℕ)
split_lines n [] = []
split_lines zero (c ∷ s) = []
split_lines (suc n) (c ∷ s) = let r = read_line (max_line - 1) (c ∷ s) in r.0 ∷ split_lines n r.1

-- The lines joined in `sub`, as far as they fit.
unfoldable pub join_lines : List (List ℕ) → (sub : List ℕ) → List ℕ
join_lines [] sub = sub
join_lines (line ∷ lines) sub =
    let more = join_lines lines (sub ++ (line ++ b'\n' ∷ [])) in
    if leb (max_lines * max_line) (length sub + length line + 2) then sub else more

-- the lines of the body of a while
unfoldable pub run_lines : List (List ℕ) → Mlang → Run
run_lines [] st = done st
run_lines (line ∷ lines) st = then_run (mlang_exec_line line st) (run_lines lines)

-- behind the test of a while: one more round, or the end of the loop
abbrev pub while_tested : (round : Mlang → Run) → Test → Mlang → Run
while_tested round (result true) st = round st
while_tested round (result false) st = done st
while_tested round bad_test st = say_failed bad_condition st
while_tested round exception_test st = crashed st
while_tested round endless_test st = stuck

-- at most `iter` rounds
unfoldable pub run_while : (iter : ℕ) (cond : List ℕ) (body : List (List ℕ)) → Mlang → Run
run_while zero cond body st = done st
run_while (suc iter) cond body st =
    while_tested (λ st'. then_run (run_lines body st') (run_while iter cond body))
      (eval_condition st.vars cond) st

-- the body of an if, whose rest from a nested block on is a script of its own
unfoldable pub run_body : (script : List ℕ → Mlang → Run) → List (List ℕ) → Mlang → Run
run_body script [] st = done st
run_body script (line ∷ lines) st = elim (nested (skip_ws line)) [
  | true ↦ script (join_lines (line ∷ lines) []) st
  | false ↦ then_run (mlang_exec_line line st) (run_body script lines)
]

-- The rest of a script, as a function that runs lines.
module _ (script : List (List ℕ) → Mlang → Run) where
  abbrev pub if_block : Bool → Option (List (List ℕ) × List (List ℕ)) → Mlang → Run
  if_block c none st = say_failed if_without_end st
  if_block true (some (body, after)) st =
      then_run (run_body (λ sub. script (split_lines max_lines sub)) body st) (script after)
  if_block false (some (body, after)) st = script after st

  -- behind the test of an if
  abbrev pub if_tested : Test → Option (List (List ℕ) × List (List ℕ)) → Mlang → Run
  if_tested (result c) block st = if_block c block st
  if_tested bad_test block st = say_failed bad_condition st
  if_tested exception_test block st = crashed st
  if_tested endless_test block st = stuck

  abbrev pub while_block : (cond : List ℕ) → Option (List (List ℕ) × List (List ℕ)) → Mlang → Run
  while_block cond none st = say_failed while_without_end st
  while_block cond (some (body, after)) st = then_run (run_while 10000 cond body st) (script after)

  -- a line that is not an `end`, with the conditions when it opens a block
  abbrev pub block_at :
      (line : List ℕ) (lines : List (List ℕ)) → (if_cond while_cond : Option (List ℕ)) → Mlang → Run
  block_at line lines (some cond) w st =
      if_tested (eval_condition st.vars (skip_ws cond)) (matching_end 0 lines) st
  block_at line lines none (some cond) st = while_block (skip_ws cond) (matching_end 0 lines) st
  block_at line lines none none st = then_run (mlang_exec_line line st) (script lines)

-- One unit of fuel for each round of the loop and each call.
unfoldable pub run_script : (fuel : ℕ) → (lines : List (List ℕ)) → Mlang → Run
run_script zero lines st = stuck
run_script (suc n) [] st = done st
run_script (suc n) (line ∷ lines) st =
    let p = skip_ws line in
    elim (is_empty p) [
      | true ↦ run_script n lines st
      | false ↦ elim (str_eq p end_word) [
        | true ↦ say_failed unexpected_end st
        | false ↦ block_at (run_script n) line lines (keyword if_word p) (keyword while_word p) st
      ]
    ]

unfoldable pub mlang_exec_script : List ℕ → Mlang → Run
mlang_exec_script text st = run_script (max_lines + 1) (split_lines max_lines text) st
