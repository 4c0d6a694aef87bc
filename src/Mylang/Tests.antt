-- ===== src/Mylang/Tests.antt =====
-- Runs of MyLang programs, and the theorems on src/mlang.c at concrete programs.
use mykernel.Base.{
  ℕ, ◌-◌, ◌^◌, ◌<◌, ◌≤◌, ◌≡◌, ◌≢◌, refl, Bool, true, ◌&&◌, not, some, List, [], ◌∷◌, ◌++◌, arith,
  ltb, ◌==◌, length, Bool-cases, inl, inr,
}
use mykernel.Calc.{
  skip_blanks, quotient, power_loop, ipow, read_digits, close_paren, divide, parse_factor, at_end,
  calc_eval,
}
use mykernel.Mylang.{
  Var, no_vars, str_eq, skip_ws, var_find, update_var, add_var, var_set, value_of, read_name,
  put_all, fill_tmp, expand_loop, expand_expr, value_is, eval_expr,
}
use mykernel.Mylang.Command.{Mlang, Run, done, behind, quoted, print_word, mlang_exec_line}
use mykernel.Mylang.Script.{
  op_at, find_op, eval_condition, matching_end, read_line, split_lines, join_lines, run_lines,
  run_while, run_body, run_script, mlang_exec_script,
}
use mykernel.Mylang.Lines.{Clean, Line, Lines, flat}
use mykernel.Mylang.Texts.{
  Formula, constant, variable, negative, sum, product, Name, Named, source, value,
}
use mykernel.Mylang.Programs.{
  simple, choice, loop, Block, empty, ◌⨾◌, block_lines, exec, Plain, WellFormeds,
}
use mykernel.Mylang.Values.{eval_expr-source}
use mykernel.Mylang.Table.{Found, var_set-Found}
use mykernel.Mylang.Commands.{Assigned, mlang_exec_line-assignment}
use mykernel.Mylang.Halts.{Complete}
use mykernel.Mylang.Terminates.{mlang_exec_script-Complete}
use mykernel.Mylang.Refines.{mlang_exec_script-exec}

abbrev start : Mlang
start = record { vars = no_vars; screen = [] }

abbrev first_line : List ℕ
first_line = b'x' ∷ b' ' ∷ b'=' ∷ b' ' ∷ b'3' ∷ []

abbrev countdown : List ℕ
countdown = b'x' ∷ b' ' ∷ b'=' ∷ b' ' ∷ b'x' ∷ b' ' ∷ b'-' ∷ b' ' ∷ b'1' ∷ []

abbrev print_x : List ℕ
print_x = b'p' ∷ b'r' ∷ b'i' ∷ b'n' ∷ b't' ∷ b' ' ∷ b'x' ∷ []

abbrev x_positive : List ℕ
x_positive = b'x' ∷ b' ' ∷ b'>' ∷ b' ' ∷ b'0' ∷ []

abbrev x_large : List ℕ
x_large = b'x' ∷ b' ' ∷ b'>' ∷ b' ' ∷ b'5' ∷ []

-- x = 3, and in an if a nested if and a while
abbrev program : Block
program =
    simple first_line
    ⨾ choice x_positive (
        choice x_large (simple print_x ⨾ empty)
        ⨾ loop x_positive (print_x ∷ countdown ∷ [])
        ⨾ empty)
    ⨾ simple print_x
    ⨾ empty

abbrev screen_of : Run → List ℕ
screen_of (done st) = st.screen
screen_of r = []

program_runs :
    screen_of (mlang_exec_script (flat (block_lines program)) start)
    ≡ b'3' ∷ b'\n' ∷ b'2' ∷ b'\n' ∷ b'1' ∷ b'\n' ∷ b'0' ∷ b'\n' ∷ []
unfolding mlang_exec_script run_script run_body run_while run_lines join_lines split_lines read_line
    matching_end eval_condition find_op op_at mlang_exec_line quoted behind eval_expr expand_expr
    expand_loop fill_tmp put_all read_name var_set add_var update_var var_find skip_ws calc_eval
    at_end parse_factor divide close_paren read_digits ipow power_loop quotient skip_blanks
program_runs = refl

-- no newline, as a test
abbrev is_clean : List ℕ → Bool
is_clean [] = true
is_clean (c ∷ s) = not (c == b'\n') && is_clean s

is_clean-Clean : (s : List ℕ) → is_clean s ≡ true → Clean s
is_clean-Clean [] h = tt
is_clean-Clean (c ∷ s) h = ((λ e. ground (arith, h, e)), is_clean-Clean s (ground (arith, h)))

is_clean-Line : (s : List ℕ) → length s ≤ 127 → is_clean s ≡ true → Line s
is_clean-Line s le h = record { short = le; clean = is_clean-Clean s h }

abbrev are_lines : List (List ℕ) → Bool
are_lines [] = true
are_lines (s ∷ lines) = ltb (length s) 128 && is_clean s && are_lines lines

are_lines-Lines : (lines : List (List ℕ)) → are_lines lines ≡ true → Lines lines
are_lines-Lines [] h = tt
are_lines-Lines (s ∷ lines) h = (
  is_clean-Line s (ground (arith, h)) (ground (arith, h)),
  are_lines-Lines lines (ground (arith, h)),
)

program-WellFormeds : WellFormeds program
unfolding skip_ws behind
program-WellFormeds =
    let print_plain : Plain print_x = record { opens_none = refl; closes_none = refl } in
    let first_plain : Plain first_line = record { opens_none = refl; closes_none = refl } in
    let down_plain : Plain countdown = record { opens_none = refl; closes_none = refl } in
    (
      first_plain,
      (
        (
          record { solid = refl },
          (
            (record { solid = refl }, (print_plain, tt)),
            ((record { solid = refl }, (print_plain, (down_plain, tt))), tt),
          ),
        ),
        (print_plain, tt),
      ),
    )

program-Lines : Lines (block_lines program)
program-Lines = are_lines-Lines (block_lines program) refl

mlang_exec_script-exec_example :
    mlang_exec_script (flat (block_lines program)) start ≡ exec program start
mlang_exec_script-exec_example =
    mlang_exec_script-exec program start program-WellFormeds program-Lines (omega arith)

mlang_exec_script-Complete_example : Complete (mlang_exec_script (flat (block_lines program)) start)
mlang_exec_script-Complete_example = mlang_exec_script-Complete (flat (block_lines program)) start

abbrev x_name : List ℕ
x_name = b'x' ∷ []

-- x is -5
abbrev one_var : List Var
one_var = record { name = x_name; value = 2 ^ 32 - 5; used = true } ∷ no_vars

-- -(x) * 2 + y
abbrev formula : Formula
formula = sum (product (negative (variable x_name)) (constant 2)) (variable (b'y' ∷ []))

formula-Named : Named formula
formula-Named =
    let x : Name x_name = record { starts = refl; idents = (refl, tt); short = omega arith } in
    let y : Name (b'y' ∷ []) = record { starts = refl; idents = (refl, tt); short = omega arith } in
    ((x, tt), y)

one_var-words : (x : List ℕ) → value_of x one_var < 2 ^ 32
unfolding var_find
one_var-words x = elim (Bool-cases (str_eq x_name x)) [
  | inl e ↦ rw e (omega arith)
  | inr e ↦ rw e (omega arith)
]

formula-value : value (λ x. value_of x one_var) formula ≡ some 10
unfolding var_find
formula-value = refl

eval_expr-source_example : eval_expr one_var (source formula) ≡ value_is 10
unfolding var_find
eval_expr-source_example =
    eval_expr-source one_var formula 10 formula-Named one_var-words (omega arith) formula-value

abbrev running : Mlang
running = record { vars = one_var; screen = [] }

mlang_exec_line-assignment_example :
    Assigned x_name 10 running
      (mlang_exec_line (x_name ++ (b' ' ∷ b'=' ∷ b' ' ∷ source formula)) running)
unfolding var_find
mlang_exec_line-assignment_example =
    mlang_exec_line-assignment running formula 10 formula-Named one_var-words (omega arith)
      formula-value x_name formula-Named.0.0 x_not_print
  where
    x_not_print : x_name ≢ print_word
    x_not_print e = ground (arith, e)

abbrev changed_var : List Var
changed_var = record { name = x_name; value = 10; used = true } ∷ no_vars

var_set-Found_example : Found x_name 10 one_var changed_var
unfolding var_set update_var var_find
var_set-Found_example = var_set-Found x_name 10 one_var changed_var (omega arith) refl
