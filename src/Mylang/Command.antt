-- ===== src/Mylang/Command.antt =====
-- src/mlang.c: what a line of MyLang does.
use mykernel.Base.{
  ℕ, ◌-◌, ◌^◌, Bool, ◌||◌, Option, none, some, List, [], ◌∷◌, ◌++◌, ◌==◌, if◌then◌else◌,
}
use mykernel.Calc.{is_negative}
use mykernel.Mylang.{
  Value, Var, bad, digits, endless, eval_expr, exception, is_ident_start, max_name, peek, read_name,
  skip_ws, value_is, var_set,
}

-- The state: the variables and what the terminal has been given.
pub record Mlang : Type 0 where
  pub vars : List Var
  pub screen : List ℕ

abbrev pub writes : List ℕ → Mlang → Mlang
writes s st = record st { screen = st.screen ++ s }

-- How a function of the interpreter ends: with 0, with -1, or not at all.
pub data Run : Type 0 where
  done : Mlang → Run
  failed : Mlang → Run
  crashed : Mlang → Run
  stuck : Run

abbrev pub then_run : Run → (Mlang → Run) → Run
then_run (done st) f = f st
then_run (failed st) f = failed st
then_run (crashed st) f = crashed st
then_run stuck f = stuck

abbrev bad_expression : List ℕ
bad_expression =
    b'm' ∷ b'l' ∷ b'a' ∷ b'n' ∷ b'g' ∷ b':' ∷ b' ' ∷ b'b' ∷ b'a' ∷ b'd' ∷ b' ' ∷ b'e' ∷ b'x' ∷ b'p'
    ∷ b'r' ∷ b'e' ∷ b's' ∷ b's' ∷ b'i' ∷ b'o' ∷ b'n' ∷ b'\n' ∷ []

abbrev too_many : List ℕ
too_many =
    b'm' ∷ b'l' ∷ b'a' ∷ b'n' ∷ b'g' ∷ b':' ∷ b' ' ∷ b't' ∷ b'o' ∷ b'o' ∷ b' ' ∷ b'm' ∷ b'a' ∷ b'n'
    ∷ b'y' ∷ b' ' ∷ b'v' ∷ b'a' ∷ b'r' ∷ b'i' ∷ b'a' ∷ b'b' ∷ b'l' ∷ b'e' ∷ b's' ∷ b'\n' ∷ []

abbrev syntax_error : List ℕ
syntax_error =
    b'm' ∷ b'l' ∷ b'a' ∷ b'n' ∷ b'g' ∷ b':' ∷ b' ' ∷ b's' ∷ b'y' ∷ b'n' ∷ b't' ∷ b'a' ∷ b'x' ∷ b' '
    ∷ b'e' ∷ b'r' ∷ b'r' ∷ b'o' ∷ b'r' ∷ b'\n' ∷ []

abbrev pub unexpected_end : List ℕ
unexpected_end =
    b'm' ∷ b'l' ∷ b'a' ∷ b'n' ∷ b'g' ∷ b':' ∷ b' ' ∷ b'u' ∷ b'n' ∷ b'e' ∷ b'x' ∷ b'p' ∷ b'e' ∷ b'c'
    ∷ b't' ∷ b'e' ∷ b'd' ∷ b' ' ∷ b'e' ∷ b'n' ∷ b'd' ∷ b'\n' ∷ []

abbrev pub bad_condition : List ℕ
bad_condition =
    b'm' ∷ b'l' ∷ b'a' ∷ b'n' ∷ b'g' ∷ b':' ∷ b' ' ∷ b'b' ∷ b'a' ∷ b'd' ∷ b' ' ∷ b'c' ∷ b'o' ∷ b'n'
    ∷ b'd' ∷ b'i' ∷ b't' ∷ b'i' ∷ b'o' ∷ b'n' ∷ b'\n' ∷ []

abbrev pub if_without_end : List ℕ
if_without_end =
    b'm' ∷ b'l' ∷ b'a' ∷ b'n' ∷ b'g' ∷ b':' ∷ b' ' ∷ b'i' ∷ b'f' ∷ b' ' ∷ b'w' ∷ b'i' ∷ b't' ∷ b'h'
    ∷ b'o' ∷ b'u' ∷ b't' ∷ b' ' ∷ b'e' ∷ b'n' ∷ b'd' ∷ b'\n' ∷ []

abbrev pub while_without_end : List ℕ
while_without_end =
    b'm' ∷ b'l' ∷ b'a' ∷ b'n' ∷ b'g' ∷ b':' ∷ b' ' ∷ b'w' ∷ b'h' ∷ b'i' ∷ b'l' ∷ b'e' ∷ b' ' ∷ b'w'
    ∷ b'i' ∷ b't' ∷ b'h' ∷ b'o' ∷ b'u' ∷ b't' ∷ b' ' ∷ b'e' ∷ b'n' ∷ b'd' ∷ b'\n' ∷ []

abbrev pub say_failed : List ℕ → Mlang → Run
say_failed message st = failed (writes message st)

-- `terminal_write_uint` and `terminal_write_int`
abbrev pub write_uint : ℕ → List ℕ
write_uint value = digits 10 value

abbrev pub write_int : ℕ → List ℕ
write_int value = if is_negative value then b'-' ∷ write_uint (2 ^ 32 - value) else write_uint value

-- the rest behind a word
unfoldable pub behind : (word p : List ℕ) → Option (List ℕ)
behind [] p = some p
behind (w ∷ word) [] = none
behind (w ∷ word) (c ∷ p) = let more = behind word p in if w == c then more else none

abbrev pub is_blank : ℕ → Bool
is_blank c = c == b' ' || c == b'\t'

-- up to the closing quote
unfoldable pub quoted : List ℕ → List ℕ
quoted [] = []
quoted (c ∷ p) = let more = quoted p in if c == b'"' then [] else c ∷ more

-- behind `eval_expr` in a print and in an assignment
abbrev pub printed : Value → Mlang → Run
printed (value_is v) st = done (writes (write_int v ++ b'\n' ∷ []) st)
printed bad st = say_failed bad_expression st
printed exception st = crashed st
printed endless st = stuck

abbrev pub stored : Option (List Var) → Mlang → Run
stored (some vars) st = done (record st { vars = vars })
stored none st = say_failed too_many st

abbrev pub assigned : (name : List ℕ) → Value → Mlang → Run
assigned name (value_is v) st = stored (var_set name v st.vars) st
assigned name bad st = say_failed bad_expression st
assigned name exception st = crashed st
assigned name endless st = stuck

abbrev pub print_word : List ℕ
print_word = b'p' ∷ b'r' ∷ b'i' ∷ b'n' ∷ b't' ∷ []

abbrev pub print_rest : List ℕ → Mlang → Run
print_rest p st =
    if peek p == b'"'
    then done (writes (quoted (elim p [ [] ↦ [] | _ ∷ q ↦ q ]) ++ b'\n' ∷ []) st)
    else printed (eval_expr st.vars p) st

abbrev pub assignment : (name q : List ℕ) → Mlang → Run
assignment name [] st = say_failed syntax_error st
assignment name (c ∷ q) st =
    if c == b'='
    then assigned name (eval_expr st.vars (skip_ws q)) st
    else say_failed syntax_error st

-- a line that is not a print
abbrev pub assign_line : List ℕ → Mlang → Run
assign_line p st =
    let r = read_name (max_name - 1) p in
    if is_ident_start (peek p) then assignment r.0 (skip_ws r.1) st else say_failed syntax_error st

-- a word ends here
abbrev pub word_end : Option (List ℕ) → Option (List ℕ)
word_end none = none
word_end (some q) = if is_blank (peek q) || peek q == 0 then some q else none

-- the text behind `print` when the word ends there
abbrev pub print_of : List ℕ → Option (List ℕ)
print_of p = word_end (behind print_word p)

abbrev pub is_empty : List ℕ → Bool
is_empty p = peek p == 0 || peek p == b'#'

abbrev pub command : Option (List ℕ) → List ℕ → Mlang → Run
command (some q) p st = print_rest (skip_ws q) st
command none p st = assign_line p st

unfoldable pub mlang_exec_line : List ℕ → Mlang → Run
mlang_exec_line line st =
    let p = skip_ws line in if is_empty p then done st else command (print_of p) p st
