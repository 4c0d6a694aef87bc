-- ===== src/Mylang/Programs.antt =====
-- Programs of MyLang as trees, independent of src/mlang.c: their lines, and what they do.
use mykernel.Base.{ℕ, ◌≡◌, refl, ap, true, false, Option, some, List, [], ◌∷◌, ◌++◌}
use mykernel.Mylang.{str_eq, skip_ws}
use mykernel.Mylang.Command.{
  Mlang, Run, done, crashed, stuck, then_run, say_failed, mlang_exec_line, bad_condition,
}
use mykernel.Mylang.Script.{
  Test, result, bad_test, exception_test, endless_test, eval_condition, if_word, while_word,
  end_word, nested, consed, run_while,
}
use mykernel.Mylang.Words.{Solid}

mutual
  pub data Stmt : Type 0 where
    simple : List ℕ → Stmt
    choice : (cond : List ℕ) → Block → Stmt
    loop : (cond : List ℕ) (body : List (List ℕ)) → Stmt

  pub data Block : Type 0 where
    empty : Block
    ◌⨾◌ : Stmt → Block → Block

infixr 20 ◌⨾◌
-- the line that opens a block
abbrev pub if_line : List ℕ → List ℕ
if_line cond = if_word ++ (b' ' ∷ cond)

abbrev pub while_line : List ℕ → List ℕ
while_line cond = while_word ++ (b' ' ∷ cond)

abbrev mutual
  pub stmt_lines : Stmt → List (List ℕ)
  stmt_lines (simple line) = line ∷ []
  stmt_lines (choice cond body) = if_line cond ∷ (block_lines body ++ end_word ∷ [])
  stmt_lines (loop cond body) = while_line cond ∷ (body ++ end_word ∷ [])

  pub block_lines : Block → List (List ℕ)
  block_lines empty = []
  block_lines (s ⨾ b) = stmt_lines s ++ block_lines b

-- the body of an if runs when the condition holds, and a condition that has no value is reported
abbrev pub chosen : Test → (Mlang → Run) → Mlang → Run
chosen (result true) f st = f st
chosen (result false) f st = done st
chosen bad_test f st = say_failed bad_condition st
chosen exception_test f st = crashed st
chosen endless_test f st = stuck

-- What a program does. A while goes on for at most 10000 rounds.
abbrev mutual
  pub exec_stmt : Stmt → Mlang → Run
  exec_stmt (simple line) st = mlang_exec_line line st
  exec_stmt (choice cond body) st = chosen (eval_condition st.vars cond) (exec body) st
  exec_stmt (loop cond body) st = run_while 10000 cond body st

  pub exec : Block → Mlang → Run
  exec empty st = done st
  exec (s ⨾ b) st = then_run (exec_stmt s st) (exec b)

-- a line that neither opens nor ends a block
pub record Plain (line : List ℕ) : Type 0 where
  pub opens_none : nested (skip_ws line) ≡ false
  pub closes_none : str_eq (skip_ws line) end_word ≡ false

abbrev pub Plains : List (List ℕ) → Type 0
Plains [] = Unit
Plains (line ∷ lines) = Plain line × Plains lines

abbrev mutual
  pub WellFormed : Stmt → Type 0
  WellFormed (simple line) = Plain line
  WellFormed (choice cond body) = Solid cond × WellFormeds body
  WellFormed (loop cond body) = Solid cond × Plains body

  pub WellFormeds : Block → Type 0
  WellFormeds empty = Unit
  WellFormeds (s ⨾ b) = WellFormed s × WellFormeds b

abbrev pub prepended :
    List (List ℕ) → Option (List (List ℕ) × List (List ℕ)) → Option (List (List ℕ) × List (List ℕ))
prepended [] o = o
prepended (line ∷ lines) o = consed line (prepended lines o)

pub prepended-append :
    (xs ys : List (List ℕ)) (o : Option (List (List ℕ) × List (List ℕ)))
    → prepended (xs ++ ys) o ≡ prepended xs (prepended ys o)
prepended-append [] ys o = refl
prepended-append (x ∷ xs) ys o = ap (consed x) (prepended-append xs ys o)

pub prepended-some : (xs after : List (List ℕ)) → prepended xs (some ([], after)) ≡ some (xs, after)
prepended-some [] after = refl
prepended-some (x ∷ xs) after = ap (consed x) (prepended-some xs after)
