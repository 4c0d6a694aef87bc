-- ===== src/Mylang/Halts.antt =====
-- Lines and conditions of src/mlang.c end.
use mykernel.Base.{
  ℕ, refl, ◌≢◌, Bool, true, false, not, Option, none, some, List, [], ◌∷◌, arith, ◌==◌,
  if◌then◌else◌,
}
use mykernel.Mylang.{
  Var, peek, skip_ws, Value, value_is, bad, exception, endless, eval_expr, var_set, read_name,
  is_ident_start,
}
use mykernel.Mylang.Command.{
  Mlang, Run, done, failed, crashed, stuck, then_run, print_of, print_rest, command, assign_line,
  assignment, printed, assigned, stored, is_empty, mlang_exec_line,
}
use mykernel.Mylang.Script.{
  Op, find_op, compared, Test, result, endless_test, with_value, operand, eval_condition,
}
use mykernel.Mylang.Ends.{eval_expr-not_endless}

abbrev Completes : Run → Type 0
Completes stuck = ⊥
Completes _ = Unit

pub record Complete (r : Run) : Type 0 where
  pub ends : Completes r

pub then_run-Complete :
    (r : Run) (f : Mlang → Run)
    → Complete r
    → ((st : Mlang) → Complete (f st))
    → Complete (then_run r f)
then_run-Complete (done st) f h g = g st
then_run-Complete (failed st) f h g = record { ends = tt }
then_run-Complete (crashed st) f h g = record { ends = tt }
then_run-Complete stuck f h g = absurd h.ends

if-Complete : (b : Bool) (x y : Run) → Complete x → Complete y → Complete (if b then x else y)
if-Complete true x y h g = h
if-Complete false x y h g = g

printed-Complete : (v : Value) (st : Mlang) → v ≢ endless → Complete (printed v st)
printed-Complete (value_is v) st h = record { ends = tt }
printed-Complete bad st h = record { ends = tt }
printed-Complete exception st h = record { ends = tt }
printed-Complete endless st h = absurd (h refl)

stored-Complete : (o : Option (List Var)) (st : Mlang) → Complete (stored o st)
stored-Complete none st = record { ends = tt }
stored-Complete (some vars) st = record { ends = tt }

assigned-Complete :
    (name : List ℕ) (v : Value) (st : Mlang) → v ≢ endless → Complete (assigned name v st)
assigned-Complete name (value_is v) st h = stored-Complete (var_set name v st.vars) st
assigned-Complete name bad st h = record { ends = tt }
assigned-Complete name exception st h = record { ends = tt }
assigned-Complete name endless st h = absurd (h refl)

assignment-Complete : (name q : List ℕ) (st : Mlang) → Complete (assignment name q st)
assignment-Complete name [] st = record { ends = tt }
assignment-Complete name (c ∷ q) st =
    if-Complete (c == b'=') _ _
      (assigned-Complete name (eval_expr st.vars (skip_ws q)) st
        (eval_expr-not_endless st.vars (skip_ws q)))
      (record { ends = tt })

print_rest-Complete : (p : List ℕ) (st : Mlang) → Complete (print_rest p st)
print_rest-Complete p st =
    if-Complete (peek p == b'"') _ _ (record { ends = tt })
      (printed-Complete (eval_expr st.vars p) st (eval_expr-not_endless st.vars p))

assign_line-Complete : (p : List ℕ) (st : Mlang) → Complete (assign_line p st)
assign_line-Complete p st =
    let r = read_name 15 p in
    if-Complete (is_ident_start (peek p)) _ _ (assignment-Complete r.0 (skip_ws r.1) st)
      (record { ends = tt })

command-Complete : (o : Option (List ℕ)) (p : List ℕ) (st : Mlang) → Complete (command o p st)
command-Complete none p st = assign_line-Complete p st
command-Complete (some q) p st = print_rest-Complete (skip_ws q) st

-- A line ends.
pub mlang_exec_line-Complete : (line : List ℕ) (st : Mlang) → Complete (mlang_exec_line line st)
unfolding mlang_exec_line
mlang_exec_line-Complete line st =
    let p = skip_ws line in
    if-Complete (is_empty p) _ _ (record { ends = tt }) (command-Complete (print_of p) p st)

with_value-Ends :
    (v : Value) (f : ℕ → Test)
    → v ≢ endless
    → ((a : ℕ) → f a ≢ endless_test)
    → with_value v f ≢ endless_test
with_value-Ends (value_is v) f h g = g v
with_value-Ends bad f h g = λ e. ground arith
with_value-Ends exception f h g = λ e. ground arith
with_value-Ends endless f h g = absurd (h refl)

-- The evaluation of a condition ends.
pub eval_condition-Ends :
    (vars : List Var) (cond : List ℕ) → eval_condition vars cond ≢ endless_test
unfolding eval_condition
eval_condition-Ends vars cond = by_op (skip_ws cond) (find_op (skip_ws cond))
  where
    by_op :
        (p : List ℕ) (o : Option (List ℕ × Op × List ℕ))
        → (elim o [
          | none ↦ with_value (eval_expr vars p) (λ v. result (not (v == 0)))
          | some (left, op, right) ↦
              with_value
                (eval_expr vars (operand left))
                (λ a. with_value (eval_expr vars (operand right)) (λ b. result (compared op a b)))
        ])
          ≢ endless_test
    by_op p none =
        with_value-Ends (eval_expr vars p) (λ v. result (not (v == 0)))
          (eval_expr-not_endless vars p) (λ v e. ground arith)
    by_op p (some (left, op, right)) =
        with_value-Ends (eval_expr vars (operand left))
          (λ a. with_value (eval_expr vars (operand right)) (λ b. result (compared op a b)))
          (eval_expr-not_endless vars (operand left))
          (λ a.
            with_value-Ends (eval_expr vars (operand right)) (λ b. result (compared op a b))
              (eval_expr-not_endless vars (operand right)) (λ b e. ground arith))
