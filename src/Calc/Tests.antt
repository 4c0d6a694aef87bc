-- ===== src/Calc/Tests.antt =====
-- Runs of src/calc.c, and its theorems there.
use mykernel.Base.{◌≡◌, ◌≢◌, refl, false, true, [], ◌∷◌}
use mykernel.Calc.{
  returns, spent, parse_factor, skip_blanks, read_digits, close_paren, divide, quotient, at_end,
  calc_eval,
}
use mykernel.Calc.Syntax.{Expr, num, neg, add, mul, pow, print}
use mykernel.Calc.Reads.{at}
use mykernel.Calc.Ends.{calc_eval-Ends}
use mykernel.Calc.Evaluates.{calc_eval-print}

-- `(2+3)*-4^2`
abbrev sample : Expr
sample = mul (add (num 2) (num 3)) (pow (neg (num 4)) (num 2))

sample_text :
    print sample ≡ b'(' ∷ b'2' ∷ b'+' ∷ b'3' ∷ b')' ∷ b'*' ∷ b'-' ∷ b'4' ∷ b'^' ∷ b'2' ∷ []
sample_text = refl

-- `8 / 0` sets the error flag.
division_by_zero : calc_eval (b'8' ∷ b' ' ∷ b'/' ∷ b' ' ∷ b'0' ∷ []) ≡ returns 0 (at [] true)
unfolding calc_eval at_end parse_factor skip_blanks read_digits close_paren divide
division_by_zero = refl

-- `-7/2` is rounded to zero.
rounding : calc_eval (b'-' ∷ b'7' ∷ b'/' ∷ b'2' ∷ []) ≡ returns 0xfffffffd (at [] false)
unfolding calc_eval at_end parse_factor skip_blanks read_digits close_paren divide quotient
rounding = refl

calc_eval-Ends_example : calc_eval (b'2' ∷ b'+' ∷ b')' ∷ []) ≢ spent
calc_eval-Ends_example = calc_eval-Ends (b'2' ∷ b'+' ∷ b')' ∷ [])

calc_eval-print_example : calc_eval (print sample) ≡ returns 80 (at [] false)
calc_eval-print_example = calc_eval-print sample 80 refl
