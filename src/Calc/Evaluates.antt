-- ===== src/Calc/Evaluates.antt =====
-- The calculator of src/calc.c gives what is written its value.
use mykernel.Base.{
  ℕ, ◌+◌, ◌-◌, ◌*◌, ◌^◌, ◌≡◌, refl, sym, ap, ◌∙◌, false, ◌&&◌, Option, none, some, List, [], ◌∷◌,
  ◌++◌, arith, ◌==◌, u32, length,
}
use mathlib.Core.Path.{subst}
use mathlib.Core.List.{append-nil}
use mykernel.Calc.{
  negated, minus, quotient, is_negative, returns, skip_blanks, parse_expr, at_end, enough,
  calc_eval,
}
use mykernel.Calc.Syntax.{
  Expr, num, neg, add, sub, mul, div, pow, both, ratio, raised, eval, within, print, parens,
}
use mykernel.Calc.Reads.{
  at, Operand, Power, Term, Sum, Operand-Power, Power-Term, Term-Sum, Sum-Operand, expr_loop-stops,
}
use mykernel.Calc.Joins.{num-Operand, neg-Operand, pow-Power}
use mykernel.Calc.Loops.{mul-Term, div-Term, add-Sum, sub-Sum}

both-some :
    (f : ℕ → ℕ → Option ℕ) (a b : Option ℕ) (v : ℕ)
    → both f a b ≡ some v
    → (x y : ℕ) × (a ≡ some x) × (b ≡ some y) × (f x y ≡ some v)
both-some f (some x) (some y) v e = (x, y, refl, refl, e)
both-some f (some x) none v e = absurd (ground arith)
both-some f none b v e = absurd (ground arith)

some-injective : {x y : ℕ} → some x ≡ some y → x ≡ y
some-injective e = ground (arith, e)

ratio-some :
    (x y v : ℕ)
    → ratio x y ≡ some v
    → ((y == 0) ≡ false) × ((x == 2 ^ 31 && y == 2 ^ 32 - 1) ≡ false) × (quotient x y ≡ v)
ratio-some x y v e = (ground (arith, e), ground (arith, e), ground (arith, e))

raised-some : (x y v : ℕ) → raised x y ≡ some v → (is_negative y ≡ false) × (u32 (x ^ y) ≡ v)
raised-some x y v e = (ground (arith, e), ground (arith, e))

-- the value `v` is read from the four strings, one for each level
record Printed (operand_text power_text term_text sum_text : List ℕ) (v : ℕ) : Type 0 where
  operand : Operand operand_text v
  power : Power power_text v
  term : Term term_text v
  sum : Sum sum_text v

module _ (s : List ℕ) (v : ℕ) where
  from_Sum : Sum s v → Printed (parens s) (parens s) (parens s) s v
  from_Sum f =
      let operand = Sum-Operand s v f in
      let power = Operand-Power (parens s) v operand in
      record { operand = operand; power = power; term = Power-Term (parens s) v power; sum = f }

  from_Term : Term s v → Printed (parens s) (parens s) s s v
  from_Term f =
      let p = from_Sum (Term-Sum s v f) in
      record { operand = p.operand; power = p.power; term = f; sum = p.sum }

  from_Power : Power s v → Printed (parens s) s s s v
  from_Power f =
      let p = from_Term (Power-Term s v f) in
      record { operand = p.operand; power = f; term = p.term; sum = p.sum }

  from_Operand : Operand s v → Printed s s s s v
  from_Operand f =
      let p = from_Power (Operand-Power s v f) in
      record { operand = f; power = p.power; term = p.term; sum = p.sum }

-- what is read from the text of an expression, on each level
abbrev Reads : Expr → ℕ → Type 0
Reads e v = let s = print e in Printed (within 3 e s) (within 2 e s) (within 1 e s) (within 0 e s) v

print-Reads : (e : Expr) (v : ℕ) → eval e ≡ some v → Reads e v
print-Reads (num n) v h =
    subst (λ w. Reads (num n) w) (ground arith)
      (from_Operand (print (num n)) (u32 n) (num-Operand n))
print-Reads (neg a) v h =
    let (x, y, ex, ey, e) = both-some (λ x y. some (negated x)) (eval a) (some 0) v h in
    let s = within 3 a (print a) in
    let f = neg-Operand s x (print-Reads a x ex).operand in
    subst (λ w. Reads (neg a) w) (some-injective e) (from_Operand (b'-' ∷ s) (negated x) f)
print-Reads (add a b) v h =
    let (x, y, ex, ey, e) = both-some (λ x y. some (u32 (x + y))) (eval a) (eval b) v h in
    let s = within 0 a (print a) in
    let t = within 1 b (print b) in
    let f = add-Sum s t x y (print-Reads a x ex).sum (print-Reads b y ey).term in
    subst (λ w. Reads (add a b) w) (some-injective e) (from_Sum (s ++ (b'+' ∷ t)) (u32 (x + y)) f)
print-Reads (sub a b) v h =
    let (x, y, ex, ey, e) = both-some (λ x y. some (minus x y)) (eval a) (eval b) v h in
    let s = within 0 a (print a) in
    let t = within 1 b (print b) in
    let f = sub-Sum s t x y (print-Reads a x ex).sum (print-Reads b y ey).term in
    subst (λ w. Reads (sub a b) w) (some-injective e) (from_Sum (s ++ (b'-' ∷ t)) (minus x y) f)
print-Reads (mul a b) v h =
    let (x, y, ex, ey, e) = both-some (λ x y. some (u32 (x * y))) (eval a) (eval b) v h in
    let s = within 1 a (print a) in
    let t = within 2 b (print b) in
    let f = mul-Term s t x y (print-Reads a x ex).term (print-Reads b y ey).power in
    subst (λ w. Reads (mul a b) w) (some-injective e) (from_Term (s ++ (b'*' ∷ t)) (u32 (x * y)) f)
print-Reads (div a b) v h =
    let (x, y, ex, ey, e) = both-some ratio (eval a) (eval b) v h in
    let (divisor, fits, value) = ratio-some x y v e in
    let s = within 1 a (print a) in
    let t = within 2 b (print b) in
    let f = div-Term s t x y (print-Reads a x ex).term (print-Reads b y ey).power divisor fits in
    subst (λ w. Reads (div a b) w) value (from_Term (s ++ (b'/' ∷ t)) (quotient x y) f)
print-Reads (pow a b) v h =
    let (x, y, ex, ey, e) = both-some raised (eval a) (eval b) v h in
    let (sign, value) = raised-some x y v e in
    let s = within 3 a (print a) in
    let t = within 2 b (print b) in
    let f = pow-Power s t x y (print-Reads a x ex).operand (print-Reads b y ey).power sign in
    subst (λ w. Reads (pow a b) w) value (from_Power (s ++ (b'^' ∷ t)) (u32 (x ^ y)) f)

within_zero : (e : Expr) (s : List ℕ) → within 0 e s ≡ s
within_zero e s = ground arith

-- The calculator gives the value of an expression from its text: products before sums, powers
-- before products, from the left except for powers, with a sign before all of these, modulo 2^32.
-- The value has to exist: no division by 0 or of -2^31 by -1, and no negative exponent.
pub calc_eval-print :
    (e : Expr) (v : ℕ) → eval e ≡ some v → calc_eval (print e) ≡ returns v (at [] false)
unfolding calc_eval at_end skip_blanks
calc_eval-print e v h =
    let fuel = enough (length (print e)) in
    let whole = append-nil (print e) in
    let longest = ap length whole in
    let text = subst (λ s. Sum s v) (within_zero e (print e)) (print-Reads e v h).sum in
    let (m, big, run) = text.reads fuel false [] refl (omega arith) in
    let all =
      ap (λ s. parse_expr fuel (at s false)) (sym whole)
      ∙ run
      ∙ expr_loop-stops m v false [] refl (omega arith) in
    rw (all, calc_eval) refl
