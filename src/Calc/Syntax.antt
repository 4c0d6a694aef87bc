-- ===== src/Calc/Syntax.antt =====
-- The expressions that src/calc.c is for, independent of its parser: their values, and how they are
-- written, with parentheses only where the precedence wants them.
use mykernel.Base.{
  ℕ, zero, suc, ◌+◌, ◌-◌, ◌*◌, ◌/◌, ◌%◌, ◌^◌, ◌&&◌, Option, none, some, List, [], ◌∷◌, ◌++◌, ltb,
  ◌==◌, u32, if◌then◌else◌,
}
use mykernel.Calc.{negated, minus, quotient, is_negative}

pub data Expr : Type 0 where
  num : ℕ → Expr
  neg : Expr → Expr
  add sub mul div pow : Expr → Expr → Expr

abbrev pub both : (ℕ → ℕ → Option ℕ) → Option ℕ → Option ℕ → Option ℕ
both f (some x) (some y) = f x y
both f _ _ = none

abbrev pub ratio : ℕ → ℕ → Option ℕ
ratio x y =
    if y == 0 then none else if x == 2 ^ 31 && y == 2 ^ 32 - 1 then none else some (quotient x y)

abbrev pub raised : ℕ → ℕ → Option ℕ
raised x y = if is_negative y then none else some (u32 (x ^ y))

-- The value as a 32-bit pattern. There is none if a divisor is 0, an exponent is negative, or -2^31
-- is divided by -1.
abbrev pub eval : Expr → Option ℕ
eval (num n) = some (u32 n)
eval (neg a) = both (λ x y. some (negated x)) (eval a) (some 0)
eval (add a b) = both (λ x y. some (u32 (x + y))) (eval a) (eval b)
eval (sub a b) = both (λ x y. some (minus x y)) (eval a) (eval b)
eval (mul a b) = both (λ x y. some (u32 (x * y))) (eval a) (eval b)
eval (div a b) = both ratio (eval a) (eval b)
eval (pow a b) = both raised (eval a) (eval b)

-- 3 for what needs no parentheses anywhere, down to 0 for sums
abbrev pub level : Expr → ℕ
level (num n) = 3
level (neg a) = 3
level (pow a b) = 2
level (mul a b) = 1
level (div a b) = 1
level (add a b) = 0
level (sub a b) = 0

-- `n` in decimal, at most `k` digits behind the first
abbrev pub decimal : (k n : ℕ) → List ℕ
decimal zero n = (b'0' + n) ∷ []
decimal (suc k) n =
    let front = decimal k (n / 10) in
    if ltb n 10 then (b'0' + n) ∷ [] else front ++ (b'0' + n % 10) ∷ []

abbrev pub parens : List ℕ → List ℕ
parens s = b'(' ∷ (s ++ b')' ∷ [])

-- `s` prints `e`, in a place for expressions of the level `l` and above
abbrev pub within : ℕ → Expr → List ℕ → List ℕ
within l e s = if ltb (level e) l then parens s else s

abbrev pub print : Expr → List ℕ
print (num n) = decimal n n
print (neg a) = b'-' ∷ within 3 a (print a)
print (add a b) = within 0 a (print a) ++ b'+' ∷ within 1 b (print b)
print (sub a b) = within 0 a (print a) ++ b'-' ∷ within 1 b (print b)
print (mul a b) = within 1 a (print a) ++ b'*' ∷ within 2 b (print b)
print (div a b) = within 1 a (print a) ++ b'/' ∷ within 2 b (print b)
print (pow a b) = within 3 a (print a) ++ b'^' ∷ within 2 b (print b)
