-- ===== src/Mylang/Texts.antt =====
-- The expressions that MyLang is for, with variables, independent of src/mlang.c: their values, how
-- they are written, and the expressions of the calculator that they become.
use mykernel.Base.{
  ℕ, ◌+◌, ◌-◌, ◌*◌, ◌^◌, ◌<◌, ◌≡◌, refl, ap, true, Option, some, List, [], ◌∷◌, ◌++◌, arith, ltb,
  u32, length, if◌then◌else◌, Bool-cases, inl, inr,
}
use mykernel.Calc.{negated, minus, is_negative}
use mykernel.Calc.Syntax.{
  Expr, num, neg, add, sub, mul, div, pow, both, ratio, raised, eval, level, decimal, parens,
}
use mykernel.Mylang.{max_name, peek, is_ident, is_ident_start}

pub data Formula : Type 0 where
  constant : ℕ → Formula
  variable : List ℕ → Formula
  negative : Formula → Formula
  sum : Formula → Formula → Formula
  difference : Formula → Formula → Formula
  product : Formula → Formula → Formula
  fraction : Formula → Formula → Formula
  power : Formula → Formula → Formula

-- The value as a 32-bit pattern, where the variables have the values `env`.
abbrev pub value : (env : List ℕ → ℕ) → Formula → Option ℕ
value env (constant n) = some (u32 n)
value env (variable x) = some (env x)
value env (negative a) = both (λ x y. some (negated x)) (value env a) (some 0)
value env (sum a b) = both (λ x y. some (u32 (x + y))) (value env a) (value env b)
value env (difference a b) = both (λ x y. some (minus x y)) (value env a) (value env b)
value env (product a b) = both (λ x y. some (u32 (x * y))) (value env a) (value env b)
value env (fraction a b) = both ratio (value env a) (value env b)
value env (power a b) = both raised (value env a) (value env b)

-- 3 for what needs no parentheses anywhere, down to 0 for sums
abbrev pub rank : Formula → ℕ
rank (constant n) = 3
rank (variable x) = 3
rank (negative a) = 3
rank (power a b) = 2
rank (product a b) = 1
rank (fraction a b) = 1
rank (sum a b) = 0
rank (difference a b) = 0

abbrev pub wrapped : ℕ → Formula → List ℕ → List ℕ
wrapped l e s = if ltb (rank e) l then parens s else s

abbrev pub source : Formula → List ℕ
source (constant n) = decimal n n
source (variable x) = x
source (negative a) = b'-' ∷ wrapped 3 a (source a)
source (sum a b) = wrapped 0 a (source a) ++ b'+' ∷ wrapped 1 b (source b)
source (difference a b) = wrapped 0 a (source a) ++ b'-' ∷ wrapped 1 b (source b)
source (product a b) = wrapped 1 a (source a) ++ b'*' ∷ wrapped 2 b (source b)
source (fraction a b) = wrapped 1 a (source a) ++ b'/' ∷ wrapped 2 b (source b)
source (power a b) = wrapped 3 a (source a) ++ b'^' ∷ wrapped 2 b (source b)

abbrev pub Idents : List ℕ → Type 0
Idents [] = Unit
Idents (c ∷ s) = (is_ident c ≡ true) × Idents s

-- a name that fits in its buffer
pub record Name (x : List ℕ) : Type 0 where
  pub starts : is_ident_start (peek x) ≡ true
  pub idents : Idents x
  pub short : length x < max_name

-- all variables have such names
abbrev pub Named : Formula → Type 0
Named (constant n) = Unit
Named (variable x) = Name x
Named (negative a) = Named a
Named (sum a b) = Named a × Named b
Named (difference a b) = Named a × Named b
Named (product a b) = Named a × Named b
Named (fraction a b) = Named a × Named b
Named (power a b) = Named a × Named b

-- a value as it is written: its magnitude, with a sign when it is negative
abbrev pub signed : ℕ → Expr
signed v = if is_negative v then neg (num (2 ^ 32 - v)) else num v

-- the values in the places of the variables
abbrev pub bind : (env : List ℕ → ℕ) → Formula → Expr
bind env (constant n) = num n
bind env (variable x) = signed (env x)
bind env (negative a) = neg (bind env a)
bind env (sum a b) = add (bind env a) (bind env b)
bind env (difference a b) = sub (bind env a) (bind env b)
bind env (product a b) = mul (bind env a) (bind env b)
bind env (fraction a b) = div (bind env a) (bind env b)
bind env (power a b) = pow (bind env a) (bind env b)

pub level-bind : (env : List ℕ → ℕ) (e : Formula) → level (bind env e) ≡ rank e
level-bind env (constant n) = refl
level-bind env (variable x) = elim (Bool-cases (is_negative (env x))) [
  | inl e ↦ rw e refl
  | inr e ↦ rw e refl
]
level-bind env (negative a) = refl
level-bind env (sum a b) = refl
level-bind env (difference a b) = refl
level-bind env (product a b) = refl
level-bind env (fraction a b) = refl
level-bind env (power a b) = refl

eval-signed : (v : ℕ) → v < 2 ^ 32 → eval (signed v) ≡ some v
eval-signed v small = elim (Bool-cases (is_negative v)) [
  | inl e ↦ let back : negated (u32 (2 ^ 32 - v)) ≡ v = ground arith in rw e (ap some back)
  | inr e ↦ let same : u32 v ≡ v = ground arith in rw e (ap some same)
]

-- The expression with the values in it has the value of the one with the variables.
pub eval-bind :
    (env : List ℕ → ℕ) (e : Formula)
    → ((x : List ℕ) → env x < 2 ^ 32)
    → eval (bind env e) ≡ value env e
eval-bind env (constant n) h = refl
eval-bind env (variable x) h = eval-signed (env x) (h x)
eval-bind env (negative a) h = rw (eval-bind env a h) refl
eval-bind env (sum a b) h = rw (eval-bind env a h, eval-bind env b h) refl
eval-bind env (difference a b) h = rw (eval-bind env a h, eval-bind env b h) refl
eval-bind env (product a b) h = rw (eval-bind env a h, eval-bind env b h) refl
eval-bind env (fraction a b) h = rw (eval-bind env a h, eval-bind env b h) refl
eval-bind env (power a b) h = rw (eval-bind env a h, eval-bind env b h) refl
