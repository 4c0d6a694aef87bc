-- ===== src/Calc/Reads.antt =====
-- How the functions of src/calc.c read what is written for an operand, a power, a term or a sum.
use mykernel.Base.{
  ℕ, zero, suc, ◌+◌, ◌*◌, ◌≤◌, ◌≡◌, refl, ap, ◌∙◌, Bool, true, false, ◌&&◌, ◌||◌, not, List, [],
  ◌∷◌, ◌++◌, arith, leb, ◌==◌, length, length-append,
}
use mathlib.Core.List.{append_assoc}
use mykernel.Calc.{
  Parser, peek, is_space, skip_blanks, skip_spaces, returns, is_digit, close_paren, parse_factor,
  parse_power, raise, parse_term, term_loop, parse_expr, expr_loop,
}
use mykernel.Calc.Syntax.{parens}

abbrev pub at : List ℕ → Bool → Parser
at s error = record { p = s; error = error }

-- A character that ends what is read on the level `l`.
abbrev pub stops : ℕ → ℕ → Bool
stops l c =
    not (is_space c)
    && not (is_digit c)
    && (leb 3 l || not (c == b'^'))
    && (leb 2 l || not (c == b'*') && not (c == b'/'))
    && (leb 1 l || not (c == b'+') && not (c == b'-'))

skip_blanks-stops :
    (l : ℕ) (s : List ℕ) (error : Bool) → stops l (peek (at s error)) ≡ true → skip_blanks s ≡ s
unfolding skip_blanks
skip_blanks-stops l [] error h = refl
skip_blanks-stops l (c ∷ s) error h = ground arith

skip_spaces-stops :
    (l : ℕ) (s : List ℕ) (error : Bool)
    → stops l (peek (at s error)) ≡ true
    → skip_spaces (at s error) ≡ at s error
skip_spaces-stops l s error h = ap (λ t. at t error) (skip_blanks-stops l s error h)

-- `s` is read as an operand, a power, a term or a sum of the value `v`; of a term and a sum the loop
-- is left to go on.
pub record Operand (s : List ℕ) (v : ℕ) : Type 0 where
  pub reads :
      (n : ℕ) (error : Bool) (rest : List ℕ)
      → stops 3 (peek (at rest error)) ≡ true
      → 4 * length (s ++ rest) + 1 ≤ n
      → parse_factor n (at (s ++ rest) error) ≡ returns v (at rest error)

pub record Power (s : List ℕ) (v : ℕ) : Type 0 where
  pub reads :
      (n : ℕ) (error : Bool) (rest : List ℕ)
      → stops 2 (peek (at rest error)) ≡ true
      → 4 * length (s ++ rest) + 2 ≤ n
      → parse_power n (at (s ++ rest) error) ≡ returns v (at rest error)

pub record Term (s : List ℕ) (v : ℕ) : Type 0 where
  pub reads :
      (n : ℕ) (error : Bool) (rest : List ℕ)
      → stops 2 (peek (at rest error)) ≡ true
      → 4 * length (s ++ rest) + 3 ≤ n
      → (m : ℕ) × (4 * length rest + 1 ≤ m)
        × (parse_term n (at (s ++ rest) error) ≡ term_loop m v (at rest error))

pub record Sum (s : List ℕ) (v : ℕ) : Type 0 where
  pub reads :
      (n : ℕ) (error : Bool) (rest : List ℕ)
      → stops 1 (peek (at rest error)) ≡ true
      → 4 * length (s ++ rest) + 4 ≤ n
      → (m : ℕ) × (4 * length rest + 1 ≤ m)
        × (parse_expr n (at (s ++ rest) error) ≡ expr_loop m v (at rest error))

pub raise-stops :
    (n v : ℕ) (error : Bool) (rest : List ℕ)
    → stops 2 (peek (at rest error)) ≡ true
    → 1 ≤ n
    → raise n v (at rest error) ≡ returns v (at rest error)
unfolding raise
raise-stops zero v error rest h le = absurd (omega arith)
raise-stops (suc n) v error rest h le =
    let spaces = skip_spaces-stops 2 rest error h in
    let other : (peek (skip_spaces (at rest error)) == b'^') ≡ false =
      ap (λ pr. peek pr == b'^') spaces ∙ ground arith in
    rw (other, raise) (ap (λ pr. returns v pr) spaces)

pub term_loop-stops :
    (n v : ℕ) (error : Bool) (rest : List ℕ)
    → stops 1 (peek (at rest error)) ≡ true
    → 1 ≤ n
    → term_loop n v (at rest error) ≡ returns v (at rest error)
unfolding term_loop
term_loop-stops zero v error rest h le = absurd (omega arith)
term_loop-stops (suc n) v error rest h le =
    let spaces = skip_spaces-stops 1 rest error h in
    let times : (peek (skip_spaces (at rest error)) == b'*') ≡ false =
      ap (λ pr. peek pr == b'*') spaces ∙ ground arith in
    let over : (peek (skip_spaces (at rest error)) == b'/') ≡ false =
      ap (λ pr. peek pr == b'/') spaces ∙ ground arith in
    rw (times, over, term_loop) (ap (λ pr. returns v pr) spaces)

pub expr_loop-stops :
    (n v : ℕ) (error : Bool) (rest : List ℕ)
    → stops 0 (peek (at rest error)) ≡ true
    → 1 ≤ n
    → expr_loop n v (at rest error) ≡ returns v (at rest error)
unfolding expr_loop
expr_loop-stops zero v error rest h le = absurd (omega arith)
expr_loop-stops (suc n) v error rest h le =
    let spaces = skip_spaces-stops 0 rest error h in
    let plus : (peek (skip_spaces (at rest error)) == b'+') ≡ false =
      ap (λ pr. peek pr == b'+') spaces ∙ ground arith in
    let dash : (peek (skip_spaces (at rest error)) == b'-') ≡ false =
      ap (λ pr. peek pr == b'-') spaces ∙ ground arith in
    rw (plus, dash, expr_loop) (ap (λ pr. returns v pr) spaces)

-- an operand is a power, a power is a term, a term is a sum, and a sum in parentheses an operand
pub Operand-Power : (s : List ℕ) (v : ℕ) → Operand s v → Power s v
unfolding parse_power
Operand-Power s v f = record { reads = run }
  where
    run :
        (n : ℕ) (error : Bool) (rest : List ℕ)
        → stops 2 (peek (at rest error)) ≡ true
        → 4 * length (s ++ rest) + 2 ≤ n
        → parse_power n (at (s ++ rest) error) ≡ returns v (at rest error)
    run zero error rest h le = absurd (omega arith)
    run (suc n) error rest h le =
        rw (f.reads n error rest (ground arith) (omega arith), parse_power)
          (raise-stops n v error rest h (omega arith))

pub Power-Term : (s : List ℕ) (v : ℕ) → Power s v → Term s v
unfolding parse_term
Power-Term s v f = record { reads = run }
  where
    run :
        (n : ℕ) (error : Bool) (rest : List ℕ)
        → stops 2 (peek (at rest error)) ≡ true
        → 4 * length (s ++ rest) + 3 ≤ n
        → (m : ℕ) × (4 * length rest + 1 ≤ m)
          × (parse_term n (at (s ++ rest) error) ≡ term_loop m v (at rest error))
    run zero error rest h le = absurd (omega arith)
    run (suc n) error rest h le = (
      n,
      omega (arith, length-append s rest),
      rw (f.reads n error rest h (omega arith), parse_term) refl,
    )

pub Term-Sum : (s : List ℕ) (v : ℕ) → Term s v → Sum s v
unfolding parse_expr
Term-Sum s v f = record { reads = run }
  where
    run :
        (n : ℕ) (error : Bool) (rest : List ℕ)
        → stops 1 (peek (at rest error)) ≡ true
        → 4 * length (s ++ rest) + 4 ≤ n
        → (m : ℕ) × (4 * length rest + 1 ≤ m)
          × (parse_expr n (at (s ++ rest) error) ≡ expr_loop m v (at rest error))
    run zero error rest h le = absurd (omega arith)
    run (suc n) error rest h le =
        let (k, big, e) = f.reads n error rest (ground arith) (omega arith) in
        let whole = e ∙ term_loop-stops k v error rest h (omega arith) in
        (n, omega (arith, length-append s rest), rw (whole, parse_expr) refl)

pub Sum-Operand : (s : List ℕ) (v : ℕ) → Sum s v → Operand (parens s) v
unfolding parse_factor close_paren skip_blanks
Sum-Operand s v f = record { reads = run }
  where
    run :
        (n : ℕ) (error : Bool) (rest : List ℕ)
        → stops 3 (peek (at rest error)) ≡ true
        → 4 * length (parens s ++ rest) + 1 ≤ n
        → parse_factor n (at (parens s ++ rest) error) ≡ returns v (at rest error)
    run zero error rest h le = absurd (omega arith)
    run (suc n) error rest h le =
        let glue : s ++ b')' ∷ [] ++ rest ≡ s ++ b')' ∷ rest = append_assoc s (b')' ∷ []) rest in
        let close = b')' ∷ rest in
        let longer = ap length glue in
        let (m, big, e) = f.reads n error close refl (omega (arith, longer)) in
        let inside = e ∙ expr_loop-stops m v error close refl (omega arith) in
        rw (glue, inside, parse_factor) refl
