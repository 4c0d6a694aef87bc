-- ===== src/Calc/Loops.antt =====
-- How the loops of src/calc.c read what is written with one of + - * / .
use mykernel.Base.{
  ℕ, zero, suc, ◌+◌, ◌-◌, ◌*◌, ◌^◌, ◌≤◌, ◌≡◌, refl, ap, ◌∙◌, Bool, true, false, ◌&&◌, List, ◌∷◌,
  ◌++◌, arith, ◌==◌, u32, length, length-append,
}
use mykernel.Calc.{
  peek, skip_blanks, minus, quotient, returns, divide, parse_term, term_loop, parse_expr, expr_loop,
}
use mykernel.Calc.Joins.{glue, lengths}
use mykernel.Calc.Reads.{at, stops, Power, Term, Sum, term_loop-stops}

-- one round of the loop of `parse_term`, and of that of `parse_expr`
module _ (t rest : List ℕ) (y : ℕ) (error : Bool) where
  times_round :
      (m v : ℕ)
      → Power t y
      → stops 2 (peek (at rest error)) ≡ true
      → 4 * suc (length (t ++ rest)) + 1 ≤ m
      → (k : ℕ) × (4 * length rest + 1 ≤ k)
        × (term_loop m v (at (b'*' ∷ (t ++ rest)) error)
            ≡ term_loop k (u32 (v * y)) (at rest error))
  unfolding term_loop skip_blanks
  times_round zero v g h le = absurd (omega arith)
  times_round (suc m) v g h le =
      let right = g.reads m error rest h (omega arith) in
      (m, omega (arith, length-append t rest), rw (right, term_loop) refl)

  over_round :
      (m v : ℕ)
      → Power t y
      → (y == 0) ≡ false
      → (v == 2 ^ 31 && y == 2 ^ 32 - 1) ≡ false
      → stops 2 (peek (at rest error)) ≡ true
      → 4 * suc (length (t ++ rest)) + 1 ≤ m
      → (k : ℕ) × (4 * length rest + 1 ≤ k)
        × (term_loop m v (at (b'/' ∷ (t ++ rest)) error)
            ≡ term_loop k (quotient v y) (at rest error))
  unfolding term_loop skip_blanks divide
  over_round zero v g some_divisor fits h le = absurd (omega arith)
  over_round (suc m) v g some_divisor fits h le =
      let right = g.reads m error rest h (omega arith) in
      (
        m,
        omega (arith, length-append t rest),
        rw (right, term_loop) (rw (some_divisor, fits, divide) refl),
      )

  read_through :
      (m : ℕ)
      → Term t y
      → stops 1 (peek (at rest error)) ≡ true
      → 4 * length (t ++ rest) + 3 ≤ m
      → parse_term m (at (t ++ rest) error) ≡ returns y (at rest error)
  read_through m g h le =
      let (k, big, e) = g.reads m error rest (ground arith) le in
      e ∙ term_loop-stops k y error rest h (omega arith)

  plus_round :
      (m v : ℕ)
      → Term t y
      → stops 1 (peek (at rest error)) ≡ true
      → 4 * suc (length (t ++ rest)) + 1 ≤ m
      → (k : ℕ) × (4 * length rest + 1 ≤ k)
        × (expr_loop m v (at (b'+' ∷ (t ++ rest)) error)
            ≡ expr_loop k (u32 (v + y)) (at rest error))
  unfolding expr_loop skip_blanks
  plus_round zero v g h le = absurd (omega arith)
  plus_round (suc m) v g h le =
      let right = read_through m g h (omega arith) in
      (m, omega (arith, length-append t rest), rw (right, expr_loop) refl)

  minus_round :
      (m v : ℕ)
      → Term t y
      → stops 1 (peek (at rest error)) ≡ true
      → 4 * suc (length (t ++ rest)) + 1 ≤ m
      → (k : ℕ) × (4 * length rest + 1 ≤ k)
        × (expr_loop m v (at (b'-' ∷ (t ++ rest)) error) ≡ expr_loop k (minus v y) (at rest error))
  unfolding expr_loop skip_blanks
  minus_round zero v g h le = absurd (omega arith)
  minus_round (suc m) v g h le =
      let right = read_through m g h (omega arith) in
      (m, omega (arith, length-append t rest), rw (right, expr_loop) refl)

-- a term, an operator `c` of that level and an operand whose round of the loop is known
join_Term :
    (s t : List ℕ) (c x z : ℕ)
    → Term s x
    → stops 2 c ≡ true
    → ((rest : List ℕ) (error : Bool) (m : ℕ)
        → stops 2 (peek (at rest error)) ≡ true
        → 4 * suc (length (t ++ rest)) + 1 ≤ m
        → (k : ℕ) × (4 * length rest + 1 ≤ k)
          × (term_loop m x (at (c ∷ (t ++ rest)) error) ≡ term_loop k z (at rest error)))
    → Term (s ++ (c ∷ t)) z
join_Term s t c x z f follows round = record { reads = run }
  where
    run :
        (n : ℕ) (error : Bool) (rest : List ℕ)
        → stops 2 (peek (at rest error)) ≡ true
        → 4 * length ((s ++ (c ∷ t)) ++ rest) + 3 ≤ n
        → (m : ℕ) × (4 * length rest + 1 ≤ m)
          × (parse_term n (at ((s ++ (c ∷ t)) ++ rest) error) ≡ term_loop m z (at rest error))
    run n error rest h le =
        let (all, again) = lengths s t rest c in
        let (m, big, e) = f.reads n error (c ∷ (t ++ rest)) follows (omega arith) in
        let (k, more, e') = round rest error m h (omega arith) in
        (k, more, ap (λ l. parse_term n (at l error)) (glue s t rest c) ∙ e ∙ e')

pub mul-Term :
    (s t : List ℕ) (x y : ℕ) → Term s x → Power t y → Term (s ++ (b'*' ∷ t)) (u32 (x * y))
mul-Term s t x y f g =
    join_Term s t b'*' x (u32 (x * y)) f refl
      (λ rest error m h le. times_round t rest y error m x g h le)

pub div-Term :
    (s t : List ℕ) (x y : ℕ)
    → Term s x
    → Power t y
    → (y == 0) ≡ false
    → (x == 2 ^ 31 && y == 2 ^ 32 - 1) ≡ false
    → Term (s ++ (b'/' ∷ t)) (quotient x y)
div-Term s t x y f g some_divisor fits =
    join_Term s t b'/' x (quotient x y) f refl
      (λ rest error m h le. over_round t rest y error m x g some_divisor fits h le)

join_Sum :
    (s t : List ℕ) (c x z : ℕ)
    → Sum s x
    → stops 1 c ≡ true
    → ((rest : List ℕ) (error : Bool) (m : ℕ)
        → stops 1 (peek (at rest error)) ≡ true
        → 4 * suc (length (t ++ rest)) + 1 ≤ m
        → (k : ℕ) × (4 * length rest + 1 ≤ k)
          × (expr_loop m x (at (c ∷ (t ++ rest)) error) ≡ expr_loop k z (at rest error)))
    → Sum (s ++ (c ∷ t)) z
join_Sum s t c x z f follows round = record { reads = run }
  where
    run :
        (n : ℕ) (error : Bool) (rest : List ℕ)
        → stops 1 (peek (at rest error)) ≡ true
        → 4 * length ((s ++ (c ∷ t)) ++ rest) + 4 ≤ n
        → (m : ℕ) × (4 * length rest + 1 ≤ m)
          × (parse_expr n (at ((s ++ (c ∷ t)) ++ rest) error) ≡ expr_loop m z (at rest error))
    run n error rest h le =
        let (all, again) = lengths s t rest c in
        let (m, big, e) = f.reads n error (c ∷ (t ++ rest)) follows (omega arith) in
        let (k, more, e') = round rest error m h (omega arith) in
        (k, more, ap (λ l. parse_expr n (at l error)) (glue s t rest c) ∙ e ∙ e')

pub add-Sum : (s t : List ℕ) (x y : ℕ) → Sum s x → Term t y → Sum (s ++ (b'+' ∷ t)) (u32 (x + y))
add-Sum s t x y f g =
    join_Sum s t b'+' x (u32 (x + y)) f refl
      (λ rest error m h le. plus_round t rest y error m x g h le)

pub sub-Sum : (s t : List ℕ) (x y : ℕ) → Sum s x → Term t y → Sum (s ++ (b'-' ∷ t)) (minus x y)
sub-Sum s t x y f g =
    join_Sum s t b'-' x (minus x y) f refl
      (λ rest error m h le. minus_round t rest y error m x g h le)
