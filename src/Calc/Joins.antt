-- ===== src/Calc/Joins.antt =====
-- How src/calc.c reads numbers, and what is written with an operator.
use mykernel.Base.{
  ℕ, zero, suc, ◌+◌, ◌-◌, ◌*◌, ◌/◌, ◌%◌, ◌^◌, ◌≤◌, ◌<◌, ◌≡◌, inl, inr, refl, sym, ap, ◌∙◌, Bool,
  true, false, List, [], ◌∷◌, ◌++◌, arith, ltb, ◌==◌, u32, length, length-append, Bool-cases,
}
use mathlib.Core.List.{append_assoc}
use mykernel.Calc.{
  peek, is_space, skip_blanks, skip_spaces, negated, is_negative, returns, is_digit, read_digits,
  number, parse_factor, parse_power, raise,
}
use mykernel.Calc.Arith.{ipow_lem}
use mykernel.Calc.Syntax.{decimal}
use mykernel.Calc.Reads.{at, stops, Operand, Power}

read_digit :
    (v d : ℕ) (rest : List ℕ)
    → d < 10
    → read_digits v ((b'0' + d) ∷ rest) ≡ read_digits (u32 (v * 10 + d)) rest
unfolding read_digits
read_digit v d rest small =
    let digit : is_digit (b'0' + d) ≡ true = ground arith in
    let value : v * 10 + (b'0' + d - b'0') ≡ v * 10 + d = omega arith in rw (digit, value) refl

read_first :
    (d : ℕ) (rest : List ℕ) → d < 10 → read_digits 0 ((b'0' + d) ∷ rest) ≡ read_digits (u32 d) rest
read_first d rest small =
    let value : 0 * 10 + d ≡ d = omega arith in
    read_digit 0 d rest small ∙ ap (λ x. read_digits (u32 x) rest) value

read_digits-decimal :
    (k n : ℕ) (rest : List ℕ)
    → n ≤ k
    → read_digits 0 (decimal k n ++ rest) ≡ read_digits (u32 n) rest
read_digits-decimal zero n rest le = read_first n rest (omega arith)
read_digits-decimal (suc k) n rest le = elim (Bool-cases (ltb n 10)) [
  | inl small ↦ rw small (read_first n rest (ground arith))
  | inr big ↦
      let last = (b'0' + n % 10) ∷ [] in
      let join : u32 (u32 (n / 10) * 10 + n % 10) ≡ u32 n = omega arith in
      rw big (
        ap (λ s. read_digits 0 s) (append_assoc (decimal k (n / 10)) last rest)
        ∙ read_digits-decimal k (n / 10) (last ++ rest) (ground arith)
        ∙ read_digit (u32 (n / 10)) (n % 10) rest (omega arith)
        ∙ ap (λ x. read_digits x rest) join)
]

pub decimal_front :
    (k n : ℕ) → n ≤ k → (c : ℕ) × (s : List ℕ) × (decimal k n ≡ c ∷ s) × (is_digit c ≡ true)
decimal_front zero n le = (b'0' + n, [], refl, ground arith)
decimal_front (suc k) n le = elim (Bool-cases (ltb n 10)) [
  | inl small ↦ (b'0' + n, [], rw small refl, ground arith)
  | inr big ↦
      let (c, s, e, digit) = decimal_front k (n / 10) (ground arith) in
      (c, s ++ (b'0' + n % 10) ∷ [], rw (big, e) refl, digit)
]

read_digits-stops :
    (v : ℕ) (rest : List ℕ) (error : Bool)
    → stops 3 (peek (at rest error)) ≡ true
    → read_digits v rest ≡ (v, rest)
unfolding read_digits
read_digits-stops v [] error h = refl
read_digits-stops v (c ∷ rest) error h =
    let other : is_digit c ≡ false = ground arith in rw other refl

factor-digit :
    (n c : ℕ) (s : List ℕ) (error : Bool)
    → is_digit c ≡ true
    → parse_factor (suc n) (at (c ∷ s) error) ≡ number (at (c ∷ s) error)
unfolding parse_factor skip_blanks
factor-digit n c s error digit =
    let pr = skip_spaces (at (c ∷ s) error) in
    let space : is_space c ≡ false = ground arith in
    let spaces : pr ≡ at (c ∷ s) error = rw space refl in
    let dash : (peek pr == b'-') ≡ false = ap (λ pr. peek pr == b'-') spaces ∙ ground arith in
    let plus : (peek pr == b'+') ≡ false = ap (λ pr. peek pr == b'+') spaces ∙ ground arith in
    let paren : (peek pr == b'(') ≡ false = ap (λ pr. peek pr == b'(') spaces ∙ ground arith in
    let here : is_digit (peek pr) ≡ true = ap (λ pr. is_digit (peek pr)) spaces ∙ digit in
    rw (dash, plus, paren, here, parse_factor) (ap number spaces)

pub num-Operand : (k : ℕ) → Operand (decimal k k) (u32 k)
num-Operand k = record { reads = run }
  where
    run :
        (n : ℕ) (error : Bool) (rest : List ℕ)
        → stops 3 (peek (at rest error)) ≡ true
        → 4 * length (decimal k k ++ rest) + 1 ≤ n
        → parse_factor n (at (decimal k k ++ rest) error) ≡ returns (u32 k) (at rest error)
    run zero error rest h le = absurd (omega arith)
    run (suc n) error rest h le =
        let (c, s, e, digit) = decimal_front k k (omega arith) in
        let digits =
          read_digits-decimal k k rest (omega arith) ∙ read_digits-stops (u32 k) rest error h in
        ap (λ t. parse_factor (suc n) (at (t ++ rest) error)) e
        ∙ factor-digit n c (s ++ rest) error digit
        ∙ ap (λ t. number (at (t ++ rest) error)) (sym e)
        ∙ ap (λ r. returns r.0 (at r.1 error)) digits

pub neg-Operand : (s : List ℕ) (v : ℕ) → Operand s v → Operand (b'-' ∷ s) (negated v)
unfolding parse_factor skip_blanks
neg-Operand s v f = record { reads = run }
  where
    run :
        (n : ℕ) (error : Bool) (rest : List ℕ)
        → stops 3 (peek (at rest error)) ≡ true
        → 4 * length (b'-' ∷ s ++ rest) + 1 ≤ n
        → parse_factor n (at (b'-' ∷ s ++ rest) error) ≡ returns (negated v) (at rest error)
    run zero error rest h le = absurd (omega arith)
    run (suc n) error rest h le = rw (f.reads n error rest h (omega arith), parse_factor) refl

-- behind the first operand: the operator `c`, the second operand, the rest
module _ (s t rest : List ℕ) (c : ℕ) where
  pub glue : (s ++ (c ∷ t)) ++ rest ≡ s ++ (c ∷ (t ++ rest))
  glue = append_assoc s (c ∷ t) rest

  pub lengths :
      (length ((s ++ (c ∷ t)) ++ rest) ≡ length s + suc (length (t ++ rest)))
      × (length (s ++ (c ∷ (t ++ rest))) ≡ length s + suc (length (t ++ rest)))
  lengths =
      let one = ap length glue in
      let two = length-append s (c ∷ (t ++ rest)) in (omega arith, omega arith)

pub pow-Power :
    (s t : List ℕ) (x y : ℕ)
    → Operand s x
    → Power t y
    → is_negative y ≡ false
    → Power (s ++ (b'^' ∷ t)) (u32 (x ^ y))
unfolding parse_power raise skip_blanks
pow-Power s t x y f g sign = record { reads = run }
  where
    run :
        (n : ℕ) (error : Bool) (rest : List ℕ)
        → stops 2 (peek (at rest error)) ≡ true
        → 4 * length ((s ++ (b'^' ∷ t)) ++ rest) + 2 ≤ n
        → parse_power n (at ((s ++ (b'^' ∷ t)) ++ rest) error)
          ≡ returns (u32 (x ^ y)) (at rest error)
    run zero error rest h le = absurd (omega arith)
    run (suc zero) error rest h le = absurd (omega arith)
    run (suc (suc n)) error rest h le =
        let (all, again) = lengths s t rest b'^' in
        let left = f.reads (suc n) error (b'^' ∷ (t ++ rest)) refl (omega arith) in
        let right = g.reads n error rest h (omega arith) in
        rw (glue s t rest b'^', left, parse_power)
          (rw (right, raise) (ipow_lem x y (at rest error) sign))
