-- ===== src/Calc.antt =====
-- src/calc.c: the calculator, a recursive descent parser that evaluates what it reads.
-- A `long` is its 32-bit pattern, on which + - and * wrap around. The division of -2^31 by -1, which
-- raises an exception of the processor, has an ending of its own.
pub mod Arith
pub mod Ends
pub mod Syntax
pub mod Reads
pub mod Joins
pub mod Loops
pub mod Evaluates
mod Tests
use mykernel.Base.{
  ℕ, zero, suc, ◌+◌, ◌-◌, ◌*◌, ◌/◌, ◌%◌, ◌^◌, Bool, true, false, ◌&&◌, ◌||◌, not, Option, none,
  some, List, [], ◌∷◌, leb, ltb, ◌==◌, u32, if◌then◌else◌, length,
}

-- `struct calc_parser`; `p` is the rest of the string, without the NUL.
pub record Parser : Type 0 where
  pub p : List ℕ
  pub error : Bool

-- `*pr->p`
abbrev pub peek : Parser → ℕ
peek pr = elim pr.p [ [] ↦ 0 | c ∷ _ ↦ c ]

-- `pr->p++`
abbrev pub advance : Parser → Parser
advance pr = elim pr.p [ [] ↦ pr | _ ∷ rest ↦ record pr { p = rest } ]

abbrev pub fail : Parser → Parser
fail pr = record pr { error = true }

abbrev pub is_space : ℕ → Bool
is_space c = c == b' ' || c == b'\t'

unfoldable pub skip_blanks : List ℕ → List ℕ
skip_blanks [] = []
skip_blanks (c ∷ rest) = let skipped = skip_blanks rest in if is_space c then skipped else c ∷ rest

abbrev pub skip_spaces : Parser → Parser
skip_spaces pr = record pr { p = skip_blanks pr.p }

abbrev pub is_negative : ℕ → Bool
is_negative x = leb (2 ^ 31) x

abbrev pub negated : ℕ → ℕ
negated x = u32 (2 ^ 32 - x)

abbrev pub minus : ℕ → ℕ → ℕ
minus a b = u32 (a + (2 ^ 32 - b))

abbrev magnitude : ℕ → ℕ
magnitude x = if is_negative x then 2 ^ 32 - x else x

-- `a / b`, rounded to zero
unfoldable pub quotient : ℕ → ℕ → ℕ
quotient a b =
    let q = magnitude a / magnitude b in
    if is_negative a && not (is_negative b) || not (is_negative a) && is_negative b
    then negated q
    else q

-- What a parser function does: it returns a value, or divides -2^31 by -1, or its fuel is spent.
pub data Step : Type 0 where
  returns : ℕ → Parser → Step
  traps : Step
  spent : Step

abbrev pub and_then : Step → (ℕ → Parser → Step) → Step
and_then (returns v pr) f = f v pr
and_then traps f = traps
and_then spent f = spent

-- The loop of `ipow`: `exp` is halved in each of at most 31 rounds.
unfoldable pub power_loop : ℕ → (result base exp : ℕ) → ℕ
power_loop zero result base exp = result
power_loop (suc n) result base exp =
    let next =
      power_loop n (if exp % 2 == 1 then u32 (result * base) else result) (u32 (base * base))
        (exp / 2) in
    if exp == 0 then result else next

-- A negative exponent is an error.
unfoldable pub ipow : (base exp : ℕ) → Parser → Step
ipow base exp pr =
    if is_negative exp then returns 0 (fail pr) else returns (power_loop 31 1 base exp) pr

abbrev pub is_digit : ℕ → Bool
is_digit c = leb b'0' c && leb c b'9'

-- The loop that reads a number, from `value` on: the value and the rest.
unfoldable pub read_digits : (value : ℕ) → List ℕ → ℕ × List ℕ
read_digits value [] = (value, [])
read_digits value (c ∷ rest) =
    let more = read_digits (u32 (value * 10 + (c - b'0'))) rest in
    if is_digit c then more else (value, c ∷ rest)

abbrev pub number : Parser → Step
number pr = let r = read_digits 0 pr.p in returns r.0 (record pr { p = r.1 })

-- behind `parse_expr` in a factor
unfoldable pub close_paren : ℕ → Parser → Step
close_paren value pr₀ =
    let pr = skip_spaces pr₀ in
    if peek pr == b')' then returns value (advance pr) else returns 0 (fail pr)

-- `value /= rhs`, and how the loop of `parse_term` goes on
unfoldable pub divide : (loop : ℕ → Parser → Step) → (value rhs : ℕ) → Parser → Step
divide loop value rhs pr =
    if rhs == 0
    then returns 0 (fail pr)
    else if value == 2 ^ 31 && rhs == 2 ^ 32 - 1
    then traps
    else loop (quotient value rhs) pr

-- The calls and the loops take one unit of fuel for each round.
unfoldable mutual
  pub parse_factor : ℕ → Parser → Step
  parse_factor zero pr = spent
  parse_factor (suc n) pr₀ =
      let pr = skip_spaces pr₀ in
      elim (peek pr == b'-') [
        | true ↦ and_then (parse_factor n (advance pr)) (λ v pr'. returns (negated v) pr')
        | false ↦ elim (peek pr == b'+') [
          | true ↦ parse_factor n (advance pr)
          | false ↦ elim (peek pr == b'(') [
            | true ↦ and_then (parse_expr n (advance pr)) close_paren
            | false ↦ elim (is_digit (peek pr)) [ true ↦ number pr | false ↦ returns 0 (fail pr) ]
          ]
        ]
      ]

  pub parse_power : ℕ → Parser → Step
  parse_power zero pr = spent
  parse_power (suc n) pr = and_then (parse_factor n pr) (raise n)

  -- behind the base of a power
  pub raise : ℕ → ℕ → Parser → Step
  raise zero base pr = spent
  raise (suc n) base pr₀ =
      let pr = skip_spaces pr₀ in
      elim (peek pr == b'^') [
        | true ↦ and_then (parse_power n (advance pr)) (ipow base)
        | false ↦ returns base pr
      ]

  pub parse_term : ℕ → Parser → Step
  parse_term zero pr = spent
  parse_term (suc n) pr = and_then (parse_power n pr) (term_loop n)

  pub term_loop : ℕ → ℕ → Parser → Step
  term_loop zero value pr = spent
  term_loop (suc n) value pr₀ =
      let pr = skip_spaces pr₀ in
      elim (peek pr == b'*') [
        | true ↦ and_then (parse_power n (advance pr)) (λ rhs. term_loop n (u32 (value * rhs)))
        | false ↦ elim (peek pr == b'/') [
          | true ↦ and_then (parse_power n (advance pr)) (λ rhs. divide (term_loop n) value rhs)
          | false ↦ returns value pr
        ]
      ]

  pub parse_expr : ℕ → Parser → Step
  parse_expr zero pr = spent
  parse_expr (suc n) pr = and_then (parse_term n pr) (expr_loop n)

  pub expr_loop : ℕ → ℕ → Parser → Step
  expr_loop zero value pr = spent
  expr_loop (suc n) value pr₀ =
      let pr = skip_spaces pr₀ in
      elim (peek pr == b'+') [
        | true ↦ and_then (parse_term n (advance pr)) (λ rhs. expr_loop n (u32 (value + rhs)))
        | false ↦ elim (peek pr == b'-') [
          | true ↦ and_then (parse_term n (advance pr)) (λ rhs. expr_loop n (minus value rhs))
          | false ↦ returns value pr
        ]
      ]

-- behind `parse_expr` in `calc_eval`
unfoldable pub at_end : ℕ → Parser → Step
at_end result pr₀ =
    let pr = skip_spaces pr₀ in returns result (if peek pr == 0 then pr else fail pr)

-- The fuel that is enough for a string of that length.
abbrev pub enough : ℕ → ℕ
enough n = 4 * n + 4

-- The value and the error flag are in the result.
unfoldable pub calc_eval : List ℕ → Step
calc_eval expr =
    and_then (parse_expr (enough (length expr)) (record { p = expr; error = false })) at_end
