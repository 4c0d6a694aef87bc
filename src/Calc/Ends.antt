-- ===== src/Calc/Ends.antt =====
-- The parser of src/calc.c always ends, on every string.
use mykernel.Base.{
  ℕ, zero, suc, ◌+◌, ◌-◌, ◌*◌, ◌^◌, ◌≤◌, ◌≡◌, ◌≢◌, inl, inr, refl, ◌&&◌, if◌then◌else◌, Bool, true,
  false, List, [], ◌∷◌, arith, ◌==◌, u32, length, Bool-cases,
}
use mykernel.Calc.{
  Parser, peek, advance, skip_blanks, skip_spaces, minus, quotient, Step, returns, traps, spent,
  and_then, is_negative, ipow, is_digit, read_digits, number, close_paren, divide, parse_factor,
  parse_power, raise, parse_term, term_loop, parse_expr, expr_loop, at_end, enough, calc_eval,
}

-- It does not run out of fuel, and what is left to read is not longer than `l`.
abbrev Ends : ℕ → Step → Type 0
Ends l (returns v pr) = length pr.p ≤ l
Ends l traps = Unit
Ends l spent = ⊥

pub record Ended (l : ℕ) (r : Step) : Type 0 where
  pub ends : Ends l r

returns-Ended : {l v : ℕ} {pr : Parser} → length pr.p ≤ l → Ended l (returns v pr)
returns-Ended le = record { ends = le }

and_then-Ended :
    {l m : ℕ} {f : ℕ → Parser → Step} (r : Step)
    → Ended l r
    → ((v : ℕ) (pr : Parser) → length pr.p ≤ l → Ended m (f v pr))
    → Ended m (and_then r f)
and_then-Ended (returns v pr) e h = h v pr e.ends
and_then-Ended traps e h = record { ends = tt }
and_then-Ended spent e h = absurd e.ends

Ended-le : {l m : ℕ} (r : Step) → l ≤ m → Ended l r → Ended m r
Ended-le (returns v pr) le e = returns-Ended (omega (arith, e.ends))
Ended-le traps le e = record { ends = tt }
Ended-le spent le e = absurd e.ends

length-skip_blanks : (s : List ℕ) → length (skip_blanks s) ≤ length s
unfolding skip_blanks
length-skip_blanks [] = omega arith
length-skip_blanks (c ∷ s) = ground (arith, length-skip_blanks s)

-- A character that is not NUL is read off the string.
length-advance :
    (c : ℕ) (pr : Parser) → (peek pr == suc c) ≡ true → suc (length (advance pr).p) ≡ length pr.p
length-advance c pr e = by_list pr.p pr.error e
  where
    by_list :
        (s : List ℕ) (error : Bool)
        → (peek (record { p = s; error = error }) == suc c) ≡ true
        → suc (length (advance (record { p = s; error = error })).p) ≡ length s
    by_list [] error e = absurd (ground arith)
    by_list (d ∷ s) error e = refl

length-read_digits : (v : ℕ) (s : List ℕ) → length (read_digits v s).1 ≤ length s
unfolding read_digits
length-read_digits v [] = omega arith
length-read_digits v (c ∷ s) = elim (Bool-cases (is_digit c)) [
  | inl e ↦ rw e (omega (arith, length-read_digits (u32 (v * 10 + (c - b'0'))) s))
  | inr e ↦ rw e (omega arith)
]

close_paren-Ended : (v : ℕ) (pr : Parser) → Ended (length pr.p) (close_paren v pr)
unfolding close_paren
close_paren-Ended v pr =
    let short = length-skip_blanks pr.p in
    elim (Bool-cases (peek (skip_spaces pr) == b')')) [
      | inl e ↦ rw e (returns-Ended (omega (arith, short, length-advance 40 (skip_spaces pr) e)))
      | inr e ↦ rw e (returns-Ended short)
    ]

ipow-Ended : (base exp : ℕ) (pr : Parser) → Ended (length pr.p) (ipow base exp pr)
unfolding ipow
ipow-Ended base exp pr = elim (Bool-cases (is_negative exp)) [
  | inl e ↦ rw e (returns-Ended (omega arith))
  | inr e ↦ rw e (returns-Ended (omega arith))
]

if-Ended : {l : ℕ} {x y : Step} (b : Bool) → Ended l x → Ended l y → Ended l (if b then x else y)
if-Ended true h g = h
if-Ended false h g = g

divide-Ended :
    (l : ℕ) (loop : ℕ → Parser → Step) (value rhs : ℕ) (pr : Parser)
    → length pr.p ≤ l
    → ((v : ℕ) → Ended l (loop v pr))
    → Ended l (divide loop value rhs pr)
unfolding divide
divide-Ended l loop value rhs pr le h = if-Ended (rhs == 0) (returns-Ended le) (
    if-Ended (value == 2 ^ 31 && rhs == 2 ^ 32 - 1) (record { ends = tt }) (h (quotient value rhs)))

-- What holds of the functions with the fuel `n`, if it is enough for the string.
record AllEnd (n : ℕ) : Type 0 where
  factor : (pr : Parser) → 4 * length pr.p + 1 ≤ n → Ended (length pr.p) (parse_factor n pr)
  power : (pr : Parser) → 4 * length pr.p + 2 ≤ n → Ended (length pr.p) (parse_power n pr)
  raised : (v : ℕ) (pr : Parser) → 4 * length pr.p + 1 ≤ n → Ended (length pr.p) (raise n v pr)
  term : (pr : Parser) → 4 * length pr.p + 3 ≤ n → Ended (length pr.p) (parse_term n pr)
  terms : (v : ℕ) (pr : Parser) → 4 * length pr.p + 1 ≤ n → Ended (length pr.p) (term_loop n v pr)
  expr : (pr : Parser) → 4 * length pr.p + 4 ≤ n → Ended (length pr.p) (parse_expr n pr)
  exprs : (v : ℕ) (pr : Parser) → 4 * length pr.p + 1 ≤ n → Ended (length pr.p) (expr_loop n v pr)

module _ (n : ℕ) (h : AllEnd n) where
  factor-Ended :
      (pr₀ : Parser) → 4 * length pr₀.p ≤ n → Ended (length pr₀.p) (parse_factor (suc n) pr₀)
  unfolding parse_factor number
  factor-Ended pr₀ le =
      let pr = skip_spaces pr₀ in
      let short = length-skip_blanks pr₀.p in
      elim (Bool-cases (peek pr == b'-')) [
        | inl e ↦
            let one = length-advance 44 pr e in
            rw (e, parse_factor)
              (and_then-Ended (parse_factor n (advance pr))
                (h.factor (advance pr) (omega (arith, one, short)))
                (λ v pr' le'. returns-Ended (omega (arith, one, short))))
        | inr no_minus ↦ elim (Bool-cases (peek pr == b'+')) [
          | inl e ↦
              let one = length-advance 42 pr e in
              rw (no_minus, e, parse_factor)
                (Ended-le (parse_factor n (advance pr)) (omega (arith, one, short))
                  (h.factor (advance pr) (omega (arith, one, short))))
          | inr no_plus ↦ elim (Bool-cases (peek pr == b'(')) [
            | inl e ↦
                let one = length-advance 39 pr e in
                rw (no_minus, no_plus, e, parse_factor)
                  (and_then-Ended (parse_expr n (advance pr))
                    (h.expr (advance pr) (omega (arith, one, short)))
                    (λ v pr' le'.
                      Ended-le (close_paren v pr') (omega (arith, one, short))
                        (close_paren-Ended v pr')))
            | inr no_paren ↦ elim (Bool-cases (is_digit (peek pr))) [
              | inl e ↦
                  rw (no_minus, no_plus, no_paren, e, parse_factor)
                    (returns-Ended (omega (arith, short, length-read_digits 0 pr.p)))
              | inr e ↦ rw (no_minus, no_plus, no_paren, e, parse_factor) (returns-Ended short)
            ]
          ]
        ]
      ]

  power-Ended :
      (pr : Parser) → 4 * length pr.p + 1 ≤ n → Ended (length pr.p) (parse_power (suc n) pr)
  unfolding parse_power
  power-Ended pr le =
      and_then-Ended (parse_factor n pr) (h.factor pr le)
        (λ v pr' le'. Ended-le (raise n v pr') le' (h.raised v pr' (omega arith)))

  raise-Ended :
      (v : ℕ) (pr₀ : Parser) → 4 * length pr₀.p ≤ n → Ended (length pr₀.p) (raise (suc n) v pr₀)
  unfolding raise
  raise-Ended v pr₀ le =
      let pr = skip_spaces pr₀ in
      let short = length-skip_blanks pr₀.p in
      elim (Bool-cases (peek pr == b'^')) [
        | inl e ↦
            let one = length-advance 93 pr e in
            rw (e, raise)
              (and_then-Ended (parse_power n (advance pr))
                (h.power (advance pr) (omega (arith, one, short)))
                (λ w pr' le'.
                  Ended-le (ipow v w pr') (omega (arith, one, short)) (ipow-Ended v w pr')))
        | inr e ↦ rw (e, raise) (returns-Ended short)
      ]

  term-Ended : (pr : Parser) → 4 * length pr.p + 2 ≤ n → Ended (length pr.p) (parse_term (suc n) pr)
  unfolding parse_term
  term-Ended pr le =
      and_then-Ended (parse_power n pr) (h.power pr le)
        (λ v pr' le'. Ended-le (term_loop n v pr') le' (h.terms v pr' (omega arith)))

  term_loop-Ended :
      (v : ℕ) (pr₀ : Parser) → 4 * length pr₀.p ≤ n → Ended (length pr₀.p) (term_loop (suc n) v pr₀)
  unfolding term_loop
  term_loop-Ended v pr₀ le =
      let pr = skip_spaces pr₀ in
      let short = length-skip_blanks pr₀.p in
      elim (Bool-cases (peek pr == b'*')) [
        | inl e ↦
            let one = length-advance 41 pr e in
            rw (e, term_loop)
              (and_then-Ended (parse_power n (advance pr))
                (h.power (advance pr) (omega (arith, one, short)))
                (λ w pr' le'.
                  Ended-le (term_loop n (u32 (v * w)) pr') (omega (arith, one, short))
                    (h.terms (u32 (v * w)) pr' (omega (arith, one, short)))))
        | inr no_times ↦ elim (Bool-cases (peek pr == b'/')) [
          | inl e ↦
              let one = length-advance 46 pr e in
              rw (no_times, e, term_loop)
                (and_then-Ended (parse_power n (advance pr))
                  (h.power (advance pr) (omega (arith, one, short)))
                  (λ w pr' le'.
                    divide-Ended (length pr₀.p) (term_loop n) v w pr' (omega (arith, one, short))
                      (λ q.
                        Ended-le (term_loop n q pr') (omega (arith, one, short))
                          (h.terms q pr' (omega (arith, one, short))))))
          | inr e ↦ rw (no_times, e, term_loop) (returns-Ended short)
        ]
      ]

  expr-Ended : (pr : Parser) → 4 * length pr.p + 3 ≤ n → Ended (length pr.p) (parse_expr (suc n) pr)
  unfolding parse_expr
  expr-Ended pr le =
      and_then-Ended (parse_term n pr) (h.term pr le)
        (λ v pr' le'. Ended-le (expr_loop n v pr') le' (h.exprs v pr' (omega arith)))

  -- a further term, and the rest of the loop with the value that `join` makes
  next_term :
      (join : ℕ → ℕ) (l : ℕ) (pr : Parser)
      → suc (length (advance pr).p) ≤ l
      → 4 * l ≤ n
      → Ended l (and_then (parse_term n (advance pr)) (λ rhs. expr_loop n (join rhs)))
  next_term join l pr one le =
      and_then-Ended (parse_term n (advance pr)) (h.term (advance pr) (omega arith)) (λ w pr' le'.
        Ended-le (expr_loop n (join w) pr') (omega arith) (h.exprs (join w) pr' (omega arith)))

  expr_loop-Ended :
      (v : ℕ) (pr₀ : Parser) → 4 * length pr₀.p ≤ n → Ended (length pr₀.p) (expr_loop (suc n) v pr₀)
  unfolding expr_loop
  expr_loop-Ended v pr₀ le =
      let pr = skip_spaces pr₀ in
      let short = length-skip_blanks pr₀.p in
      elim (Bool-cases (peek pr == b'+')) [
        | inl e ↦
            rw (e, expr_loop)
              (next_term (λ w. u32 (v + w)) (length pr₀.p) pr
                (omega (arith, short, length-advance 42 pr e)) le)
        | inr no_plus ↦ elim (Bool-cases (peek pr == b'-')) [
          | inl e ↦
              rw (no_plus, e, expr_loop)
                (next_term (λ w. minus v w) (length pr₀.p) pr
                  (omega (arith, short, length-advance 44 pr e)) le)
          | inr e ↦ rw (no_plus, e, expr_loop) (returns-Ended short)
        ]
      ]

all_end : (n : ℕ) → AllEnd n
all_end zero = record {
  factor = λ pr h. absurd (omega arith);
  power = λ pr h. absurd (omega arith);
  raised = λ v pr h. absurd (omega arith);
  term = λ pr h. absurd (omega arith);
  terms = λ v pr h. absurd (omega arith);
  expr = λ pr h. absurd (omega arith);
  exprs = λ v pr h. absurd (omega arith);
}
all_end (suc n) =
    let h = all_end n in
    record {
      factor = λ pr le. factor-Ended n h pr (omega arith);
      power = λ pr le. power-Ended n h pr (omega arith);
      raised = λ v pr le. raise-Ended n h v pr (omega arith);
      term = λ pr le. term-Ended n h pr (omega arith);
      terms = λ v pr le. term_loop-Ended n h v pr (omega arith);
      expr = λ pr le. expr-Ended n h pr (omega arith);
      exprs = λ v pr le. expr_loop-Ended n h v pr (omega arith);
    }

Ended-not_spent : {l : ℕ} (r : Step) → Ended l r → r ≢ spent
Ended-not_spent (returns v pr) e = λ same. ground arith
Ended-not_spent traps e = λ same. ground arith
Ended-not_spent spent e = absurd e.ends

at_end-Ended : (v : ℕ) (pr : Parser) → Ended (length pr.p) (at_end v pr)
unfolding at_end
at_end-Ended v pr =
    let short = length-skip_blanks pr.p in
    elim (Bool-cases (peek (skip_spaces pr) == 0)) [
      | inl e ↦ rw e (returns-Ended short)
      | inr e ↦ rw e (returns-Ended short)
    ]

-- The calculator ends on every string: the fuel, four times the length and four more, is enough.
pub calc_eval-Ends : (expr : List ℕ) → calc_eval expr ≢ spent
unfolding calc_eval
calc_eval-Ends expr =
    let pr : Parser = record { p = expr; error = false } in
    let fuel = enough (length expr) in
    Ended-not_spent (calc_eval expr) (
      and_then-Ended {m = length expr} (parse_expr fuel pr) ((all_end fuel).expr pr (omega arith))
        (λ v pr' le. Ended-le (at_end v pr') le (at_end-Ended v pr')))
