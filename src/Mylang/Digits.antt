-- ===== src/Mylang/Digits.antt =====
-- How src/mlang.c writes numbers: the digits are those of the number in decimal.
use mykernel.Base.{
  ℕ, zero, suc, ◌+◌, ◌-◌, ◌/◌, ◌%◌, ◌^◌, ◌<◌, ◌≤◌, ◌≡◌, refl, sym, ap, ◌∙◌, false, List, [], ◌∷◌,
  ◌++◌, arith, ltb, ◌==◌, Bool-cases, inl, inr,
}
use native.Mathlib.Nat.{pow-zero, pow-suc}
use mathlib.Core.List.{append_assoc, append-nil}
use mykernel.Calc.{is_negative}
use mykernel.Calc.Syntax.{decimal, print}
use mykernel.Mylang.{fill_tmp, digits, written}
use mykernel.Mylang.Texts.{signed}

fill_tmp-zero : (n : ℕ) (acc : List ℕ) → fill_tmp n 0 acc ≡ acc
unfolding fill_tmp
fill_tmp-zero zero acc = refl
fill_tmp-zero (suc n) acc = refl

fill_tmp-decimal :
    (n k u : ℕ) (acc : List ℕ) → 0 < u → u < 10 ^ n → u ≤ k → fill_tmp n u acc ≡ decimal k u ++ acc
unfolding fill_tmp
fill_tmp-decimal zero k u acc some_digit few le = absurd (omega (arith, pow-zero 10))
fill_tmp-decimal (suc n) zero u acc some_digit few le = absurd (omega arith)
fill_tmp-decimal (suc n) (suc k) u acc some_digit few le =
    let first : (u == 0) ≡ false = ground arith in
    elim (Bool-cases (ltb u 10)) [
      | inl e ↦
          let last : u % 10 ≡ u = ground arith in
          let front : u / 10 ≡ 0 = ground arith in
          rw (first, e, front, last, fill_tmp) (fill_tmp-zero n ((b'0' + u) ∷ acc))
      | inr e ↦
          let more = (b'0' + u % 10) ∷ acc in
          rw (first, e, fill_tmp)
            (fill_tmp-decimal n k (u / 10) more (ground arith) (omega (arith, pow-suc 10 n))
                (ground arith)
              ∙ sym (append_assoc (decimal k (u / 10)) ((b'0' + u % 10) ∷ []) acc))
    ]

pub digits-decimal : (n u : ℕ) → u < 10 ^ n → digits n u ≡ decimal u u
digits-decimal n zero few = refl
digits-decimal n (suc u) few =
    let some_digit : (suc u == 0) ≡ false = ground arith in
    rw some_digit (
      fill_tmp-decimal n (suc u) (suc u) [] (omega arith) few (omega arith)
      ∙ append-nil (decimal (suc u) (suc u)))

-- A value is written as the calculator reads it.
pub written-signed : (v : ℕ) → v < 2 ^ 32 → written v ≡ print (signed v)
written-signed v small = elim (Bool-cases (is_negative v)) [
  | inl e ↦ rw e (ap (λ s. b'-' ∷ s) (digits-decimal 20 (2 ^ 32 - v) (omega arith)))
  | inr e ↦ rw e (digits-decimal 20 v (omega arith))
]
