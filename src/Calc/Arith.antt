-- ===== src/Calc/Arith.antt =====
-- The power of src/calc.c is the power, modulo 2^32.
use mykernel.Base.{
  ℕ, zero, suc, ◌+◌, ◌*◌, ◌/◌, ◌%◌, ◌^◌, ◌<◌, ◌≡◌, inl, inr, sym, ap, ◌∙◌, false, arith, ◌==◌, u32,
  if◌then◌else◌, Bool-cases,
}
use native.Mathlib.Nat.{mod-add-div, add-mul-mod_self_left, pow-zero, pow-suc, mul_comm}
use mykernel.Calc.{Parser, returns, is_negative, power_loop, ipow}

u32_mul : (a c : ℕ) → u32 (u32 a * c) ≡ u32 (a * c)
u32_mul a c =
    let split : a * c ≡ u32 a * c + 2 ^ 32 * (a / 2 ^ 32 * c) =
      ap (λ x. x * c) (sym (mod-add-div a (2 ^ 32))) ∙ omega arith in
    sym (ap u32 split ∙ add-mul-mod_self_left (u32 a * c) (2 ^ 32) (a / 2 ^ 32 * c))

u32-mul_right : (a c : ℕ) → u32 (a * u32 c) ≡ u32 (a * c)
u32-mul_right a c = ap u32 (mul_comm a (u32 c)) ∙ u32_mul c a ∙ ap u32 (mul_comm c a)

u32_pow : (a b h : ℕ) → u32 (a * u32 b ^ h) ≡ u32 (a * b ^ h)
u32_pow a b zero = ap (λ x. u32 (a * x)) (pow-zero (u32 b) ∙ sym (pow-zero b))
u32_pow a b (suc h) =
    let last : a * u32 b ^ suc h ≡ a * u32 b ^ h * u32 b =
      ap (λ x. a * x) (pow-suc (u32 b) h) ∙ omega arith in
    let turn : a * u32 b ^ h * b ≡ a * b * u32 b ^ h = omega arith in
    let join : a * b * b ^ h ≡ a * b ^ suc h = omega arith ∙ ap (λ x. a * x) (sym (pow-suc b h)) in
    ap u32 last ∙ u32-mul_right (a * u32 b ^ h) b ∙ ap u32 turn ∙ u32_pow (a * b) b h ∙ ap u32 join

square_pow : (b h : ℕ) → (b * b) ^ h ≡ b ^ (h + h)
square_pow b zero = pow-zero (b * b) ∙ sym (pow-zero b)
square_pow b (suc h) =
    let two : h + suc h ≡ suc (h + h) = omega arith in
    let all : suc h + suc h ≡ suc (suc (h + h)) = omega arith in
    pow-suc (b * b) h
    ∙ ap (λ x. x * (b * b)) (square_pow b h)
    ∙ omega arith
    ∙ sym (ap (λ n. b ^ n) all ∙ pow-suc b (suc (h + h)) ∙ ap (λ x. x * b) (pow-suc b (h + h)))

-- one round of the loop
round_pow :
    (r b e : ℕ)
    → u32 ((if e % 2 == 1 then u32 (r * b) else r) * u32 (b * b) ^ (e / 2)) ≡ u32 (r * b ^ e)
round_pow r b e = elim (Bool-cases (e % 2 == 1)) [
  | inl odd ↦
      let h = e / 2 in
      let split : e ≡ suc (h + h) = ground arith in
      let join : r * b * b ^ (h + h) ≡ r * b ^ e =
        omega arith ∙ ap (λ x. r * x) (sym (ap (λ n. b ^ n) split ∙ pow-suc b (h + h))) in
      rw odd (
        u32_mul (r * b) (u32 (b * b) ^ h)
        ∙ u32_pow (r * b) (b * b) h
        ∙ ap (λ x. u32 (r * b * x)) (square_pow b h)
        ∙ ap u32 join)
  | inr even ↦
      let h = e / 2 in
      let split : h + h ≡ e = ground arith in
      rw even (u32_pow r (b * b) h ∙ ap (λ x. u32 (r * x)) (square_pow b h ∙ ap (λ n. b ^ n) split))
]

power_loop_lem : (n r b e : ℕ) → e < 2 ^ n → r < 2 ^ 32 → power_loop n r b e ≡ u32 (r * b ^ e)
unfolding power_loop
power_loop_lem zero r b e lt small =
    let none : e ≡ 0 = omega (arith, pow-zero 2) in
    let one : r * b ^ e ≡ r =
      ap (λ n. r * b ^ n) none ∙ ap (λ x. r * x) (pow-zero b) ∙ omega arith in
    sym (ap u32 one ∙ omega arith)
power_loop_lem (suc n) r b e lt small = elim (Bool-cases (e == 0)) [
  | inl done ↦
      let none : e ≡ 0 = ground arith in
      let one : r * b ^ e ≡ r =
        ap (λ n. r * b ^ n) none ∙ ap (λ x. r * x) (pow-zero b) ∙ omega arith in
      rw done (sym (ap u32 one ∙ omega arith))
  | inr more ↦
      let r' = if e % 2 == 1 then u32 (r * b) else r in
      let half : e / 2 < 2 ^ n = omega (arith, pow-suc 2 n) in
      let small' : r' < 2 ^ 32 = ground arith in
      rw more (power_loop_lem n r' (u32 (b * b)) (e / 2) half small' ∙ round_pow r b e)
]

-- The power with an exponent that is not negative is the power, modulo 2^32: 31 rounds are enough.
pub ipow_lem :
    (base exp : ℕ) (pr : Parser)
    → is_negative exp ≡ false
    → ipow base exp pr ≡ returns (u32 (base ^ exp)) pr
unfolding ipow
ipow_lem base exp pr e =
    let one : 1 * base ^ exp ≡ base ^ exp = omega arith in
    let run = power_loop_lem 31 1 base exp (ground arith) (omega arith) in
    rw e (ap (λ x. returns x pr) (run ∙ ap u32 one))
