-- ===== src/Mylang/Values.antt =====
-- The value of an expression with variables in src/mlang.c.
use mykernel.Base.{
  ℕ, zero, suc, ◌+◌, ◌^◌, ◌/◌, ◌%◌, ◌<◌, ◌≤◌, ◌≡◌, refl, sym, ap, ◌∙◌, false, some, List, [], ◌∷◌,
  ◌++◌, arith, ltb, length, length-append, Bool-cases, inl, inr,
}
use mathlib.Core.List.{append_assoc, append-nil}
use mykernel.Calc.Evaluates.{calc_eval-print}
use mykernel.Calc.Syntax.{decimal, print}
use mykernel.Mylang.{
  Var, is_ident_start, put_all, written, value_of, text, grown, expand_loop, expand_expr, value_is,
  calculated, eval_expr,
}
use mykernel.Mylang.Texts.{
  Formula, constant, variable, negative, sum, difference, product, fraction, power, value, source,
  Name, Named, signed, bind, eval-bind,
}
use mykernel.Mylang.Digits.{written-signed}
use mykernel.Mylang.Expand.{
  Apart, put_all-fits, read_name-all, Expands, expand_char, char-Expands, join-Expands,
  wrapped-Expands,
}

-- no character is one of an identifier that starts
abbrev Copied : List ℕ → Type 0
Copied [] = Unit
Copied (c ∷ s) = (is_ident_start c ≡ false) × Copied s

Copied-append : (s : List ℕ) (c : ℕ) → Copied s → is_ident_start c ≡ false → Copied (s ++ c ∷ [])
Copied-append [] c h e = (e, tt)
Copied-append (x ∷ s) c h e = (h.0, Copied-append s c h.1 e)

decimal-Copied : (k n : ℕ) → n ≤ k → Copied (decimal k n)
decimal-Copied zero n le =
    let other : is_ident_start (b'0' + n) ≡ false = ground arith in (other, tt)
decimal-Copied (suc k) n le = elim (Bool-cases (ltb n 10)) [
  | inl e ↦ let other : is_ident_start (b'0' + n) ≡ false = ground arith in rw e (other, tt)
  | inr e ↦
      let last : is_ident_start (b'0' + n % 10) ≡ false = ground arith in
      rw e (
        Copied-append (decimal k (n / 10)) (b'0' + n % 10)
          (decimal-Copied k (n / 10) (ground arith)) last)
]

length-Name : (x : List ℕ) → Name x → 1 ≤ length x
length-Name [] h = absurd (ground (arith, h.starts))
length-Name (c ∷ x) h = omega arith

module _ (vars : List Var) where
  expand_digits :
      (s : List ℕ) (n : ℕ) (out rest : List ℕ)
      → Copied s
      → length out + length s < 128
      → length (s ++ rest) < n
      → (m : ℕ) × (length rest < m)
        × (expand_loop n vars 128 (s ++ rest) out ≡ expand_loop m vars 128 rest (out ++ s))
  expand_digits [] n out rest h fits le =
      (n, le, ap (expand_loop n vars 128 rest) (sym (append-nil out)))
  expand_digits (c ∷ s) zero out rest h fits le = absurd (omega arith)
  expand_digits (c ∷ s) (suc n) out rest h fits le =
      let longer = length-append out (c ∷ []) in
      let (m, enough, eq) =
        expand_digits s n (out ++ c ∷ []) rest h.1 (omega arith) (omega arith) in
      (
        m,
        enough,
        expand_char vars n c out (s ++ rest) h.0 (omega arith)
            ∙ eq
            ∙ ap (expand_loop m vars 128 rest) (append_assoc out (c ∷ []) s),
      )

  constant-Expands : (k : ℕ) → Expands vars (decimal k k) (decimal k k)
  constant-Expands k = record {
    reads = λ n out rest apart fits le.
        expand_digits (decimal k k) n out rest (decimal-Copied k k (omega arith)) fits le;
  }

  expand_identifier :
      (n : ℕ) (x out rest t : List ℕ)
      → Name x
      → Apart rest
      → written (value_of x vars) ≡ t
      → length out + length t < 128
      → expand_loop (suc n) vars 128 (x ++ rest) out ≡ expand_loop n vars 128 rest (out ++ t)
  unfolding expand_loop
  expand_identifier n [] out rest t h apart e fits = absurd (ground (arith, h.starts))
  expand_identifier n (c ∷ x) out rest t h apart e fits =
      let short = h.short in
      let name = read_name-all 15 (c ∷ x) rest (omega arith) h.idents apart in
      rw (h.starts, expand_loop)
        (ap
            (λ r.
              grown (put_all 128 (written (value_of r.0 vars)) out) (expand_loop n vars 128 r.1))
            name
          ∙ ap (λ s. grown (put_all 128 s out) (expand_loop n vars 128 rest)) e
          ∙ ap (λ o. grown o (expand_loop n vars 128 rest)) (put_all-fits 128 t out fits))

  variable-Expands : (x t : List ℕ) → Name x → written (value_of x vars) ≡ t → Expands vars x t
  variable-Expands x t h e = record { reads = run }
    where
      run :
          (n : ℕ) (out rest : List ℕ)
          → Apart rest
          → length out + length t < 128
          → length (x ++ rest) < n
          → (m : ℕ) × (length rest < m)
            × (expand_loop n vars 128 (x ++ rest) out ≡ expand_loop m vars 128 rest (out ++ t))
      run zero out rest apart fits le = absurd (omega arith)
      run (suc n) out rest apart fits le =
          let parts = length-append x rest in
          let some_char = length-Name x h in
          (n, omega arith, expand_identifier n x out rest t h apart e fits)

  abbrev env : List ℕ → ℕ
  env x = value_of x vars

  -- The text of an expression becomes the text with the values in it.
  source-Expands :
      (e : Formula)
      → Named e
      → ((x : List ℕ) → env x < 2 ^ 32)
      → Expands vars (source e) (print (bind env e))
  source-Expands (constant n) names h = constant-Expands n
  source-Expands (variable x) names h =
      variable-Expands x (print (signed (env x))) names (written-signed (env x) (h x))
  source-Expands (negative a) names h =
      char-Expands vars b'-' _ _ refl (wrapped-Expands vars 3 a env _ _ (source-Expands a names h))
  source-Expands (sum a b) names h =
      join-Expands vars b'+' _ _ _ _ refl
        (wrapped-Expands vars 0 a env _ _ (source-Expands a names.0 h))
        (wrapped-Expands vars 1 b env _ _ (source-Expands b names.1 h))
  source-Expands (difference a b) names h =
      join-Expands vars b'-' _ _ _ _ refl
        (wrapped-Expands vars 0 a env _ _ (source-Expands a names.0 h))
        (wrapped-Expands vars 1 b env _ _ (source-Expands b names.1 h))
  source-Expands (product a b) names h =
      join-Expands vars b'*' _ _ _ _ refl
        (wrapped-Expands vars 1 a env _ _ (source-Expands a names.0 h))
        (wrapped-Expands vars 2 b env _ _ (source-Expands b names.1 h))
  source-Expands (fraction a b) names h =
      join-Expands vars b'/' _ _ _ _ refl
        (wrapped-Expands vars 1 a env _ _ (source-Expands a names.0 h))
        (wrapped-Expands vars 2 b env _ _ (source-Expands b names.1 h))
  source-Expands (power a b) names h =
      join-Expands vars b'^' _ _ _ _ refl
        (wrapped-Expands vars 3 a env _ _ (source-Expands a names.0 h))
        (wrapped-Expands vars 2 b env _ _ (source-Expands b names.1 h))

  expand_loop-end : (n : ℕ) (out : List ℕ) → 0 < n → expand_loop n vars 128 [] out ≡ text out
  unfolding expand_loop
  expand_loop-end zero out le = absurd (omega arith)
  expand_loop-end (suc n) out le = refl

  expand_expr-source :
      (e : Formula)
      → Named e
      → ((x : List ℕ) → env x < 2 ^ 32)
      → length (print (bind env e)) < 128
      → expand_expr vars (source e) 128 ≡ text (print (bind env e))
  unfolding expand_expr
  expand_expr-source e names h fits =
      let s = source e in
      let whole = append-nil s in
      let same = ap length whole in
      let (m, enough, eq) =
        (source-Expands e names h).reads (length s + 1) [] [] refl (omega arith) (omega arith) in
      ap (λ p. expand_loop (length s + 1) vars 128 p []) (sym whole)
      ∙ eq
      ∙ expand_loop-end m (print (bind env e)) (omega arith)

  -- An expression is evaluated to its value with the values of the variables, 0 for a variable that
  -- is not set. The names have at most 15 characters, the value exists, the values of the variables
  -- are of 32 bits, and the text with the values in it has at most 127 characters.
  pub eval_expr-source :
      (e : Formula) (v : ℕ)
      → Named e
      → ((x : List ℕ) → env x < 2 ^ 32)
      → length (print (bind env e)) < 128
      → value env e ≡ some v
      → eval_expr vars (source e) ≡ value_is v
  unfolding eval_expr
  eval_expr-source e v names h fits eq =
      ap calculated (expand_expr-source e names h fits)
      ∙ rw (calc_eval-print (bind env e) v (eval-bind env e h ∙ eq)) refl
