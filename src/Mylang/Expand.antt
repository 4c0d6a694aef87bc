-- ===== src/Mylang/Expand.antt =====
-- What expand_expr of src/mlang.c makes of the text of an expression with variables.
use mykernel.Base.{
  ℕ, zero, suc, ◌+◌, ◌<◌, ◌≤◌, ◌≡◌, refl, sym, ap, ◌∙◌, false, some, List, [], ◌∷◌, ◌++◌, arith,
  leb, ltb, length, length-append, Bool-cases, inl, inr,
}
use mathlib.Core.List.{append_assoc, append-nil}
use mykernel.Calc.Syntax.{within, parens}
use mykernel.Mylang.{Var, peek, is_ident, is_ident_start, read_name, put_all, grown, expand_loop}
use mykernel.Mylang.Texts.{Formula, rank, wrapped, Idents, bind, level-bind}

-- no identifier goes on here
abbrev pub Apart : List ℕ → Type 0
Apart rest = is_ident (peek rest) ≡ false

pub put_all-fits :
    (out_sz : ℕ) (cs out : List ℕ)
    → length out + length cs < out_sz
    → put_all out_sz cs out ≡ some (out ++ cs)
unfolding put_all
put_all-fits out_sz [] out le = ap some (sym (append-nil out))
put_all-fits out_sz (c ∷ cs) out le =
    let room : leb out_sz (length out + 1) ≡ false = ground arith in
    let longer = length-append out (c ∷ []) in
    rw room (
      put_all-fits out_sz cs (out ++ c ∷ []) (omega arith) ∙ ap some (append_assoc out (c ∷ []) cs))

pub read_name-all :
    (room : ℕ) (x rest : List ℕ)
    → length x ≤ room
    → Idents x
    → Apart rest
    → read_name room (x ++ rest) ≡ (x, rest)
unfolding read_name
read_name-all zero [] rest le h apart = refl
read_name-all zero (c ∷ x) rest le h apart = absurd (omega arith)
read_name-all (suc room) [] [] le h apart = refl
read_name-all (suc room) [] (c ∷ rest) le h apart = rw apart refl
read_name-all (suc room) (c ∷ x) rest le h apart =
    rw h.0 (ap (λ r. (c ∷ r.0, r.1)) (read_name-all room x rest (omega arith) h.1 apart))

module _ (vars : List Var) where
  -- The text `s` becomes `t`, whatever stands behind it.
  pub record Expands (s t : List ℕ) : Type 0 where
    pub reads :
        (n : ℕ) (out rest : List ℕ)
        → Apart rest
        → length out + length t < 128
        → length (s ++ rest) < n
        → (m : ℕ) × (length rest < m)
          × (expand_loop n vars 128 (s ++ rest) out ≡ expand_loop m vars 128 rest (out ++ t))

  pub expand_char :
      (n c : ℕ) (out p : List ℕ)
      → is_ident_start c ≡ false
      → length out + 1 < 128
      → expand_loop (suc n) vars 128 (c ∷ p) out ≡ expand_loop n vars 128 p (out ++ c ∷ [])
  unfolding expand_loop
  expand_char n c out p h le =
      rw (h, expand_loop)
        (ap (λ o. grown o (expand_loop n vars 128 p)) (put_all-fits 128 (c ∷ []) out (omega arith)))

  -- a character of no identifier in front
  pub char-Expands :
      (c : ℕ) (s t : List ℕ) → is_ident c ≡ false → Expands s t → Expands (c ∷ s) (c ∷ t)
  char-Expands c s t h f = record { reads = run }
    where
      run :
          (n : ℕ) (out rest : List ℕ)
          → Apart rest
          → length out + length (c ∷ t) < 128
          → length ((c ∷ s) ++ rest) < n
          → (m : ℕ) × (length rest < m)
            × (expand_loop n vars 128 ((c ∷ s) ++ rest) out
                ≡ expand_loop m vars 128 rest (out ++ c ∷ t))
      run zero out rest apart fits le = absurd (omega arith)
      run (suc n) out rest apart fits le =
          let longer = length-append out (c ∷ []) in
          let (m, enough, eq) = f.reads n (out ++ c ∷ []) rest apart (omega arith) (omega arith) in
          let start : is_ident_start c ≡ false = ground arith in
          (
            m,
            enough,
            expand_char n c out (s ++ rest) start (omega arith)
                ∙ eq
                ∙ ap (expand_loop m vars 128 rest) (append_assoc out (c ∷ []) t),
          )

  -- a text, a character of no identifier, and a text
  pub join-Expands :
      (c : ℕ) (s t s' t' : List ℕ)
      → is_ident c ≡ false
      → Expands s t
      → Expands s' t'
      → Expands (s ++ (c ∷ s')) (t ++ (c ∷ t'))
  join-Expands c s t s' t' h f g = record { reads = run }
    where
      run :
          (n : ℕ) (out rest : List ℕ)
          → Apart rest
          → length out + length (t ++ (c ∷ t')) < 128
          → length ((s ++ (c ∷ s')) ++ rest) < n
          → (m : ℕ) × (length rest < m)
            × (expand_loop n vars 128 ((s ++ (c ∷ s')) ++ rest) out
                ≡ expand_loop m vars 128 rest (out ++ (t ++ (c ∷ t'))))
      run n out rest apart fits le =
          let whole = append_assoc s (c ∷ s') rest in
          let same = ap length whole in
          let parts = length-append t (c ∷ t') in
          let longer = length-append out t in
          let (m, more, eq) = f.reads n out ((c ∷ s') ++ rest) h (omega arith) (omega arith) in
          let (k, enough, eq') =
            (char-Expands c s' t' h g).reads m (out ++ t) rest apart (omega arith) more in
          (
            k,
            enough,
            ap (λ p. expand_loop n vars 128 p out) whole
                ∙ eq
                ∙ eq'
                ∙ ap (expand_loop k vars 128 rest) (append_assoc out t (c ∷ t')),
          )

  pub nil-Expands : Expands [] []
  nil-Expands = record {
    reads = λ n out rest apart fits le.
        (n, le, ap (expand_loop n vars 128 rest) (sym (append-nil out)));
  }

  parens-Expands : (s t : List ℕ) → Expands s t → Expands (parens s) (parens t)
  parens-Expands s t f =
      char-Expands b'(' (s ++ (b')' ∷ [])) (t ++ (b')' ∷ [])) refl
        (join-Expands b')' s t [] [] refl f nil-Expands)

  pub wrapped-Expands :
      (l : ℕ) (e : Formula) (env : List ℕ → ℕ) (s t : List ℕ)
      → Expands s t
      → Expands (wrapped l e s) (within l (bind env e) t)
  wrapped-Expands l e env s t f =
      let same = level-bind env e in
      elim (Bool-cases (ltb (rank e) l)) [
        | inl h ↦ rw (same, h) (parens-Expands s t f)
        | inr h ↦ rw (same, h) f
      ]
