-- ===== src/Mylang/Commands.antt =====
-- What a line of src/mlang.c does: assignments and prints of expressions.
use mykernel.Base.{
  ℕ, ◌-◌, ◌^◌, ◌<◌, ◌≡◌, ◌≢◌, refl, sym, ap, ◌∙◌, true, false, ◌||◌, Option, none, some, List, [],
  ◌∷◌, ◌++◌, arith, ltb, ◌==◌, length, if◌then◌else◌, Bool-cases, inl, inr,
}
use mathlib.Core.Path.{subst}
use mykernel.Calc.{is_negative}
use mykernel.Calc.Syntax.{print}
use mykernel.Calc.Joins.{decimal_front}
use mykernel.Mylang.{
  peek, skip_ws, is_ident_start, Var, var_find, var_set, value_of, value_is, eval_expr,
}
use mykernel.Mylang.Command.{
  is_blank, Mlang, Run, done, failed, writes, write_int, printed, stored, assigned, assignment,
  print_word, behind, print_of, print_rest, command, is_empty, mlang_exec_line,
}
use mykernel.Mylang.Texts.{
  Formula, constant, variable, negative, sum, difference, product, fraction, power, rank, value,
  wrapped, source, Name, Named, signed, bind,
}
use mykernel.Mylang.Digits.{digits-decimal}
use mykernel.Mylang.Expand.{read_name-all}
use mykernel.Mylang.Values.{eval_expr-source}
use mykernel.Mylang.Table.{Found, Full, var_set-Found, var_set-Full}
use mykernel.Mylang.Words.{Name-peek, Solid, skip_ws-Solid, Name-Solid, print_of-Name}

-- the text starts with no blank, quote, comment or end
record Starts (s : List ℕ) : Type 0 where
  starts : (is_blank (peek s) || peek s == b'"' || is_empty s) ≡ false

Starts-append : (s t : List ℕ) → Starts s → Starts (s ++ t)
Starts-append [] t h = let no_text = h.starts in absurd (ground (arith, no_text))
Starts-append (c ∷ s) t h = record { starts = h.starts }

wrapped-Starts : (l : ℕ) (e : Formula) → Starts (source e) → Starts (wrapped l e (source e))
wrapped-Starts l e h = elim (Bool-cases (ltb (rank e) l)) [
  | inl f ↦ rw f (record { starts = refl })
  | inr f ↦ rw f h
]

source-Starts : (e : Formula) → Named e → Starts (source e)
source-Starts (constant n) h =
    let (c, s, eq, digit) = decimal_front n n (omega arith) in
    rw eq (record { starts = ground (arith, digit) })
source-Starts (variable x) h = let first = h.starts in record { starts = ground (arith, first) }
source-Starts (negative a) h = record { starts = refl }
source-Starts (sum a b) h =
    Starts-append (wrapped 0 a (source a)) _ (wrapped-Starts 0 a (source-Starts a h.0))
source-Starts (difference a b) h =
    Starts-append (wrapped 0 a (source a)) _ (wrapped-Starts 0 a (source-Starts a h.0))
source-Starts (product a b) h =
    Starts-append (wrapped 1 a (source a)) _ (wrapped-Starts 1 a (source-Starts a h.0))
source-Starts (fraction a b) h =
    Starts-append (wrapped 1 a (source a)) _ (wrapped-Starts 1 a (source-Starts a h.0))
source-Starts (power a b) h =
    Starts-append (wrapped 3 a (source a)) _ (wrapped-Starts 3 a (source-Starts a h.0))

source-Solid : (e : Formula) → Named e → Solid (source e)
source-Solid e h =
    let first = (source-Starts e h).starts in record { solid = ground (arith, first) }

-- what the value is written as
abbrev pub shown : ℕ → List ℕ
shown v = print (signed v)

write_int-shown : (v : ℕ) → v < 2 ^ 32 → write_int v ≡ shown v
write_int-shown v small = elim (Bool-cases (is_negative v)) [
  | inl e ↦ rw e (ap (λ s. b'-' ∷ s) (digits-decimal 10 (2 ^ 32 - v) (omega arith)))
  | inr e ↦ rw e (digits-decimal 10 v (ground arith))
]

-- "mlang: too many variables" and a newline
abbrev pub no_room_text : List ℕ
no_room_text =
    b'm' ∷ b'l' ∷ b'a' ∷ b'n' ∷ b'g' ∷ b':' ∷ b' ' ∷ b't' ∷ b'o' ∷ b'o' ∷ b' ' ∷ b'm' ∷ b'a' ∷ b'n'
    ∷ b'y' ∷ b' ' ∷ b'v' ∷ b'a' ∷ b'r' ∷ b'i' ∷ b'a' ∷ b'b' ∷ b'l' ∷ b'e' ∷ b's' ∷ b'\n' ∷ []

-- how the assignment of `v` to `x` ends
pub data Assigned (x : List ℕ) (v : ℕ) (st : Mlang) : Run → Type 0 where
  has_room :
      (vars : List Var)
      → Found x v st.vars vars
      → Assigned x v st (done (record { vars = vars; screen = st.screen }))
  no_room :
      var_find x st.vars ≡ none
      → Full st.vars
      → Assigned x v st (failed (record { vars = st.vars; screen = st.screen ++ no_room_text }))

stored-Assigned :
    (x : List ℕ) (v : ℕ) (st : Mlang)
    → Name x
    → (o : Option (List Var)) → var_set x v st.vars ≡ o
    → Assigned x v st (stored o st)
stored-Assigned x v st name (some vars) e =
    has_room vars (var_set-Found x v st.vars vars name.short e)
stored-Assigned x v st name none e =
    let (absent, full) = var_set-Full x v st.vars e in no_room absent full

module _ (st : Mlang) (e : Formula) (v : ℕ) (names : Named e)
    (words : (x : List ℕ) → value_of x st.vars < 2 ^ 32)
    (fits : length (print (bind (λ x. value_of x st.vars) e)) < 128)
    (has_value : value (λ x. value_of x st.vars) e ≡ some v) where
  evaluated : eval_expr st.vars (source e) ≡ value_is v
  evaluated = eval_expr-source st.vars e v names words fits has_value

  assignment-stored :
      (x : List ℕ)
      → Name x
      → x ≢ print_word
      → mlang_exec_line (x ++ (b' ' ∷ b'=' ∷ b' ' ∷ source e)) st ≡ stored (var_set x v st.vars) st
  unfolding mlang_exec_line skip_ws
  assignment-stored x name ne =
      let rest = b' ' ∷ b'=' ∷ b' ' ∷ source e in
      let line = x ++ rest in
      let short = name.short in
      let front = skip_ws-Solid line (Name-Solid x rest name) in
      let no_print = print_of-Name x rest name ne refl in
      let word = read_name-all 15 x rest (omega arith) name.idents refl in
      let start : is_ident_start (peek line) ≡ true = Name-peek x rest name in
      let text : is_empty line ≡ false = ground (arith, start) in
      let solid = skip_ws-Solid (source e) (source-Solid e names) in
      ap (λ p. if is_empty p then done st else command (print_of p) p st) front
      ∙ rw text (
          ap (λ o. command o line st) no_print
          ∙ rw start (
              ap (λ r. assignment r.0 (skip_ws r.1) st) word
              ∙ ap (λ s. assigned x (eval_expr st.vars s) st) solid
              ∙ ap (λ r. assigned x r st) evaluated))

  -- An assignment ends in one of two ways. Either it succeeds and writes nothing: the variable then has the
  -- value of the expression, and every other variable is as before. Or it fails with a message and
  -- changes no variable: that happens only when the variable is not there and all places are used.
  -- The name is not `print`, the names have at most 15 characters, the value exists, and the text
  -- with the values in it has at most 127 characters.
  pub mlang_exec_line-assignment :
      (x : List ℕ)
      → Name x
      → x ≢ print_word
      → Assigned x v st (mlang_exec_line (x ++ (b' ' ∷ b'=' ∷ b' ' ∷ source e)) st)
  mlang_exec_line-assignment x name ne =
      subst (Assigned x v st) (sym (assignment-stored x name ne))
        (stored-Assigned x v st name (var_set x v st.vars) refl)

  -- A print of an expression writes its value in decimal, with a sign when it is negative, and a
  -- newline. The names have at most 15 characters, the value exists, and the text with the values in
  -- it has at most 127 characters.
  pub mlang_exec_line-print :
      v < 2 ^ 32
      → mlang_exec_line (print_word ++ (b' ' ∷ source e)) st
        ≡ done (writes (shown v ++ b'\n' ∷ []) st)
  unfolding mlang_exec_line skip_ws behind
  mlang_exec_line-print small =
      let solid = skip_ws-Solid (source e) (source-Solid e names) in
      let first = (source-Starts e names).starts in
      let quote : (peek (source e) == b'"') ≡ false = ground (arith, first) in
      ap (λ p. print_rest p st) solid
      ∙ rw quote (
          ap (λ r. printed r st) evaluated
          ∙ ap (λ s. done (writes (s ++ b'\n' ∷ []) st)) (write_int-shown v small))
