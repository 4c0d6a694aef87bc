-- ===== src/Mylang/Ends.antt =====
-- The evaluation of every expression in src/mlang.c ends: the fuel of the model is enough.
use mykernel.Base.{
  ℕ, zero, suc, ◌+◌, ◌-◌, ◌<◌, ◌≤◌, ◌≡◌, refl, ◌≢◌, true, Option, none, some, List, [], ◌∷◌, arith,
  length, Bool-cases, inl, inr,
}
use mykernel.Calc.{Step, returns, traps, spent, calc_eval}
use mykernel.Calc.Ends.{calc_eval-Ends}
use mykernel.Mylang.{
  max_name, Var, is_ident, is_ident_start, read_name, put_all, written, value_of, Expansion, text,
  no_room, unfinished, grown, expand_loop, expand_expr, endless, checked, calculated, eval_expr,
}

record Finished (e : Expansion) : Type 0 where
  ends : e ≢ unfinished

text-Finished : (s : List ℕ) → Finished (text s)
text-Finished s = record { ends = λ e. ground arith }

no_room-Finished : Finished no_room
no_room-Finished = record { ends = λ e. ground arith }

length-read_name : (room : ℕ) (p : List ℕ) → length (read_name room p).1 ≤ length p
unfolding read_name
length-read_name zero p = omega arith
length-read_name (suc room) [] = omega arith
length-read_name (suc room) (c ∷ p) = elim (Bool-cases (is_ident c)) [
  | inl e ↦ rw e (omega (arith, length-read_name room p))
  | inr e ↦ rw e (omega arith)
]

pub read_name-first :
    (room c : ℕ) (p : List ℕ)
    → is_ident_start c ≡ true
    → length (read_name (suc room) (c ∷ p)).1 ≤ length p
unfolding read_name
read_name-first room c p h =
    let letter : is_ident c ≡ true = rw h refl in rw letter (length-read_name room p)

grown-Finished :
    (o : Option (List ℕ)) (loop : List ℕ → Expansion)
    → ((out : List ℕ) → Finished (loop out))
    → Finished (grown o loop)
grown-Finished none loop h = no_room-Finished
grown-Finished (some out) loop h = h out

expand_loop-Finished :
    (n : ℕ) (vars : List Var) (out_sz : ℕ) (p out : List ℕ)
    → length p < n
    → Finished (expand_loop n vars out_sz p out)
unfolding expand_loop
expand_loop-Finished zero vars out_sz p out le = absurd (omega arith)
expand_loop-Finished (suc n) vars out_sz [] out le = text-Finished out
expand_loop-Finished (suc n) vars out_sz (c ∷ p) out le = elim (Bool-cases (is_ident_start c)) [
  | inl e ↦
      let r = read_name (max_name - 1) (c ∷ p) in
      let short = read_name-first 14 c p e in
      rw (e, expand_loop)
        (grown-Finished (put_all out_sz (written (value_of r.0 vars)) out)
          (expand_loop n vars out_sz r.1)
          (λ o. expand_loop-Finished n vars out_sz r.1 o (omega arith)))
  | inr e ↦
      rw (e, expand_loop)
        (grown-Finished (put_all out_sz (c ∷ []) out) (expand_loop n vars out_sz p)
          (λ o. expand_loop-Finished n vars out_sz p o (omega arith)))
]

expand_expr-Finished :
    (vars : List Var) (expr : List ℕ) (out_sz : ℕ) → Finished (expand_expr vars expr out_sz)
unfolding expand_expr
expand_expr-Finished vars expr out_sz =
    expand_loop-Finished (length expr + 1) vars out_sz expr [] (omega arith)

checked-not_endless : (r : Step) → r ≢ spent → checked r ≢ endless
checked-not_endless (returns v pr) h = elim (Bool-cases pr.error) [
  | inl e ↦ rw e (λ same. ground arith)
  | inr e ↦ rw e (λ same. ground arith)
]
checked-not_endless traps h = λ same. ground arith
checked-not_endless spent h = absurd (h refl)

calculated-not_endless : (e : Expansion) → Finished e → calculated e ≢ endless
calculated-not_endless (text buf) h = checked-not_endless (calc_eval buf) (calc_eval-Ends buf)
calculated-not_endless no_room h = λ same. ground arith
calculated-not_endless unfinished h = absurd (h.ends refl)

-- The evaluation of an expression ends.
pub eval_expr-not_endless : (vars : List Var) (expr : List ℕ) → eval_expr vars expr ≢ endless
unfolding eval_expr
eval_expr-not_endless vars expr =
    calculated-not_endless (expand_expr vars expr 128) (expand_expr-Finished vars expr 128)
