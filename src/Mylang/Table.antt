-- ===== src/Mylang/Table.antt =====
-- The table of variables of src/mlang.c: what is stored is found, and nothing else changes.
use mykernel.Base.{
  ℕ, zero, suc, ◌<◌, ◌≤◌, ◌≡◌, ◌≢◌, refl, sym, ap, ◌∙◌, true, false, Option, none, some, List, [],
  ◌∷◌, arith, ◌==◌, ==→eq, ==-refl, length, take, if◌then◌else◌, Bool-cases, Option-cases, inl, inr,
}
use mathlib.Core.Path.{subst}
use mathlib.Core.Option.{some_inj}
use mykernel.Mylang.{
  max_name, Var, str_eq, str_copy, holds, var_find, update_var, kept, add_var, var_set,
}

str_eq_refl : (s : List ℕ) → str_eq s s ≡ true
str_eq_refl [] = refl
str_eq_refl (c ∷ s) = rw (==-refl c) (str_eq_refl s)

pub str_eq→eq : (s t : List ℕ) → str_eq s t ≡ true → s ≡ t
str_eq→eq [] [] h = refl
str_eq→eq [] (b ∷ t) h = absurd (ground (arith, h))
str_eq→eq (a ∷ s) [] h = absurd (ground (arith, h))
str_eq→eq (a ∷ s) (b ∷ t) h = elim (Bool-cases (a == b)) [
  | inl e ↦
      let rest : str_eq s t ≡ true = sym (rw e refl) ∙ h in
      rw (==→eq a b e, str_eq→eq s t rest) refl
  | inr e ↦ absurd (ground (arith, h, e))
]

str_eq-ne : (s t : List ℕ) → s ≢ t → str_eq s t ≡ false
str_eq-ne s t h = elim (Bool-cases (str_eq s t)) [
  | inl e ↦ absurd (h (str_eq→eq s t e))
  | inr e ↦ e
]

take-short : (n : ℕ) (s : List ℕ) → length s ≤ n → take n s ≡ s
take-short zero [] le = refl
take-short (suc n) [] le = refl
take-short zero (c ∷ s) le = absurd (omega arith)
take-short (suc n) (c ∷ s) le = ap (λ t. c ∷ t) (take-short n s (omega arith))

-- `x` is `name`, with the value `v`, or its value is as before
pub record Found (name : List ℕ) (v : ℕ) (vars vars' : List Var) : Type 0 where
  pub self : var_find name vars' ≡ some v
  pub other : (x : List ℕ) → x ≢ name → var_find x vars' ≡ var_find x vars

module _ (name : List ℕ) (value : ℕ) where
  -- one entry in front that stays
  Found-cons :
      (v : Var) (vars vars' : List Var)
      → holds name v ≡ false
      → Found name value vars vars'
      → Found name value (v ∷ vars) (v ∷ vars')
  unfolding var_find
  Found-cons v vars vars' h f = record {
    self = rw h f.self;
    other = λ x ne. ap (λ later. if holds x v then some v.value else later) (f.other x ne);
  }

  -- one entry that gets the name and the value, when no other name was in it
  Found-here :
      (v w : Var) (vars : List Var)
      → holds name w ≡ true
      → w.value ≡ value
      → ((x : List ℕ) → x ≢ name → holds x v ≡ false)
      → Found name value (v ∷ vars) (w ∷ vars)
  unfolding var_find
  Found-here v w vars h e free = record {
    self = rw h (ap some e);
    other = λ x ne. rw (free x ne, not_here x ne) refl;
  }
    where
      not_here : (x : List ℕ) → x ≢ name → holds x w ≡ false
      not_here x ne = elim (Bool-cases (holds x w)) [
        | inl same ↦
            let first = str_eq→eq w.name x (ground (arith, same)) in
            let second = str_eq→eq w.name name (ground (arith, h)) in
            absurd (ne (sym first ∙ second))
        | inr fresh ↦ fresh
      ]

  Found-update :
      (vars : List Var) (u : ℕ)
      → var_find name vars ≡ some u
      → Found name value vars (update_var name value vars)
  unfolding var_find update_var
  Found-update [] u h = absurd (ground (arith, h))
  Found-update (v ∷ vars) u h = elim (Bool-cases (holds name v)) [
    | inl e ↦
        rw (e, update_var)
          (Found-here v (record v { value = value }) vars e refl
            (λ x ne.
              let here = str_eq→eq v.name name (ground (arith, e)) in
              let differs : str_eq v.name x ≡ false =
                str_eq-ne v.name x (λ same. ne (sym same ∙ here)) in
              ground (arith, differs)))
    | inr e ↦
        let later : var_find name vars ≡ some u = sym (rw e refl) ∙ h in
        rw (e, update_var)
          (Found-cons v vars (update_var name value vars) e (Found-update vars u later))
  ]

  kept-Found :
      (v : Var) (vars vars' : List Var) (o : Option (List Var))
      → holds name v ≡ false
      → ((vs : List Var) → o ≡ some vs → Found name value vars vs)
      → kept v o ≡ some vars'
      → Found name value (v ∷ vars) vars'
  kept-Found v vars vars' none h f e = absurd (ground (arith, e))
  kept-Found v vars vars' (some vs) h f e =
      subst (Found name value (v ∷ vars)) (some_inj.0 e) (Found-cons v vars vs h (f vs refl))

  absent-holds :
      (v : Var) (vars : List Var) → var_find name (v ∷ vars) ≡ none → holds name v ≡ false
  unfolding var_find
  absent-holds v vars h = elim (Bool-cases (holds name v)) [
    | inl e ↦
        let found : var_find name (v ∷ vars) ≡ some v.value = rw e refl in
        absurd (ground (arith, h, found))
    | inr e ↦ e
  ]

  Found-add :
      (vars vars' : List Var)
      → length name < max_name
      → var_find name vars ≡ none
      → add_var name value vars ≡ some vars'
      → Found name value vars vars'
  unfolding var_find add_var
  Found-add [] vars' short absent h = absurd (ground (arith, h))
  Found-add (v ∷ vars) vars' short absent h =
      let fresh = absent-holds v vars absent in
      let later : var_find name vars ≡ none = sym (rw fresh refl) ∙ absent in
      elim (Bool-cases v.used) [
        | inl e ↦
            let same : kept v (add_var name value vars) ≡ some vars' =
              sym (rw (e, add_var) refl) ∙ h in
            kept-Found v vars vars' (add_var name value vars) fresh
              (λ vs. Found-add vars vs short later) same
        | inr e ↦
            let new : Var = record { name = str_copy name max_name; value = value; used = true } in
            let same : some (new ∷ vars) ≡ some vars' = sym (rw (e, add_var) refl) ∙ h in
            let whole : str_eq (str_copy name max_name) name ≡ true =
              ap (λ s. str_eq s name) (take-short 15 name (omega arith)) ∙ str_eq_refl name in
            subst (Found name value (v ∷ vars)) (some_inj.0 same)
              (Found-here v new vars whole refl (λ x ne. rw e refl))
      ]

  -- What is stored under a name is found there, and under every other name what was there before.
  -- The name has at most 15 characters.
  pub var_set-Found :
      (vars vars' : List Var)
      → length name < max_name
      → var_set name value vars ≡ some vars'
      → Found name value vars vars'
  unfolding var_set
  var_set-Found vars vars' short h = elim (Option-cases (var_find name vars)) [
    | inl (u, e) ↦
        let same : some (update_var name value vars) ≡ some vars' =
          sym (rw (e, var_set) refl) ∙ h in
        subst (Found name value vars) (some_inj.0 same) (Found-update vars u e)
    | inr e ↦
        let same : add_var name value vars ≡ some vars' = sym (rw (e, var_set) refl) ∙ h in
        Found-add vars vars' short e same
  ]

-- all places are used
abbrev pub Full : List Var → Type 0
Full [] = Unit
Full (v ∷ vars) = (v.used ≡ true) × Full vars

kept-none : (v : Var) (o : Option (List Var)) → kept v o ≡ none → o ≡ none
kept-none v none h = refl
kept-none v (some vs) h = absurd (ground (arith, h))

add_var-Full :
    (name : List ℕ) (value : ℕ) (vars : List Var) → add_var name value vars ≡ none → Full vars
unfolding add_var
add_var-Full name value [] h = tt
add_var-Full name value (v ∷ vars) h = elim (Bool-cases v.used) [
  | inl e ↦
      let same : kept v (add_var name value vars) ≡ none = sym (rw (e, add_var) refl) ∙ h in
      (e, add_var-Full name value vars (kept-none v (add_var name value vars) same))
  | inr e ↦ absurd (ground (arith, h, e))
]

-- A variable cannot be stored only if it is a new one and all places are used.
pub var_set-Full :
    (name : List ℕ) (value : ℕ) (vars : List Var)
    → var_set name value vars ≡ none
    → (var_find name vars ≡ none) × Full vars
unfolding var_set
var_set-Full name value vars h = elim (Option-cases (var_find name vars)) [
  | inl (u, e) ↦
      let same : some (update_var name value vars) ≡ none = sym (rw (e, var_set) refl) ∙ h in
      absurd (ground (arith, same))
  | inr e ↦
      let same : add_var name value vars ≡ none = sym (rw (e, var_set) refl) ∙ h in
      (e, add_var-Full name value vars same)
]
