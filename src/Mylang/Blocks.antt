-- ===== src/Mylang/Blocks.antt =====
-- The blocks of src/mlang.c: the lines up to the matching `end`, and the lines behind it.
use mykernel.Base.{
  ℕ, zero, suc, ◌+◌, ◌<◌, ◌≤◌, Option, none, some, List, [], ◌∷◌, arith, length, Bool-cases, inl,
  inr,
}
use mykernel.Mylang.{str_eq, skip_ws}
use mykernel.Mylang.Script.{end_word, opens, closed, consed, matching_end}
use mykernel.Mylang.Lines.{Line, Lines}

-- both parts are lines, and together fewer than `k`
abbrev pub Fits : ℕ → Option (List (List ℕ) × List (List ℕ)) → Type 0
Fits k none = Unit
Fits k (some (body, after)) = (length body + length after < k) × Lines body × Lines after

pub record Fitting (k : ℕ) (o : Option (List (List ℕ) × List (List ℕ))) : Type 0 where
  pub fits : Fits k o

consed-Fitting :
    (k : ℕ) (line : List ℕ) (o : Option (List (List ℕ) × List (List ℕ)))
    → Line line
    → Fitting k o
    → Fitting (suc k) (consed line o)
consed-Fitting k line none h f = record { fits = tt }
consed-Fitting k line (some (body, after)) h f =
    let (few, bodies, afters) = f.fits in record { fits = (omega arith, (h, bodies), afters) }

closed-Fitting :
    (depth k : ℕ) (line : List ℕ) (lines : List (List ℕ))
    (loop : ℕ → Option (List (List ℕ) × List (List ℕ)))
    → length lines ≤ k
    → Lines (line ∷ lines)
    → ((d : ℕ) → Fitting k (loop d))
    → Fitting (suc k) (closed depth line lines loop)
closed-Fitting zero k line lines loop le h g = record { fits = (omega arith, tt, h.1) }
closed-Fitting (suc d) k line lines loop le h g = consed-Fitting k line (loop d) h.0 (g d)

pub matching_end-Fitting :
    (depth : ℕ) (lines : List (List ℕ))
    → Lines lines
    → Fitting (length lines) (matching_end depth lines)
unfolding matching_end
matching_end-Fitting depth [] h = record { fits = tt }
matching_end-Fitting depth (line ∷ lines) h =
    let t = skip_ws line in
    let k = length lines in
    let deeper = matching_end-Fitting (suc depth) lines h.1 in
    let same = matching_end-Fitting depth lines h.1 in
    elim (Bool-cases (opens t)) [
      | inl e ↦
          rw (e, matching_end) (consed-Fitting k line (matching_end (suc depth) lines) h.0 deeper)
      | inr e ↦ elim (Bool-cases (str_eq t end_word)) [
        | inl ended ↦
            rw (e, ended, matching_end)
              (closed-Fitting depth k line lines (λ d. matching_end d lines) (omega arith) h
                (λ d. matching_end-Fitting d lines h.1))
        | inr other ↦
            rw (e, other, matching_end) (consed-Fitting k line (matching_end depth lines) h.0 same)
      ]
    ]

pub Fitting-le :
    {k m : ℕ} (o : Option (List (List ℕ) × List (List ℕ))) → k ≤ m → Fitting k o → Fitting m o
Fitting-le none le f = record { fits = tt }
Fitting-le (some (body, after)) le f =
    let (few, bodies, afters) = f.fits in record { fits = (omega arith, bodies, afters) }
