-- ===== src/Mylang/Terminates.antt =====
-- Every script of src/mlang.c ends.
use mykernel.Base.{
  ℕ, zero, suc, ◌≤◌, refl, sym, ◌≢◌, Bool, true, false, Option, none, some, List, [], ◌∷◌, arith,
  length, Bool-cases, inl, inr,
}
use mathlib.Core.Path.{subst}
use mykernel.Mylang.{max_lines, str_eq, skip_ws}
use mykernel.Mylang.Command.{Mlang, Run, then_run, is_empty, mlang_exec_line}
use mykernel.Mylang.Script.{
  Test, result, bad_test, exception_test, endless_test, eval_condition, if_word, while_word,
  end_word, keyword, while_tested, if_block, if_tested, while_block, block_at, nested, matching_end,
  split_lines, run_lines, run_while, run_body, run_script, mlang_exec_script,
}
use mykernel.Mylang.Halts.{
  Complete, then_run-Complete, mlang_exec_line-Complete, eval_condition-Ends,
}
use mykernel.Mylang.Blocks.{Fitting, Fitting-le, matching_end-Fitting}
use mykernel.Mylang.Lines.{Lines, split_lines-join_lines, split_lines-Lines, length-split_lines}

run_lines-Complete : (lines : List (List ℕ)) (st : Mlang) → Complete (run_lines lines st)
unfolding run_lines
run_lines-Complete [] st = record { ends = tt }
run_lines-Complete (line ∷ lines) st =
    then_run-Complete (mlang_exec_line line st) (run_lines lines) (mlang_exec_line-Complete line st)
      (run_lines-Complete lines)

while_tested-Complete :
    (round : Mlang → Run) (t : Test) (st : Mlang)
    → t ≢ endless_test
    → Complete (round st)
    → Complete (while_tested round t st)
while_tested-Complete round (result true) st h g = g
while_tested-Complete round (result false) st h g = record { ends = tt }
while_tested-Complete round bad_test st h g = record { ends = tt }
while_tested-Complete round exception_test st h g = record { ends = tt }
while_tested-Complete round endless_test st h g = absurd (h refl)

run_while-Complete :
    (iter : ℕ) (cond : List ℕ) (body : List (List ℕ)) (st : Mlang)
    → Complete (run_while iter cond body st)
unfolding run_while
run_while-Complete zero cond body st = record { ends = tt }
run_while-Complete (suc iter) cond body st =
    while_tested-Complete (λ st'. then_run (run_lines body st') (run_while iter cond body))
      (eval_condition st.vars cond) st (eval_condition-Ends st.vars cond)
      (then_run-Complete (run_lines body st) (run_while iter cond body) (run_lines-Complete body st)
        (run_while-Complete iter cond body))

-- scripts of at most `n` lines end
record ScriptsEnd (n : ℕ) (script : List (List ℕ) → Mlang → Run) : Type 0 where
  ends :
      (lines : List (List ℕ)) (st : Mlang)
      → Lines lines
      → length lines ≤ n
      → Complete (script lines st)

run_body-Complete :
    (n : ℕ) (script : List (List ℕ) → Mlang → Run) (lines : List (List ℕ)) (st : Mlang)
    → ScriptsEnd n script
    → n ≤ 63
    → Lines lines
    → length lines ≤ n
    → Complete (run_body (λ sub. script (split_lines max_lines sub)) lines st)
unfolding run_body
run_body-Complete n script [] st h small fits le = record { ends = tt }
run_body-Complete n script (line ∷ lines) st h small fits le =
    elim (Bool-cases (nested (skip_ws line))) [
      | inl e ↦
          let whole = split_lines-join_lines (line ∷ lines) fits (omega arith) in
          rw (e, run_body)
            (subst (λ ls. Complete (script ls st)) (sym whole) (h.ends (line ∷ lines) st fits le))
      | inr e ↦
          rw (e, run_body)
            (then_run-Complete (mlang_exec_line line st)
              (run_body (λ sub. script (split_lines max_lines sub)) lines)
              (mlang_exec_line-Complete line st)
              (λ st'. run_body-Complete n script lines st' h small fits.1 (omega arith)))
    ]

-- A line or a block, when the scripts of the lines behind it end.
module _ (n : ℕ) (script : List (List ℕ) → Mlang → Run) (shorter : ScriptsEnd n script)
    (small : n ≤ 63) where
  if_block-Complete :
      (c : Bool) (o : Option (List (List ℕ) × List (List ℕ))) (st : Mlang)
      → Fitting (suc n) o
      → Complete (if_block script c o st)
  if_block-Complete c none st f = record { ends = tt }
  if_block-Complete true (some (body, after)) st f =
      let (few, bodies, afters) = f.fits in
      then_run-Complete (run_body (λ sub. script (split_lines max_lines sub)) body st)
        (script after) (run_body-Complete n script body st shorter small bodies (omega arith))
        (λ st'. shorter.ends after st' afters (omega arith))
  if_block-Complete false (some (body, after)) st f =
      let (few, bodies, afters) = f.fits in shorter.ends after st afters (omega arith)

  if_tested-Complete :
      (t : Test) (o : Option (List (List ℕ) × List (List ℕ))) (st : Mlang)
      → t ≢ endless_test
      → Fitting (suc n) o
      → Complete (if_tested script t o st)
  if_tested-Complete (result c) o st h f = if_block-Complete c o st f
  if_tested-Complete bad_test o st h f = record { ends = tt }
  if_tested-Complete exception_test o st h f = record { ends = tt }
  if_tested-Complete endless_test o st h f = absurd (h refl)

  while_block-Complete :
      (cond : List ℕ) (o : Option (List (List ℕ) × List (List ℕ))) (st : Mlang)
      → Fitting (suc n) o
      → Complete (while_block script cond o st)
  while_block-Complete cond none st f = record { ends = tt }
  while_block-Complete cond (some (body, after)) st f =
      let (few, bodies, afters) = f.fits in
      then_run-Complete (run_while 10000 cond body st) (script after)
        (run_while-Complete 10000 cond body st) (λ st'. shorter.ends after st' afters (omega arith))

  block_at-Complete :
      (line : List ℕ) (lines : List (List ℕ)) (i w : Option (List ℕ)) (st : Mlang)
      → Lines lines
      → length lines ≤ n
      → Complete (block_at script line lines i w st)
  block_at-Complete line lines (some cond) w st fits le =
      if_tested-Complete (eval_condition st.vars (skip_ws cond)) (matching_end 0 lines) st
        (eval_condition-Ends st.vars (skip_ws cond))
        (Fitting-le (matching_end 0 lines) (omega arith) (matching_end-Fitting 0 lines fits))
  block_at-Complete line lines none (some cond) st fits le =
      while_block-Complete (skip_ws cond) (matching_end 0 lines) st
        (Fitting-le (matching_end 0 lines) (omega arith) (matching_end-Fitting 0 lines fits))
  block_at-Complete line lines none none st fits le =
      then_run-Complete (mlang_exec_line line st) (script lines) (mlang_exec_line-Complete line st)
        (λ st'. shorter.ends lines st' fits le)

-- The fuel that is enough for `n` lines is one more than `n`.
all_scripts : (n : ℕ) → n ≤ 64 → ScriptsEnd n (run_script (suc n))
unfolding run_script
all_scripts n small = record { ends = ends n small }
  where
    ends :
        (n : ℕ)
        → n ≤ 64
        → (lines : List (List ℕ)) (st : Mlang) → Lines lines
        → length lines ≤ n
        → Complete (run_script (suc n) lines st)
    ends n small [] st fits le = record { ends = tt }
    ends zero small (line ∷ lines) st fits le = absurd (omega arith)
    ends (suc n) small (line ∷ lines) st fits le =
        let p = skip_ws line in
        let shorter : ScriptsEnd n (run_script (suc n)) = record { ends = ends n (omega arith) } in
        elim (Bool-cases (is_empty p)) [
          | inl e ↦ rw (e, run_script) (shorter.ends lines st fits.1 (omega arith))
          | inr e ↦ elim (Bool-cases (str_eq p end_word)) [
            | inl ended ↦ rw (e, ended, run_script) (record { ends = tt })
            | inr other ↦
                rw (e, other, run_script)
                  (block_at-Complete n (run_script (suc n)) shorter (omega arith) line lines
                    (keyword if_word p) (keyword while_word p) st fits.1 (omega arith))
          ]
        ]

-- A script ends, whatever its text is: the fuel, one more than the most lines, is enough.
pub mlang_exec_script-Complete : (text : List ℕ) (st : Mlang) → Complete (mlang_exec_script text st)
unfolding mlang_exec_script
mlang_exec_script-Complete text st =
    let short = length-split_lines max_lines text in
    (all_scripts max_lines (omega arith)).ends (split_lines max_lines text) st
      (split_lines-Lines max_lines text) short
