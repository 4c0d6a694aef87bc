-- ===== src/Mylang/Refines.antt =====
-- The interpreter of src/mlang.c runs programs of nested blocks as their trees say.
use mykernel.Base.{
  ℕ, zero, suc, ◌+◌, ◌<◌, ◌≤◌, ◌≡◌, refl, sym, ap, ◌∙◌, true, false, ◌||◌, Option, none, some, List,
  [], ◌∷◌, ◌++◌, arith, length, length-append, Bool-cases, inl, inr,
}
use mykernel.Mylang.{max_lines, peek, skip_ws}
use mykernel.Mylang.Command.{behind, is_blank, is_empty, Mlang, done, then_run, mlang_exec_line}
use mykernel.Mylang.Script.{
  Test, result, bad_test, exception_test, endless_test, eval_condition, if_word, while_word,
  end_word, keyword, is_some, blank_end, nested, matching_end, split_lines, run_body, run_while,
  if_tested, while_block, block_at, run_script, mlang_exec_script,
}
use mykernel.Mylang.Lines.{Lines, flat, split_lines-flat}
use mykernel.Mylang.Words.{skip_ws-Solid}
use mykernel.Mylang.Programs.{
  simple, choice, loop, Block, empty, ◌⨾◌, block_lines, chosen, exec, Plain, WellFormed,
  WellFormeds,
}
use mykernel.Mylang.Meaning.{
  then_run-ext, Lines-append, found_block, block-matching_end, skip_body, Meant, run_body-exec,
}

plain_keywords :
    (t : List ℕ) → nested t ≡ false → (keyword if_word t ≡ none) × (keyword while_word t ≡ none)
plain_keywords t h = by_words (behind if_word t) (behind while_word t) h
  where
    by_words :
        (i w : Option (List ℕ))
        → (is_some (blank_end i) || is_some w) ≡ false
        → (blank_end i ≡ none) × (blank_end w ≡ none)
    by_words i (some q) h = absurd (ground (arith, h))
    by_words none none h = (refl, refl)
    by_words (some p) none h = elim (Bool-cases (is_blank (peek p))) [
      | inl e ↦
          let yes : (is_some (blank_end (some p)) || false) ≡ true = rw e refl in
          absurd (ground (arith, h, yes))
      | inr e ↦ (rw e refl, refl)
    ]

empty_line :
    (line : List ℕ) (st : Mlang)
    → is_empty (skip_ws line) ≡ true
    → mlang_exec_line line st ≡ done st
unfolding mlang_exec_line
empty_line line st h = rw h refl

module _ (n : ℕ) where
  simple-exec :
      (line : List ℕ) (b : Block) (st : Mlang)
      → Plain line
      → ((st' : Mlang) → run_script n (block_lines b) st' ≡ exec b st')
      → run_script (suc n) (line ∷ block_lines b) st ≡ exec (simple line ⨾ b) st
  unfolding run_script
  simple-exec line b st h later = elim (Bool-cases (is_empty (skip_ws line))) [
    | inl e ↦
        rw (e, run_script) (later st) ∙ sym (ap (λ r. then_run r (exec b)) (empty_line line st e))
    | inr e ↦
        let (no_if, no_while) = plain_keywords (skip_ws line) h.opens_none in
        rw (e, h.closes_none, run_script)
          (ap
              (λ i.
                block_at (run_script n) line (block_lines b) i (keyword while_word (skip_ws line))
                  st)
              no_if
            ∙ ap (λ w. block_at (run_script n) line (block_lines b) none w st) no_while
            ∙ then_run-ext (mlang_exec_line line st) (run_script n (block_lines b)) (exec b) later)
  ]

  if_tested-exec :
      (t : Test) (body b : Block) (st : Mlang)
      → ((st' : Mlang)
          → run_body (λ sub. run_script n (split_lines max_lines sub)) (block_lines body) st'
            ≡ exec body st')
      → ((st' : Mlang) → run_script n (block_lines b) st' ≡ exec b st')
      → if_tested (run_script n) t (some (block_lines body, block_lines b)) st
        ≡ then_run (chosen t (exec body) st) (exec b)
  if_tested-exec (result true) body b st inner later =
      ap (λ r. then_run r (run_script n (block_lines b))) (inner st)
      ∙ then_run-ext (exec body st) (run_script n (block_lines b)) (exec b) later
  if_tested-exec (result false) body b st inner later = later st
  if_tested-exec bad_test body b st inner later = refl
  if_tested-exec exception_test body b st inner later = refl
  if_tested-exec endless_test body b st inner later = refl

  choice-exec :
      (cond : List ℕ) (body b : Block) (st : Mlang)
      → WellFormed (choice cond body)
      → ((st' : Mlang)
          → run_body (λ sub. run_script n (split_lines max_lines sub)) (block_lines body) st'
            ≡ exec body st')
      → ((st' : Mlang) → run_script n (block_lines b) st' ≡ exec b st')
      → run_script (suc n) (block_lines (choice cond body ⨾ b)) st ≡ exec (choice cond body ⨾ b) st
  unfolding run_script skip_ws behind
  choice-exec cond body b st h inner later =
      let lines = (block_lines body ++ end_word ∷ []) ++ block_lines b in
      ap (λ c. if_tested (run_script n) (eval_condition st.vars c) (matching_end 0 lines) st)
        (skip_ws-Solid cond h.0)
      ∙ ap (λ o. if_tested (run_script n) (eval_condition st.vars cond) o st)
          (found_block (block_lines body) (block_lines b) (block-matching_end body h.1))
      ∙ if_tested-exec (eval_condition st.vars cond) body b st inner later

  loop-exec :
      (cond : List ℕ) (body : List (List ℕ)) (b : Block) (st : Mlang)
      → WellFormed (loop cond body)
      → ((st' : Mlang) → run_script n (block_lines b) st' ≡ exec b st')
      → run_script (suc n) (block_lines (loop cond body ⨾ b)) st ≡ exec (loop cond body ⨾ b) st
  unfolding run_script skip_ws behind
  loop-exec cond body b st h later =
      let lines = (body ++ end_word ∷ []) ++ block_lines b in
      ap (λ c. while_block (run_script n) c (matching_end 0 lines) st) (skip_ws-Solid cond h.0)
      ∙ ap (λ o. while_block (run_script n) cond o st)
          (found_block body (block_lines b) (λ d after. skip_body d body after h.1))
      ∙ then_run-ext (run_while 10000 cond body st) (run_script n (block_lines b)) (exec b) later

-- One unit of fuel more than there are lines is enough.
run_script-exec :
    (n : ℕ)
    → n ≤ 65
    → (b : Block) (st : Mlang) → WellFormeds b
    → Lines (block_lines b)
    → length (block_lines b) < n
    → run_script n (block_lines b) st ≡ exec b st
unfolding run_script
run_script-exec zero small b st h lines few = absurd (omega arith)
run_script-exec (suc n) small empty st h lines few = refl
run_script-exec (suc n) small (simple line ⨾ b) st h lines few =
    simple-exec n line b st h.0
      (λ st'. run_script-exec n (omega arith) b st' h.1 lines.1 (omega arith))
run_script-exec (suc n) small (choice cond body ⨾ b) st h lines few =
    let meant : Meant n (run_script n) = record { means = run_script-exec n (omega arith) } in
    let inner = block_lines body in
    let parts = length-append (inner ++ end_word ∷ []) (block_lines b) in
    let closed = length-append inner (end_word ∷ []) in
    let (first, rest) = Lines-append (inner ++ end_word ∷ []) (block_lines b) lines.1 in
    let (inside, last) = Lines-append inner (end_word ∷ []) first in
    choice-exec n cond body b st h.0
      (λ st'.
        run_body-exec n (run_script n) meant (omega arith) body st' h.0.1 inside (omega arith))
      (λ st'. run_script-exec n (omega arith) b st' h.1 rest (omega arith))
run_script-exec (suc n) small (loop cond body ⨾ b) st h lines few =
    let parts = length-append (body ++ end_word ∷ []) (block_lines b) in
    let (first, rest) = Lines-append (body ++ end_word ∷ []) (block_lines b) lines.1 in
    loop-exec n cond body b st h.0
      (λ st'. run_script-exec n (omega arith) b st' h.1 rest (omega arith))

-- The text of a program runs as the tree of its statements says: the body of an if runs, with the
-- blocks nested in it, exactly when its condition holds, a failure ends everything, and the program
-- goes on behind the matching `end`. The program has at most 64 lines of at most 127 characters, no
-- block in the body of a while, and no other line that opens or ends a block.
pub mlang_exec_script-exec :
    (b : Block) (st : Mlang)
    → WellFormeds b
    → Lines (block_lines b)
    → length (block_lines b) ≤ max_lines
    → mlang_exec_script (flat (block_lines b)) st ≡ exec b st
unfolding mlang_exec_script
mlang_exec_script-exec b st h lines few =
    ap (λ ls. run_script (max_lines + 1) ls st)
      (split_lines-flat max_lines (block_lines b) few lines)
    ∙ run_script-exec (max_lines + 1) (omega arith) b st h lines (omega arith)
