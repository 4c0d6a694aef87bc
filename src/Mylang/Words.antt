-- ===== src/Mylang/Words.antt =====
-- How src/mlang.c takes a line apart: blanks, words and names.
use mykernel.Base.{
  ℕ, ◌<◌, ◌≡◌, ◌≢◌, refl, sym, ap, ◌∙◌, true, false, ◌||◌, none, some, List, [], ◌∷◌, ◌++◌, arith,
  ◌==◌, ==→eq, length, Bool-cases, Option-cases, inl, inr,
}
use mathlib.Core.Option.{some_inj}
use mykernel.Mylang.{max_name, peek, skip_ws, is_ident, is_ident_start, read_name}
use mykernel.Mylang.Command.{is_blank, behind, print_word, word_end, print_of}
use mykernel.Mylang.Texts.{Idents, Name}
use mykernel.Mylang.Expand.{Apart, read_name-all}

-- the text does not start with a blank
pub record Solid (s : List ℕ) : Type 0 where
  pub solid : is_blank (peek s) ≡ false

pub skip_ws-Solid : (s : List ℕ) → Solid s → skip_ws s ≡ s
unfolding skip_ws
skip_ws-Solid [] h = refl
skip_ws-Solid (c ∷ s) h = rw h.solid refl

pub Name-Solid : (x rest : List ℕ) → Name x → Solid (x ++ rest)
Name-Solid [] rest h = absurd (ground (arith, h.starts))
Name-Solid (c ∷ x) rest h = let start = h.starts in record { solid = ground (arith, start) }

-- a word is found only where the text starts with it
pub behind-prefix : (word p q : List ℕ) → behind word p ≡ some q → p ≡ word ++ q
unfolding behind
behind-prefix [] p q h = some_inj.0 h
behind-prefix (w ∷ word) [] q h = absurd (ground (arith, h))
behind-prefix (w ∷ word) (c ∷ p) q h = elim (Bool-cases (w == c)) [
  | inl e ↦
      let more : behind word p ≡ some q = sym (rw (e, behind) refl) ∙ h in
      rw (==→eq w c e) (ap (λ s. c ∷ s) (behind-prefix word p q more))
  | inr e ↦ absurd (ground (arith, h, e))
]

pub behind-append : (word q : List ℕ) → behind word (word ++ q) ≡ some q
unfolding behind
behind-append [] q = refl
behind-append (w ∷ word) q = rw (same w) (behind-append word q)
  where
    same : (w : ℕ) → (w == w) ≡ true
    same w = ground arith

print_letters : Idents print_word
print_letters = (refl, (refl, (refl, (refl, (refl, tt)))))

pub Name-peek : (x rest : List ℕ) → Name x → is_ident_start (peek (x ++ rest)) ≡ true
Name-peek [] rest h = absurd (ground (arith, h.starts))
Name-peek (c ∷ x) rest h = h.starts

-- a word of identifier characters is found in front of a name only if it is that name, or is not
-- ended there
pub behind-Name :
    (word x rest q : List ℕ)
    → Idents word
    → length word < max_name
    → Name x
    → x ≢ word
    → Apart rest
    → behind word (x ++ rest) ≡ some q
    → is_ident (peek q) ≡ true
behind-Name word x rest q w le h ne apart e = elim (Bool-cases (is_ident (peek q))) [
  | inl f ↦ f
  | inr f ↦
      let short = h.short in
      let here = read_name-all 15 x rest (omega arith) h.idents apart in
      let there = read_name-all 15 word q (omega arith) w f in
      let same = sym here ∙ ap (read_name 15) (behind-prefix word (x ++ rest) q e) ∙ there in
      absurd (ne (ap (λ r. r.0) same))
]

-- a name that is not `print` does not start a print
pub print_of-Name :
    (x rest : List ℕ) → Name x → x ≢ print_word → Apart rest → print_of (x ++ rest) ≡ none
print_of-Name x rest h ne apart = elim (Option-cases (behind print_word (x ++ rest))) [
  | inr e ↦ ap word_end e
  | inl (q, e) ↦
      let goes_on = behind-Name print_word x rest q print_letters (omega arith) h ne apart e in
      let ends : (is_blank (peek q) || peek q == 0) ≡ false = ground (arith, goes_on) in
      ap word_end e ∙ rw ends refl
]
