-- ===== src/Fat32/Shown.antt =====
-- Names in src/fat32.c: what is stored for a name is shown as that name in capital letters.
use mykernel.Base.{
  ℕ, zero, suc, ◌≤◌, ◌≡◌, ◌≢◌, refl, ap, ◌∙◌, false, List, [], ◌∷◌, ◌++◌, arith, ◌==◌, ne→==,
  if◌then◌else◌, map, take, drop, get_or, length, ltb, ◌-◌, ◌&&◌,
}
use mykernel.Fat32.Names.{upper, base_part, extension, padded, name_to_83, to_blank, name_from_83}

-- no blank and no dot
abbrev pub Letters : List ℕ → Type 0
Letters [] = Unit
Letters (c ∷ s) = (c ≢ b' ') × (c ≢ b'.') × Letters s

-- an extension with its dot, if there is one
abbrev pub dotted : List ℕ → List ℕ
dotted [] = []
dotted (c ∷ s) = b'.' ∷ c ∷ s

base_part-Letters :
    (n : ℕ) (s ext : List ℕ)
    → length s ≤ n
    → Letters s
    → base_part n (s ++ dotted ext) ≡ (map upper s, dotted ext)
unfolding base_part
base_part-Letters zero [] ext le h = refl
base_part-Letters zero (c ∷ s) ext le h = absurd (omega arith)
base_part-Letters (suc n) [] [] le h = refl
base_part-Letters (suc n) [] (c ∷ ext) le h = refl
base_part-Letters (suc n) (c ∷ s) ext le (blank, dot, rest) =
    rw (ne→== c b'.' dot)
      (ap (λ r. (upper c ∷ r.0, r.1)) (base_part-Letters n s ext (omega arith) rest))

upper_letter : (c : ℕ) → c ≢ b' ' → (upper c == b' ') ≡ false
upper_letter c h = ground arith

to_blank-padded :
    (n : ℕ) (s : List ℕ)
    → length s ≤ n
    → Letters s
    → to_blank (padded n (map upper s)) ≡ map upper s
to_blank-padded zero [] le h = refl
to_blank-padded zero (c ∷ s) le h = absurd (omega arith)
to_blank-padded (suc n) [] le h = refl
to_blank-padded (suc n) (c ∷ s) le (blank, dot, rest) =
    rw (upper_letter c blank) (ap (λ t. upper c ∷ t) (to_blank-padded n s (omega arith) rest))

take-padded : (n : ℕ) (s t : List ℕ) → take n (padded n s ++ t) ≡ padded n s
take-padded zero s t = refl
take-padded (suc n) [] t = ap (λ u. b' ' ∷ u) (take-padded n [] t)
take-padded (suc n) (c ∷ s) t = ap (λ u. c ∷ u) (take-padded n s t)

take-padded_all : (n : ℕ) (s : List ℕ) → take n (padded n s) ≡ padded n s
take-padded_all zero s = refl
take-padded_all (suc n) [] = ap (λ u. b' ' ∷ u) (take-padded_all n [])
take-padded_all (suc n) (c ∷ s) = ap (λ u. c ∷ u) (take-padded_all n s)

drop-padded : (n : ℕ) (s t : List ℕ) → drop n (padded n s ++ t) ≡ t
drop-padded zero s t = refl
drop-padded (suc n) [] t = drop-padded n [] t
drop-padded (suc n) (c ∷ s) t = drop-padded n s t

get_or-padded : (n : ℕ) (s t : List ℕ) (d : ℕ) → get_or (padded n s ++ t) n d ≡ get_or t 0 d
get_or-padded zero s t d = refl
get_or-padded (suc n) [] t d = get_or-padded n [] t d
get_or-padded (suc n) (c ∷ s) t d = get_or-padded n s t d

take-all : (n : ℕ) (s : List ℕ) → length s ≤ n → take n s ≡ s
take-all zero [] le = refl
take-all (suc n) [] le = refl
take-all zero (c ∷ s) le = absurd (omega arith)
take-all (suc n) (c ∷ s) le = ap (λ t. c ∷ t) (take-all n s (omega arith))

-- the name that is shown for a front part, the ninth character and what starts with it
abbrev shape : (front : List ℕ) (ninth : ℕ) (back : List ℕ) → List ℕ
shape front ninth back = front ++ (if ninth == b' ' then [] else b'.' ∷ to_blank (take 3 back))

-- what is shown for the two parts
shown_parts :
    (base ext : List ℕ)
    → length base ≤ 8
    → length ext ≤ 3
    → Letters base
    → Letters ext
    → name_from_83 (padded 8 (map upper base) ++ padded 3 (map upper ext))
      ≡ map upper base ++ dotted (map upper ext)
unfolding name_from_83
shown_parts base ext le le' h h' = by_extension ext le' h'
  where
    front : (t : List ℕ) → to_blank (take 8 (padded 8 (map upper base) ++ t)) ≡ map upper base
    front t = ap to_blank (take-padded 8 (map upper base) t) ∙ to_blank-padded 8 base le h

    by_extension :
        (ext : List ℕ)
        → length ext ≤ 3
        → Letters ext
        → name_from_83 (padded 8 (map upper base) ++ padded 3 (map upper ext))
          ≡ map upper base ++ dotted (map upper ext)
    by_extension [] le' h' =
        let t = padded 3 [] in
        let at_eight = get_or-padded 8 (map upper base) t b' ' in rw (at_eight, front t) refl
    by_extension (c ∷ ext) le' (blank, dot, rest) =
        let t = padded 3 (map upper (c ∷ ext)) in
        let s = padded 8 (map upper base) ++ t in
        let name = map upper base in
        let letter = upper_letter c blank in
        let whole =
          ap to_blank (take-padded_all 2 (map upper ext))
          ∙ to_blank-padded 2 ext (omega arith) rest in
        ap (λ f. shape f (get_or s 8 b' ') (drop 8 s)) (front t)
        ∙ ap (λ e. shape name e (drop 8 s)) (get_or-padded 8 name t b' ')
        ∙ ap (λ b. shape name (upper c) b) (drop-padded 8 name t)
        ∙ rw letter (ap (λ u. name ++ b'.' ∷ upper c ∷ u) whole)

-- the letters of ASCII from 97 to 122 have their capitals 32 below, and nothing else changes
abbrev pub capital : ℕ → ℕ
capital c = if ltb 96 c && ltb c 123 then c - 32 else c

upper-capital : (c : ℕ) → upper c ≡ capital c
upper-capital c = ground arith

map-capital : (s : List ℕ) → map upper s ≡ map capital s
map-capital [] = refl
map-capital (c ∷ s) = rw (upper-capital c) (ap (λ t. capital c ∷ t) (map-capital s))

extended : (ext : List ℕ) → length ext ≤ 3 → extension (dotted ext) ≡ map upper ext
extended [] le' = refl
extended (c ∷ ext) le' = ap (map upper) (take-all 3 (c ∷ ext) le')

-- A name is shown as it was given, with the letters `a` to `z` (97 to 122) as their capitals 32
-- below and all else unchanged: up to eight characters, and up to three behind a dot, none of them
-- a blank or another dot.
pub name_from_83-name_to_83 :
    (base ext : List ℕ)
    → length base ≤ 8
    → length ext ≤ 3
    → Letters base
    → Letters ext
    → name_from_83 (name_to_83 (base ++ dotted ext)) ≡ map capital base ++ dotted (map capital ext)
unfolding name_to_83
name_from_83-name_to_83 base ext le le' h h' =
    ap (λ r. name_from_83 (padded 8 r.0 ++ padded 3 (extension r.1)))
      (base_part-Letters 8 base ext le h)
    ∙ ap (λ e. name_from_83 (padded 8 (map upper base) ++ padded 3 e)) (extended ext le')
    ∙ shown_parts base ext le le' h h'
    ∙ ap (λ s. s ++ dotted (map upper ext)) (map-capital base)
    ∙ ap (λ s. map capital base ++ dotted s) (map-capital ext)
