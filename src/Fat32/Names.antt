-- ===== src/Fat32/Names.antt =====
-- src/fat32.c: names of eight characters and three.
use mykernel.Base.{
  ℕ, zero, suc, ◌-◌, Bool, true, false, ◌&&◌, List, [], ◌∷◌, ◌++◌, leb, ◌==◌, if◌then◌else◌, map,
  take, drop, get_or,
}

abbrev pub upper : ℕ → ℕ
upper c = if leb b'a' c && leb c b'z' then c - 32 else c

-- The characters before a dot, at most `n`, and the rest.
unfoldable pub base_part : (n : ℕ) → List ℕ → List ℕ × List ℕ
base_part zero s = ([], s)
base_part (suc n) [] = ([], [])
base_part (suc n) (c ∷ s) =
    let more = base_part n s in if c == b'.' then ([], c ∷ s) else (upper c ∷ more.0, more.1)

-- at most three characters behind a dot
abbrev pub extension : List ℕ → List ℕ
extension [] = []
extension (c ∷ s) = if c == b'.' then map upper (take 3 s) else []

-- `n` characters, with blanks at the end
abbrev pub padded : (n : ℕ) → List ℕ → List ℕ
padded zero s = []
padded (suc n) [] = b' ' ∷ padded n []
padded (suc n) (c ∷ s) = c ∷ padded n s

unfoldable pub name_to_83 : List ℕ → List ℕ
name_to_83 name = let r = base_part 8 name in padded 8 r.0 ++ padded 3 (extension r.1)

abbrev pub to_blank : List ℕ → List ℕ
to_blank [] = []
to_blank (c ∷ s) = if c == b' ' then [] else c ∷ to_blank s

-- the name that is shown for the eleven characters of an entry
unfoldable pub name_from_83 : List ℕ → List ℕ
name_from_83 s =
    to_blank (take 8 s)
    ++ (if get_or s 8 b' ' == b' ' then [] else b'.' ∷ to_blank (take 3 (drop 8 s)))

abbrev pub same_name : List ℕ → List ℕ → Bool
same_name [] [] = true
same_name [] (b ∷ t) = false
same_name (a ∷ s) [] = false
same_name (a ∷ s) (b ∷ t) = if a == b then same_name s t else false
