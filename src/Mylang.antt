-- ===== src/Mylang.antt =====
-- src/mlang.c: MyLang, a language of lines. Its variables, and the evaluation of expressions.
-- Strings are the bytes before the NUL. A `long` is its 32-bit pattern, as in src/calc.c.
pub mod Command
pub mod Ends
pub mod Lines
pub mod Halts
pub mod Blocks
pub mod Terminates
pub mod Texts
pub mod Digits
pub mod Expand
pub mod Values
pub mod Table
pub mod Words
pub mod Commands
pub mod Programs
pub mod Meaning
pub mod Refines
mod Tests
pub mod Script
use mykernel.Base.{
  ℕ, zero, suc, ◌+◌, ◌-◌, ◌*◌, ◌/◌, ◌%◌, ◌^◌, Bool, true, false, ◌&&◌, ◌||◌, not, Option, none,
  some, List, [], ◌∷◌, ◌++◌, leb, ltb, ◌==◌, u32, if◌then◌else◌, length, take, replicate,
}
use mykernel.Calc.{Step, returns, traps, spent, calc_eval, is_negative}

abbrev max_vars : ℕ
max_vars = 32

abbrev pub max_name : ℕ
max_name = 16

abbrev pub max_line : ℕ
max_line = 128

abbrev pub max_lines : ℕ
max_lines = 64

-- `struct var`
pub record Var : Type 0 where
  pub name : List ℕ
  pub value : ℕ
  pub used : Bool

abbrev pub str_eq : List ℕ → List ℕ → Bool
str_eq [] [] = true
str_eq [] (b ∷ t) = false
str_eq (a ∷ s) [] = false
str_eq (a ∷ s) (b ∷ t) = if a == b then str_eq s t else false

-- at most `max - 1` characters
abbrev pub str_copy : List ℕ → ℕ → List ℕ
str_copy s max = take (max - 1) s

abbrev pub peek : List ℕ → ℕ
peek [] = 0
peek (c ∷ rest) = c

unfoldable pub skip_ws : List ℕ → List ℕ
skip_ws [] = []
skip_ws (c ∷ p) = let rest = skip_ws p in if c == b' ' || c == b'\t' then rest else c ∷ p

abbrev pub is_ident_start : ℕ → Bool
is_ident_start c = leb b'a' c && leb c b'z' || leb b'A' c && leb c b'Z' || c == b'_'

abbrev pub is_ident : ℕ → Bool
is_ident c = is_ident_start c || leb b'0' c && leb c b'9'

abbrev unused_var : Var
unused_var = record { name = []; value = 0; used = false }

-- the static array before the first use
abbrev pub no_vars : List Var
no_vars = replicate max_vars unused_var

abbrev pub mlang_reset : List Var → List Var
mlang_reset [] = []
mlang_reset (v ∷ vars) = record v { used = false } ∷ mlang_reset vars

abbrev pub holds : List ℕ → Var → Bool
holds name v = v.used && str_eq v.name name

-- the value of the variable
unfoldable pub var_find : List ℕ → List Var → Option ℕ
var_find name [] = none
var_find name (v ∷ vars) =
    let later = var_find name vars in if holds name v then some v.value else later

-- `v->value = value` for the variable that `var_find` finds
unfoldable pub update_var : (name : List ℕ) (value : ℕ) → List Var → List Var
update_var name value [] = []
update_var name value (v ∷ vars) =
    let later = update_var name value vars in
    if holds name v then record v { value = value } ∷ vars else v ∷ later

abbrev pub kept : Var → Option (List Var) → Option (List Var)
kept v none = none
kept v (some vars) = some (v ∷ vars)

-- the first place that is not used
unfoldable pub add_var : (name : List ℕ) (value : ℕ) → List Var → Option (List Var)
add_var name value [] = none
add_var name value (v ∷ vars) =
    let later = add_var name value vars in
    if v.used
    then kept v later
    else some (record { name = str_copy name max_name; value = value; used = true } ∷ vars)

-- There is none when all places are used.
unfoldable pub var_set : (name : List ℕ) (value : ℕ) → List Var → Option (List Var)
var_set name value vars = elim (var_find name vars) [
  | some _ ↦ some (update_var name value vars)
  | none ↦ add_var name value vars
]

-- The characters of an identifier up to the size of `name`, and the rest.
unfoldable pub read_name : (room : ℕ) → List ℕ → List ℕ × List ℕ
read_name zero p = ([], p)
read_name (suc room) [] = ([], [])
read_name (suc room) (c ∷ p) =
    let more = read_name room p in if is_ident c then (c ∷ more.0, more.1) else ([], c ∷ p)

-- `out[o++] = c` for each character, with the test before it
unfoldable pub put_all : (out_sz : ℕ) (cs out : List ℕ) → Option (List ℕ)
put_all out_sz [] out = some out
put_all out_sz (c ∷ cs) out =
    let more = put_all out_sz cs (out ++ c ∷ []) in
    if leb out_sz (length out + 1) then none else more

-- The loop that fills `tmp` from the last digit on.
unfoldable pub fill_tmp : (ti : ℕ) (u : ℕ) (tmp : List ℕ) → List ℕ
fill_tmp zero u tmp = tmp
fill_tmp (suc ti) u tmp =
    let more = fill_tmp ti (u / 10) ((b'0' + u % 10) ∷ tmp) in if u == 0 then tmp else more

abbrev pub digits : (ti u : ℕ) → List ℕ
digits ti u = if u == 0 then b'0' ∷ [] else fill_tmp ti u []

-- The magnitude of a negative value is `(unsigned long)(-(val + 1)) + 1`.
abbrev pub written : ℕ → List ℕ
written val = if is_negative val then b'-' ∷ digits 20 (2 ^ 32 - val) else digits 20 val

abbrev pub value_of : List ℕ → List Var → ℕ
value_of name vars = elim (var_find name vars) [ some v ↦ v | none ↦ 0 ]

-- What the expansion gives: the text, no room for it, or its fuel is spent.
pub data Expansion : Type 0 where
  text : List ℕ → Expansion
  no_room : Expansion
  unfinished : Expansion

-- a round of the loop put what it puts: how the loop goes on
abbrev pub grown : Option (List ℕ) → (List ℕ → Expansion) → Expansion
grown none loop = no_room
grown (some out) loop = loop out

-- One unit of fuel for each round.
unfoldable pub expand_loop : (fuel : ℕ) → List Var → (out_sz : ℕ) (p out : List ℕ) → Expansion
expand_loop zero vars out_sz p out = unfinished
expand_loop (suc n) vars out_sz [] out = text out
expand_loop (suc n) vars out_sz (c ∷ p) out = elim (is_ident_start c) [
  | true ↦
      let r = read_name (max_name - 1) (c ∷ p) in
      grown (put_all out_sz (written (value_of r.0 vars)) out) (expand_loop n vars out_sz r.1)
  | false ↦ grown (put_all out_sz (c ∷ []) out) (expand_loop n vars out_sz p)
]

unfoldable pub expand_expr : List Var → (expr : List ℕ) (out_sz : ℕ) → Expansion
expand_expr vars expr out_sz = expand_loop (length expr + 1) vars out_sz expr []

-- What the evaluation gives: a value, the code -1, or the exception of the processor.
pub data Value : Type 0 where
  value_is : ℕ → Value
  bad : Value
  exception : Value
  endless : Value

abbrev pub checked : Step → Value
checked (returns v pr) = if pr.error then bad else value_is v
checked traps = exception
checked spent = endless

abbrev pub calculated : Expansion → Value
calculated (text buf) = checked (calc_eval buf)
calculated no_room = bad
calculated unfinished = endless

unfoldable pub eval_expr : List Var → List ℕ → Value
eval_expr vars expr = calculated (expand_expr vars expr 128)
