-- ===== src/Base/Text.antt =====
-- Texts as Go reads them, byte by byte: what the sources use of strings and strconv. The letters and
-- blanks are those of ASCII.
use Prim.Native.Nat.{ℕ, zero, suc, ◌+◌, ◌-◌, ◌*◌, ◌/◌, ◌%◌}
use Prim.Native.String.{String}
use Prim.Native.Char.{code}
use mathlib.Core.Path.{◌≡◌, refl}
use mathlib.Core.Bool.{Bool, true, false, ◌&&◌, ◌||◌}
use mathlib.Core.List.{List, [], ◌∷◌, ◌++◌}
use mathlib.Core.Option.{Option, none, some}
use native.Mathlib.Omega.{arith}
use honeytrap.Base.Tests.{leb, ltb, ◌==◌, if◌then◌else◌}

abbrev pub Text : Type 0
Text = List ℕ

abbrev pub codes : String → Text
codes String.[] = []
codes (String.◌∷◌ c s) = code c ∷ codes s

abbrev pub is_empty : Text → Bool
is_empty [] = true
is_empty (x ∷ xs) = false

unfoldable pub text_eq : Text → Text → Bool
text_eq [] [] = true
text_eq (x ∷ xs) (y ∷ ys) = x == y && text_eq xs ys
text_eq _ _ = false

pub eq_of_text_eq : (xs ys : Text) → text_eq xs ys ≡ true → xs ≡ ys
unfolding text_eq
eq_of_text_eq [] [] h = refl
eq_of_text_eq [] (y ∷ ys) h = absurd (ground arith)
eq_of_text_eq (x ∷ xs) [] h = absurd (ground arith)
eq_of_text_eq (x ∷ xs) (y ∷ ys) h = ground (arith, eq_of_text_eq xs ys)

abbrev upper_code : ℕ → ℕ
upper_code c = if leb 97 c && leb c 122 then c - 32 else c

-- `strings.ToUpper`.
unfoldable pub to_upper : Text → Text
to_upper [] = []
to_upper (c ∷ s) = upper_code c ∷ to_upper s

-- `strings.TrimLeft`, by a test for the characters of the cutset, and `strings.Trim`.
unfoldable pub trim_left : (ℕ → Bool) → Text → Text
trim_left test [] = []
trim_left test (c ∷ s) = let rest = trim_left test s in if test c then rest else c ∷ s

unfoldable pub trim_right : (ℕ → Bool) → Text → Text
trim_right test [] = []
trim_right test (c ∷ s) =
    let rest = trim_right test s in if is_empty rest && test c then [] else c ∷ rest

unfoldable pub trim : (ℕ → Bool) → Text → Text
unfolding trim_left trim_right
trim test s = trim_right test (trim_left test s)

abbrev pub is_line_end : ℕ → Bool
is_line_end c = c == 13 || c == 10

abbrev pub is_blank : ℕ → Bool
is_blank c = c == 32 || leb 9 c && leb c 13

-- `strings.SplitN(s, sep, 2)`: what stands before the first separator, and what stands behind it.
unfoldable pub split_once : ℕ → Text → Text × Option Text
split_once sep [] = ([], none)
split_once sep (c ∷ s) =
    let rest = split_once sep s in if c == sep then ([], some s) else (c ∷ rest.0, rest.1)

abbrev pub on_head : ℕ → List Text → List Text
on_head c [] = (c ∷ []) ∷ []
on_head c (p ∷ ps) = (c ∷ p) ∷ ps

-- `strings.Split(s, sep)`.
unfoldable pub split : ℕ → Text → List Text
split sep [] = [] ∷ []
split sep (c ∷ s) = let rest = split sep s in if c == sep then [] ∷ rest else on_head c rest

abbrev keep_full : List Text → List Text
keep_full [] = []
keep_full ([] ∷ ps) = keep_full ps
keep_full ((c ∷ p) ∷ ps) = (c ∷ p) ∷ keep_full ps

abbrev blank_to_space : Text → Text
blank_to_space [] = []
blank_to_space (c ∷ s) = (if is_blank c then 32 else c) ∷ blank_to_space s

-- `strings.Fields`.
unfoldable pub fields : Text → List Text
unfolding split
fields s = keep_full (split 32 (blank_to_space s))

-- `strings.LastIndex(s, sep)` for one byte.
unfoldable pub last_index : ℕ → Text → Option ℕ
last_index sep [] = none
last_index sep (c ∷ s) = elim (last_index sep s) [
  | some n ↦ some (suc n)
  | none ↦ if c == sep then some 0 else none
]

-- An int is held as its 64 bits. `strconv.Itoa`.
abbrev pub int_bound : ℕ
int_bound = 18446744073709551616

abbrev pub int_half : ℕ
int_half = 9223372036854775808

unfoldable pub digits_of : ℕ → ℕ → Text
digits_of zero n = []
digits_of (suc fuel) n =
    let rest = digits_of fuel (n / 10) in
    if ltb n 10 then (48 + n) ∷ [] else rest ++ ((48 + n % 10) ∷ [])

unfoldable pub itoa : ℕ → Text
unfolding digits_of
itoa n = if ltb n int_half then digits_of 20 n else 45 ∷ digits_of 20 (int_bound - n)

-- The digits of a number, most significant first; `none` at any other character.
unfoldable pub read_digits : ℕ → Text → Option ℕ
read_digits acc [] = some acc
read_digits acc (c ∷ s) =
    let rest = read_digits (acc * 10 + (c - 48)) s in if leb 48 c && leb c 57 then rest else none

abbrev unsigned : Text → Option ℕ
unsigned [] = none
unsigned (c ∷ s) = read_digits 0 (c ∷ s)

-- `strconv.ParseInt(s, 10, 64)` and `strconv.Atoi`: the value, which is 0 beside a syntax error and
-- the nearest int beside a range error, and whether there is no error.
abbrev positive : Option ℕ → ℕ × Bool
positive none = (0, false)
positive (some n) = if ltb n int_half then (n, true) else (int_half - 1, false)

abbrev negative : Option ℕ → ℕ × Bool
negative none = (0, false)
negative (some n) =
    if leb n int_half then ((int_bound - n) % int_bound, true) else (int_half, false)

unfoldable pub parse_int : Text → ℕ × Bool
unfolding read_digits
parse_int [] = (0, false)
parse_int (c ∷ s) =
    if c == 45
    then negative (unsigned s)
    else if c == 43
    then positive (unsigned s)
    else positive (unsigned (c ∷ s))
