-- ===== src/Base/Lines.antt =====
-- Lines as bufio and net/textproto read them from a stream of bytes, and the dot-encoded blocks of
-- net/textproto.
use Prim.Native.Nat.{ℕ, ◌≤◌, ◌<◌}
use mathlib.Core.Path.{◌≡◌, refl, sym, ap, ◌∙◌}
use mathlib.Core.Logic.{inl, inr}
use mathlib.Core.Bool.{Bool, true, false}
use mathlib.Core.List.{List, [], ◌∷◌, ◌++◌, append_assoc}
use mathlib.Core.Option.{Option, none, some}
use native.Mathlib.Omega.{arith}
use honeytrap.Base.Tests.{◌==◌, if◌then◌else◌, Bool-cases}
use honeytrap.Base.Lists.{length}
use honeytrap.Base.Bytes.{All}
use honeytrap.Base.Text.{Text}

-- What stands in front of the first line feed, whether there is one, and what stands behind it.
unfoldable pub split_line : Text → Text × Bool × Text
split_line [] = ([], false, [])
split_line (c ∷ s) =
    let rest = split_line s in if c == 10 then ([], true, s) else (c ∷ rest.0, rest.1, rest.2)

unfoldable pub drop_cr : Text → Text
drop_cr [] = []
drop_cr (c ∷ []) = if c == 13 then [] else c ∷ []
drop_cr (c ∷ d ∷ s) = c ∷ drop_cr (d ∷ s)

-- `textproto.Reader.ReadLine`: the end of the stream without a byte is an error. A carriage return is
-- dropped in front of a line feed only.
unfoldable pub read_line : Text → Option (Text × Text)
unfolding split_line drop_cr
read_line [] = none
read_line (c ∷ s) =
    let (line, ended, rest) = split_line (c ∷ s) in
    some ((if ended then drop_cr line else line), rest)

-- The states of the reader of `textproto.Reader.DotReader`.
pub data Dot : Type 0 where
  begin_line at_dot at_dot_cr at_cr in_data : Dot

-- What is read for one byte, and the next state; `none` is the end of the block.
abbrev pub data_step : ℕ → Text × Option Dot
data_step c =
    if c == 13 then ([], some at_cr) else (c ∷ [], some (if c == 10 then begin_line else in_data))

abbrev after_cr : Text × Option Dot → Text × Option Dot
after_cr (s, d) = (13 ∷ s, d)

unfoldable pub dot_step : Dot → ℕ → Text × Option Dot
dot_step begin_line c =
    if c == 46
    then ([], some at_dot)
    else if c == 13
    then ([], some at_cr)
    else (c ∷ [], some in_data)
dot_step at_dot c =
    if c == 13 then ([], some at_dot_cr) else if c == 10 then ([], none) else (c ∷ [], some in_data)
dot_step at_dot_cr c = if c == 10 then ([], none) else after_cr (data_step c)
dot_step at_cr c = if c == 10 then (10 ∷ [], some begin_line) else after_cr (data_step c)
dot_step in_data c = data_step c

abbrev pub in_front : Text → Option (Text × Text) → Option (Text × Text)
in_front s none = none
in_front s (some (t, rest)) = some (s ++ t, rest)

abbrev after_step : Text → (Dot → Option (Text × Text)) → Text × Option Dot → Option (Text × Text)
after_step s go_on (e, none) = some (e, s)
after_step s go_on (e, some d) = in_front e (go_on d)

-- All that the DotReader gives, and what is left behind the block; an unended block is an error.
unfoldable pub read_dot : Dot → Text → Option (Text × Text)
unfolding dot_step
read_dot d [] = none
read_dot d (c ∷ s) = after_step s (λ d'. read_dot d' s) (dot_step d c)

unfoldable pub has_prefix : Text → Text → Bool
has_prefix s [] = true
has_prefix [] (p ∷ ps) = false
has_prefix (c ∷ s) (p ∷ ps) = let rest = has_prefix s ps in if c == p then rest else false

pub length-split_line : (s : Text) → length (split_line s).2 ≤ length s
unfolding split_line
length-split_line [] = omega arith
length-split_line (c ∷ s) = ground (arith, length-split_line s)

-- What is left is shorter than the stream.
abbrev pub Shortens : Text → Option (Text × Text) → Type 0
Shortens s none = Unit
Shortens s (some (t, rest)) = length rest < length s

step-Shortens :
    (c : ℕ) (s : Text) (go_on : Dot → Option (Text × Text)) (r : Text × Option Dot)
    → ((d : Dot) → Shortens s (go_on d))
    → Shortens (c ∷ s) (after_step s go_on r)
step-Shortens c s go_on (e, none) h = omega arith
step-Shortens c s go_on (e, some d) h = longer (go_on d) (h d)
  where
    longer : (r : Option (Text × Text)) → Shortens s r → Shortens (c ∷ s) (in_front e r)
    longer none k = tt
    longer (some (t, rest)) k = omega arith

pub read_dot-Shortens : (d : Dot) (s : Text) → Shortens s (read_dot d s)
unfolding read_dot
read_dot-Shortens d [] = tt
read_dot-Shortens d (c ∷ s) =
    step-Shortens c s (λ d'. read_dot d' s) (dot_step d c) (λ d'. read_dot-Shortens d' s)

pub read_line-Shortens : (s : Text) → Shortens s (read_line s)
unfolding read_line split_line
read_line-Shortens [] = tt
read_line-Shortens (c ∷ s) = ground (arith, length-split_line s)

-- A line without line ends in it.
abbrev pub IsLine : Text → Type 0
IsLine line = All (λ c. ((c == 13) ≡ false) × ((c == 10) ≡ false)) line

pub split-line :
    (line rest : Text)
    → IsLine line
    → split_line (line ++ (13 ∷ 10 ∷ rest)) ≡ (line ++ (13 ∷ []), true, rest)
unfolding split_line
split-line [] rest h = refl
split-line (c ∷ line) rest h = rw (h.0.1, split-line line rest h.1) refl

drop-cr : (line : Text) → drop_cr (line ++ (13 ∷ [])) ≡ line
unfolding drop_cr
drop-cr [] = refl
drop-cr (c ∷ []) = refl
drop-cr (c ∷ d ∷ line) = ap (λ (s : Text). c ∷ s) (drop-cr (d ∷ line))

-- A written line is read.
pub read-line :
    (line rest : Text) → IsLine line → read_line (line ++ (13 ∷ 10 ∷ rest)) ≡ some (line, rest)
unfolding read_line
read-line [] rest h = refl
read-line (c ∷ line) rest h =
    rw (split-line (c ∷ line) rest h) (ap (λ (s : Text). some (s, rest)) (drop-cr (c ∷ line)))

-- What `textproto.Writer.DotWriter` writes for lines, and the block that a reader makes of them.
abbrev pub stuffed : Text → Text
stuffed [] = []
stuffed (c ∷ s) = if c == 46 then 46 ∷ c ∷ s else c ∷ s

unfoldable pub write_dot : List Text → Text → Text
write_dot [] rest = 46 ∷ 13 ∷ 10 ∷ rest
write_dot (l ∷ ls) rest = stuffed l ++ (13 ∷ 10 ∷ write_dot ls rest)

unfoldable pub join_lines : List Text → Text
join_lines [] = []
join_lines (l ∷ ls) = l ++ (10 ∷ join_lines ls)

in_front_assoc :
    (s t : Text) (r : Option (Text × Text)) → in_front s (in_front t r) ≡ in_front (s ++ t) r
in_front_assoc s t none = refl
in_front_assoc s t (some (u, rest)) = ap (λ (x : Text). some (x, rest)) (sym (append_assoc s t u))

on_byte :
    (d d' : Dot) (c : ℕ) (s e : Text)
    → dot_step d c ≡ (e, some d')
    → read_dot d (c ∷ s) ≡ in_front e (read_dot d' s)
unfolding read_dot
on_byte d d' c s e h = ap (after_step s (λ x. read_dot x s)) h

-- A byte that is no line end, where it is not a dot at the start of a line.
plain_byte :
    (c : ℕ) → (c == 13) ≡ false → (c == 10) ≡ false → dot_step in_data c ≡ (c ∷ [], some in_data)
unfolding dot_step
plain_byte c r n = rw (r, n) refl

first_byte :
    (c : ℕ) → (c == 13) ≡ false → (c == 46) ≡ false → dot_step begin_line c ≡ (c ∷ [], some in_data)
unfolding dot_step
first_byte c r d = rw (d, r) refl

line_end :
    (d : Dot) (rest : Text)
    → dot_step d 13 ≡ ([], some at_cr)
    → read_dot d (13 ∷ 10 ∷ rest) ≡ in_front (10 ∷ []) (read_dot begin_line rest)
unfolding dot_step
line_end d rest h =
    on_byte d at_cr 13 (10 ∷ rest) [] h
    ∙ ap (in_front []) (on_byte at_cr begin_line 10 rest (10 ∷ []) refl)
    ∙ in_front_assoc [] (10 ∷ []) (read_dot begin_line rest)

-- The rest of a line.
rest_of_line :
    (line rest : Text)
    → IsLine line
    → read_dot in_data (line ++ (13 ∷ 10 ∷ rest))
      ≡ in_front (line ++ (10 ∷ [])) (read_dot begin_line rest)
rest_of_line [] rest h = line_end in_data rest (unfold dot_step in refl)
rest_of_line (c ∷ line) rest h =
    on_byte in_data in_data c (line ++ (13 ∷ 10 ∷ rest)) (c ∷ []) (plain_byte c h.0.0 h.0.1)
    ∙ ap (in_front (c ∷ [])) (rest_of_line line rest h.1)
    ∙ in_front_assoc (c ∷ []) (line ++ (10 ∷ [])) (read_dot begin_line rest)

-- A whole line, whose first dot was doubled.
whole_line :
    (line rest : Text)
    → IsLine line
    → read_dot begin_line (stuffed line ++ (13 ∷ 10 ∷ rest))
      ≡ in_front (line ++ (10 ∷ [])) (read_dot begin_line rest)
whole_line [] rest h = line_end begin_line rest (unfold dot_step in refl)
whole_line (c ∷ line) rest h = elim (Bool-cases (c == 46)) [
  | inl dotted ↦ rw dotted (
      on_byte begin_line at_dot 46 (c ∷ (line ++ (13 ∷ 10 ∷ rest))) [] (unfold dot_step in refl)
      ∙ ap (in_front []) (
          on_byte at_dot in_data c (line ++ (13 ∷ 10 ∷ rest)) (c ∷ [])
            (unfold dot_step in rw (h.0.0, h.0.1) refl)
          ∙ ap (in_front (c ∷ [])) (rest_of_line line rest h.1)
          ∙ in_front_assoc (c ∷ []) (line ++ (10 ∷ [])) (read_dot begin_line rest))
      ∙ in_front_assoc [] (c ∷ (line ++ (10 ∷ []))) (read_dot begin_line rest))
  | inr plain ↦ rw plain (
      on_byte begin_line in_data c (line ++ (13 ∷ 10 ∷ rest)) (c ∷ []) (first_byte c h.0.0 plain)
      ∙ ap (in_front (c ∷ [])) (rest_of_line line rest h.1)
      ∙ in_front_assoc (c ∷ []) (line ++ (10 ∷ [])) (read_dot begin_line rest))
]

-- A block that is written is read.
pub read-dot :
    (lines : List Text) (rest : Text)
    → All IsLine lines
    → read_dot begin_line (write_dot lines rest) ≡ some (join_lines lines, rest)
unfolding write_dot join_lines
read-dot [] rest h =
    on_byte begin_line at_dot 46 (13 ∷ 10 ∷ rest) [] (unfold dot_step in refl)
    ∙ ap (in_front []) (on_byte at_dot at_dot_cr 13 (10 ∷ rest) [] (unfold dot_step in refl))
    ∙ unfold read_dot dot_step in refl
read-dot (l ∷ ls) rest h =
    whole_line l (write_dot ls rest) h.0
    ∙ ap (in_front (l ++ (10 ∷ []))) (read-dot ls rest h.1)
    ∙ ap (λ (s : Text). some (s, rest)) (append_assoc l (10 ∷ []) (join_lines ls))
