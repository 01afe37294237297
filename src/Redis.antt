-- ===== src/Redis.antt =====
-- services/redis: the parser of redis.go. The input is the list of the lines that bufio.Scanner gives; at
-- its end Scan fails and Text is empty. A call that reads an array calls itself for each item.
pub mod Messages
pub mod Handler
pub mod RoundTrip
pub mod Ends
pub mod Loop
pub mod Answers
pub mod Panics
mod Examples
use honeytrap.Base.{
  ℕ, zero, suc, ◌+◌, ◌≡◌, Bool, true, false, ◌&&◌, List, [], ◌∷◌, ◌++◌, length, ltb, leb, ◌==◌,
  if◌then◌else◌, Option, none, some,
}
use honeytrap.Base.Run.{Run, returns, panics, starves}
use honeytrap.Base.Text.{Text, int_bound, read_digits}

-- `redisDatum`, by its type: `none_datum` is the zero value, with type 0.
mutual
  pub data Datum : Type 0 where
    none_datum : Datum
    array : Items → Datum
    simple_string bulk_string : Text → Datum
    integer : ℕ → Datum

  pub data Items : Type 0 where
    no_items : Items
    item : Datum → Items → Items

-- `strconv.ParseUint(s, 10, 64)`.
unfoldable pub in_range : Option ℕ → Option ℕ
in_range none = none
in_range (some n) = if ltb n int_bound then some n else none

unfoldable pub parse_uint : Text → Option ℕ
unfolding read_digits in_range
parse_uint [] = none
parse_uint (c ∷ s) = in_range (read_digits 0 (c ∷ s))

-- The result of a call beside the lines that are left; `none` is an error.
abbrev pub Parsed : Type 0 → Type 0
Parsed A = Run (Option A × List Text)

abbrev pub scan : List Text → Text × List Text
scan [] = ([], [])
scan (l ∷ ls) = (l, ls)

abbrev pub bulk : Option ℕ → List Text → Parsed Datum
bulk none ls = returns (none, ls)
bulk (some n) ls = returns (some (bulk_string (scan ls).0), (scan ls).1)

abbrev pub int : Option ℕ → List Text → Parsed Datum
int none ls = returns (none, ls)
int (some n) ls = returns (some (integer n), ls)

abbrev pub as_array : Parsed Items → Parsed Datum
as_array (returns (none, ls)) = returns (none, ls)
as_array (returns (some items, ls)) = returns (some (array items), ls)
as_array panics = panics
as_array starves = starves

abbrev pub items_of : Option ℕ → (ℕ → Parsed Items) → List Text → Parsed Datum
items_of none f ls = returns (none, ls)
items_of (some n) f ls = as_array (f n)

-- The cases by the first byte of a line, of which the rest is given.
unfoldable pub by_type : ℕ → Text → (ℕ → Parsed Items) → List Text → Parsed Datum
unfolding parse_uint
by_type t s f ls =
    if t == 0x2a
    then items_of (parse_uint s) f ls
    else if t == 0x2b
    then returns (some (simple_string s), ls)
    else if t == 0x24
    then bulk (parse_uint s) ls
    else if t == 0x3a
    then int (parse_uint s) ls
    else returns (none, ls)

unfoldable pub by_line : Text → (ℕ → Parsed Items) → List Text → Parsed Datum
unfolding by_type
by_line [] f ls = returns (some none_datum, ls)
by_line (t ∷ s) f ls = by_type t s f ls

abbrev pub prepend : Datum → Parsed Items → Parsed Items
prepend d panics = panics
prepend d starves = starves
prepend d (returns (none, ls)) = returns (none, ls)
prepend d (returns (some ds, ls)) = returns (some (item d ds), ls)

abbrev pub then_items : Parsed Datum → (List Text → Parsed Items) → Parsed Items
then_items panics f = panics
then_items starves f = starves
then_items (returns (none, ls)) f = returns (none, ls)
then_items (returns (some d, ls)) f = prepend d (f ls)

-- The loop over the items of an array.
unfoldable pub parse_items : (List Text → Parsed Datum) → ℕ → List Text → Parsed Items
parse_items parse zero ls = returns (some no_items, ls)
parse_items parse (suc n) ls = then_items (parse ls) (λ rest. parse_items parse n rest)

-- `parseRedisData`, within `fuel` nested calls.
unfoldable pub parse_redis_data : ℕ → List Text → Parsed Datum
unfolding by_line parse_items
parse_redis_data zero ls = starves
parse_redis_data (suc fuel) ls =
    by_line (scan ls).0 (λ n. parse_items (λ rest. parse_redis_data fuel rest) n (scan ls).1)
      (scan ls).1
