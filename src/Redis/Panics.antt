-- ===== src/Redis/Panics.antt =====
-- services/redis: which lines make a round of Handle panic.
use honeytrap.Base.{
  ℕ, zero, suc, ◌+◌, ◌-◌, ◌*◌, ◌≤◌, ◌≡◌, ◌↔◌, refl, arith, ap, ◌∙◌, ◌&&◌, List, [], ◌∷◌, length,
  ltb, leb, ◌==◌, if◌then◌else◌, Option, none, some, Bool-cases, inl, inr, subst,
}
use honeytrap.Base.Bytes.{All}
use honeytrap.Base.Run.{returns, panics, starves}
use honeytrap.Base.Text.{Text, int_bound, read_digits}
use honeytrap.Redis.{
  parse_redis_data, Datum, Items, none_datum, array, simple_string, bulk_string, integer, no_items,
  item, in_range, parse_uint, Parsed, bulk, int, as_array, items_of, by_type, by_line, prepend,
  then_items, parse_items,
}
use honeytrap.Redis.Messages.{Config}
use honeytrap.Redis.Handler.{Conn, on_datum, on_parsed, round}
use honeytrap.Redis.Ends.{Leaves, parse-Leaves}

-- A text of at least one digit, all of them 0.
abbrev pub IsZeros : Text → Type 0
IsZeros [] = ⊥
IsZeros (c ∷ s) = (c ≡ b'0') × All (λ d. d ≡ b'0') s

-- The first line is a star and zeros.
abbrev pub IsEmptyArray : List Text → Type 0
IsEmptyArray lines = (s : Text) × (rest : List Text) × (lines ≡ (b'*' ∷ s) ∷ rest) × IsZeros s

zeros-read : (s : Text) → All (λ d. d ≡ 48) s → read_digits 0 s ≡ some 0
unfolding read_digits
zeros-read [] h = refl
zeros-read (c ∷ s) h = rw (h.0) (zeros-read s h.1)

read-grows : (acc n : ℕ) (s : Text) → read_digits acc s ≡ some n → acc ≤ n
unfolding read_digits
read-grows acc n [] h = ground arith
read-grows acc n (c ∷ s) h = elim (Bool-cases (leb 48 c && leb c 57)) [
  | inl digit ↦
      let rest = read-grows (acc * 10 + (c - 48)) n s (ground arith) in omega (arith, rest)
  | inr other ↦ absurd (ground arith)
]

read-zeros : (acc : ℕ) (s : Text) → read_digits acc s ≡ some 0 → All (λ d. d ≡ 48) s
unfolding read_digits
read-zeros acc [] h = tt
read-zeros acc (c ∷ s) h = elim (Bool-cases (leb 48 c && leb c 57)) [
  | inl digit ↦
      let read : read_digits (acc * 10 + (c - 48)) s ≡ some 0 = ground arith in
      let least = read-grows (acc * 10 + (c - 48)) 0 s read in
      (ground (arith, least), read-zeros (acc * 10 + (c - 48)) s read)
  | inr other ↦ absurd (ground arith)
]

in_range-some : (m : Option ℕ) (n : ℕ) → in_range m ≡ some n → m ≡ some n
unfolding in_range
in_range-some none n h = absurd (ground arith)
in_range-some (some k) n h = elim (Bool-cases (ltb k int_bound)) [
  | inl below ↦ ground arith
  | inr above ↦ absurd (ground arith)
]

uint-IsZeros : (s : Text) → parse_uint s ≡ some 0 → IsZeros s
unfolding parse_uint
uint-IsZeros [] h = absurd (ground arith)
uint-IsZeros (c ∷ s) h = read-zeros 0 (c ∷ s) (in_range-some (read_digits 0 (c ∷ s)) 0 h)

IsZeros-uint : (s : Text) → IsZeros s → parse_uint s ≡ some 0
unfolding parse_uint
IsZeros-uint [] h = absurd h
IsZeros-uint (c ∷ s) h = ap in_range (zeros-read (c ∷ s) h) ∙ unfold in_range in refl

-- The parser gives an empty array.
GivesEmpty : Parsed Datum → Type 0
GivesEmpty r = (ls : List Text) × (r ≡ returns (some (array no_items), ls))

prepend-full :
    (d : Datum) (r : Parsed Items) (ls : List Text) → ¬ (prepend d r ≡ returns (some no_items, ls))
prepend-full d panics ls h = absurd (ground arith)
prepend-full d starves ls h = absurd (ground arith)
prepend-full d (returns (none, l)) ls h = absurd (ground arith)
prepend-full d (returns (some ds, l)) ls h = absurd (ground arith)

then-full :
    (r : Parsed Datum) (f : List Text → Parsed Items) (ls : List Text)
    → ¬ (then_items r f ≡ returns (some no_items, ls))
then-full panics f ls h = absurd (ground arith)
then-full starves f ls h = absurd (ground arith)
then-full (returns (none, l)) f ls h = absurd (ground arith)
then-full (returns (some d, l)) f ls h = prepend-full d (f l) ls h

items-empty :
    (parse : List Text → Parsed Datum) (n : ℕ) (ls rest : List Text)
    → parse_items parse n ls ≡ returns (some no_items, rest)
    → n ≡ 0
unfolding parse_items
items-empty parse zero ls rest h = refl
items-empty parse (suc n) ls rest h =
    absurd (then-full (parse ls) (λ l. parse_items parse n l) rest h)

as_array-empty :
    (r : Parsed Items) (ls : List Text)
    → as_array r ≡ returns (some (array no_items), ls)
    → r ≡ returns (some no_items, ls)
as_array-empty panics ls h = absurd (ground arith)
as_array-empty starves ls h = absurd (ground arith)
as_array-empty (returns (none, l)) ls h = absurd (ground arith)
as_array-empty (returns (some items, l)) ls h = ground arith

of-empty :
    (o : Option ℕ) (parse : List Text → Parsed Datum) (ls : List Text)
    → GivesEmpty (items_of o (λ n. parse_items parse n ls) ls)
    → o ≡ some 0
unfolding GivesEmpty
of-empty none parse ls (l, h) = absurd (ground arith)
of-empty (some n) parse ls (l, h) =
    ap some (items-empty parse n ls l (as_array-empty (parse_items parse n ls) l h))

bulk-not_empty : (o : Option ℕ) (ls : List Text) → ¬ GivesEmpty (bulk o ls)
unfolding GivesEmpty
bulk-not_empty none ls (l, h) = absurd (ground arith)
bulk-not_empty (some n) [] (l, h) = absurd (ground arith)
bulk-not_empty (some n) (x ∷ xs) (l, h) = absurd (ground arith)

int-not_empty : (o : Option ℕ) (ls : List Text) → ¬ GivesEmpty (int o ls)
unfolding GivesEmpty
int-not_empty none ls (l, h) = absurd (ground arith)
int-not_empty (some n) ls (l, h) = absurd (ground arith)

type-empty :
    (t : ℕ) (s : Text) (parse : List Text → Parsed Datum) (ls : List Text)
    → GivesEmpty (by_type t s (λ n. parse_items parse n ls) ls)
    → (t ≡ 42) × (parse_uint s ≡ some 0)
unfolding by_type GivesEmpty
type-empty t s parse ls (l, h) = elim (Bool-cases (t == 42)) [
  | inl star ↦ (ground arith, of-empty (parse_uint s) parse ls (l, rw star at h))
  | inr other ↦ absurd (no_star (rw other at h))
]
  where
    no_star : ¬ (
        (if t == 43
          then returns (some (simple_string s), ls)
          else if t == 36
          then bulk (parse_uint s) ls
          else if t == 58
          then int (parse_uint s) ls
          else returns (none, ls))
        ≡ returns (some (array no_items), l))
    no_star k = elim (Bool-cases (t == 43)) [
      | inl plus ↦ absurd (let e = (rw plus at k) in ground arith)
      | inr a ↦ elim (Bool-cases (t == 36)) [
        | inl dollar ↦ bulk-not_empty (parse_uint s) ls (l, rw (a, dollar) at k)
        | inr b ↦ elim (Bool-cases (t == 58)) [
          | inl colon ↦ int-not_empty (parse_uint s) ls (l, rw (a, b, colon) at k)
          | inr c ↦ absurd (let e = (rw (a, b, c) at k) in ground arith)
        ]
      ]
    ]

-- The lines that the parser reads as an empty array.
parse-empty :
    (fuel : ℕ) (lines : List Text)
    → GivesEmpty (parse_redis_data (suc fuel) lines)
    → IsEmptyArray lines
unfolding parse_redis_data by_line GivesEmpty
parse-empty fuel [] (l, h) = absurd (ground arith)
parse-empty fuel ([] ∷ ls) (l, h) = absurd (ground arith)
parse-empty fuel ((t ∷ s) ∷ ls) h =
    let (star, none_of) = type-empty t s (λ rest. parse_redis_data fuel rest) ls h in
    (s, ls, ap (λ c. (c ∷ s) ∷ ls) star, uint-IsZeros s none_of)

empty-parse :
    (fuel : ℕ) (s : Text) (ls : List Text)
    → IsZeros s
    → parse_redis_data (suc fuel) ((42 ∷ s) ∷ ls) ≡ returns (some (array no_items), ls)
unfolding parse_redis_data by_line by_type parse_items
empty-parse fuel s ls h = rw (IsZeros-uint s h) refl

datum_panics :
    (config : Config) (d : Datum) (c : Conn) → on_datum config d c ≡ panics → d ≡ array no_items
unfolding on_datum
datum_panics config none_datum c h = absurd (ground arith)
datum_panics config (array no_items) c h = refl
datum_panics config (array (item d ds)) c h = absurd (ground arith)
datum_panics config (simple_string s) c h = absurd (ground arith)
datum_panics config (bulk_string s) c h = absurd (ground arith)
datum_panics config (integer n) c h = absurd (ground arith)

parsed_panics :
    (config : Config) (b : ℕ) (r : Parsed Datum) (c : Conn)
    → Leaves b r
    → on_parsed config r c ≡ panics
    → GivesEmpty r
unfolding Leaves on_parsed GivesEmpty
parsed_panics config b panics c h e = absurd h
parsed_panics config b starves c h e = absurd h
parsed_panics config b (returns (none, ls)) c h e = absurd (ground arith)
parsed_panics config b (returns (some d, ls)) c h e =
    (ls, ap (λ x. returns (some x, ls)) (datum_panics config d (record c { lines = ls }) e))

parse_panics :
    (config : Config) (fuel : ℕ) (c : Conn)
    → length c.lines ≤ fuel
    → (on_parsed config (parse_redis_data (suc fuel) c.lines) c ≡ panics) ↔ IsEmptyArray c.lines
unfolding on_parsed on_datum
parse_panics config fuel c enough = (there, back)
  where
    there : on_parsed config (parse_redis_data (suc fuel) c.lines) c ≡ panics → IsEmptyArray c.lines
    there h = parse-empty fuel c.lines (
        parsed_panics config (length c.lines) (parse_redis_data (suc fuel) c.lines) c
          (parse-Leaves (suc fuel) c.lines (omega arith)) h)

    back : IsEmptyArray c.lines → on_parsed config (parse_redis_data (suc fuel) c.lines) c ≡ panics
    back (s, ls, e, zeros) =
        ap (λ r. on_parsed config r c)
          (ap (λ xs. parse_redis_data (suc fuel) xs) e ∙ empty-parse fuel s ls zeros)

-- Whatever lines are left to read, well formed or not, a round panics exactly if the first of them is a
-- star and at least one digit, all of its digits being 0: an empty array.
pub round_panics : (config : Config) (c : Conn) → (round config c ≡ panics) ↔ IsEmptyArray c.lines
unfolding round
round_panics config c =
    let fuel : suc (suc (length c.lines)) ≡ length c.lines + 2 = omega arith in
    subst
      (λ (n : ℕ). (on_parsed config (parse_redis_data n c.lines) c ≡ panics) ↔ IsEmptyArray c.lines)
      fuel (parse_panics config (suc (length c.lines)) c (omega arith))
