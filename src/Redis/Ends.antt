-- ===== src/Redis/Ends.antt =====
-- services/redis/redis.go: a call of the parser ends.
use honeytrap.Base.{
  ℕ, zero, suc, ◌≤◌, ◌<◌, arith, Bool, true, false, List, [], ◌∷◌, length, ◌==◌, if◌then◌else◌,
  Option, none, some,
}
use honeytrap.Base.Run.{returns, panics, starves}
use honeytrap.Base.Text.{Text}
use honeytrap.Redis.{
  Datum, Items, parse_uint, Parsed, bulk, int, as_array, items_of, by_type, by_line, prepend,
  then_items, parse_items, parse_redis_data,
}

-- A call that returns, and leaves no more lines than it was given.
unfoldable pub Leaves : {A : Type 0} → ℕ → Parsed A → Type 0
Leaves b (returns (r, ls)) = length ls ≤ b
Leaves b panics = ⊥
Leaves b starves = ⊥

as_array-Leaves : (b : ℕ) (r : Parsed Items) → Leaves b r → Leaves b (as_array r)
unfolding Leaves
as_array-Leaves b (returns (none, ls)) h = h
as_array-Leaves b (returns (some d, ls)) h = h
as_array-Leaves b panics h = h
as_array-Leaves b starves h = h

prepend-Leaves : (b : ℕ) (d : Datum) (r : Parsed Items) → Leaves b r → Leaves b (prepend d r)
unfolding Leaves
prepend-Leaves b d (returns (none, ls)) h = h
prepend-Leaves b d (returns (some ds, ls)) h = h
prepend-Leaves b d panics h = h
prepend-Leaves b d starves h = h

then-Leaves :
    (b : ℕ) (r : Parsed Datum) (f : List Text → Parsed Items)
    → Leaves b r
    → ((ls : List Text) → length ls ≤ b → Leaves b (f ls))
    → Leaves b (then_items r f)
unfolding Leaves
then-Leaves b panics f h k = h
then-Leaves b starves f h k = h
then-Leaves b (returns (none, ls)) f h k = h
then-Leaves b (returns (some d, ls)) f h k = prepend-Leaves b d (f ls) (k ls h)

items-Leaves :
    (b : ℕ) (parse : List Text → Parsed Datum) (n : ℕ) (ls : List Text)
    → ((rest : List Text) → length rest ≤ b → Leaves b (parse rest))
    → length ls ≤ b
    → Leaves b (parse_items parse n ls)
unfolding parse_items Leaves
items-Leaves b parse zero ls h k = k
items-Leaves b parse (suc n) ls h k =
    then-Leaves b (parse ls) (λ rest. parse_items parse n rest) (h ls k)
      (λ rest l. items-Leaves b parse n rest h l)

if-Leaves :
    {A : Type 0} (b : ℕ) (t : Bool) (x y : Parsed A)
    → Leaves b x
    → Leaves b y
    → Leaves b (if t then x else y)
if-Leaves b true x y h k = h
if-Leaves b false x y h k = k

bulk-Leaves : (b : ℕ) (o : Option ℕ) (ls : List Text) → length ls ≤ b → Leaves b (bulk o ls)
unfolding Leaves
bulk-Leaves b none ls h = h
bulk-Leaves b (some n) [] h = h
bulk-Leaves b (some n) (l ∷ ls) h = omega arith

int-Leaves : (b : ℕ) (o : Option ℕ) (ls : List Text) → length ls ≤ b → Leaves b (int o ls)
unfolding Leaves
int-Leaves b none ls h = h
int-Leaves b (some n) ls h = h

of-Leaves :
    (b : ℕ) (o : Option ℕ) (f : ℕ → Parsed Items) (ls : List Text)
    → ((n : ℕ) → Leaves b (f n))
    → length ls ≤ b
    → Leaves b (items_of o f ls)
unfolding Leaves
of-Leaves b none f ls h k = k
of-Leaves b (some n) f ls h k = as_array-Leaves b (f n) (h n)

type-Leaves :
    (b t : ℕ) (s : Text) (f : ℕ → Parsed Items) (ls : List Text)
    → ((n : ℕ) → Leaves b (f n))
    → length ls ≤ b
    → Leaves b (by_type t s f ls)
unfolding Leaves by_type
type-Leaves b t s f ls h k = if-Leaves b (t == 0x2a) _ _ (of-Leaves b (parse_uint s) f ls h k) (
    if-Leaves b (t == 0x2b) _ _ k (
      if-Leaves b (t == 0x24) _ _ (bulk-Leaves b (parse_uint s) ls k)
        (if-Leaves b (t == 0x3a) _ _ (int-Leaves b (parse_uint s) ls k) k)))

line-Leaves :
    (b : ℕ) (t : ℕ) (s : Text) (f : ℕ → Parsed Items) (ls : List Text)
    → ((n : ℕ) → Leaves b (f n))
    → length ls ≤ b
    → Leaves b (by_line (t ∷ s) f ls)
unfolding by_line
line-Leaves b t s f ls h k = type-Leaves b t s f ls h k

weaken-Leaves : {A : Type 0} (b c : ℕ) (r : Parsed A) → b ≤ c → Leaves b r → Leaves c r
unfolding Leaves
weaken-Leaves b c (returns (x, ls)) h k = omega arith
weaken-Leaves b c panics h k = k
weaken-Leaves b c starves h k = k

-- Given more fuel than lines, a call of the parser returns, whatever the lines are, and leaves no more
-- lines than it was given.
pub parse-Leaves :
    (fuel : ℕ) (ls : List Text) → length ls < fuel → Leaves (length ls) (parse_redis_data fuel ls)
unfolding parse_redis_data Leaves by_line
parse-Leaves zero ls h = absurd (omega arith)
parse-Leaves (suc fuel) [] h = omega arith
parse-Leaves (suc fuel) ([] ∷ ls) h = omega arith
parse-Leaves (suc fuel) ((t ∷ s) ∷ ls) h =
    weaken-Leaves (length ls) (suc (length ls)) _ (omega arith) (
      line-Leaves (length ls) t s (λ n. parse_items (λ rest. parse_redis_data fuel rest) n ls) ls
        (λ n.
          items-Leaves (length ls) (λ rest. parse_redis_data fuel rest) n ls
            (λ rest k.
              weaken-Leaves (length rest) (length ls) _ k (parse-Leaves fuel rest (omega arith)))
            (omega arith))
        (omega arith))
