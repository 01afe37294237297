-- ===== src/Redis/RoundTrip.antt =====
-- services/redis/redis.go: what a client writes is what the parser gives.
use honeytrap.Base.{
  ℕ, zero, suc, ◌+◌, ◌*◌, ◌-◌, ◌/◌, ◌%◌, ◌^◌, ◌≡◌, ◌≤◌, ◌<◌, refl, arith, ap, ◌∙◌, Bool, true,
  false, List, [], ◌∷◌, ◌++◌, length, length-append, ltb, if◌then◌else◌, some,
}
use mathlib.Core.List.{append_assoc}
use honeytrap.Base.Run.{returns}
use honeytrap.Base.Text.{Text, digits_of, read_digits, int_bound}
use honeytrap.Redis.{
  Datum, Items, in_range, none_datum, array, simple_string, bulk_string, integer, no_items, item,
  parse_uint, Parsed, bulk, int, as_array, items_of, by_type, by_line, prepend, then_items,
  parse_items, parse_redis_data,
}

read_snoc :
    (acc k m : ℕ) (s : Text)
    → k < 10
    → read_digits acc s ≡ some m
    → read_digits acc (s ++ ((48 + k) ∷ [])) ≡ some (m * 10 + k)
unfolding read_digits
read_snoc acc k m [] h e = ground arith
read_snoc acc k m (c ∷ s) h e = ground (arith, read_snoc (acc * 10 + (c - 48)) k m s)

read_step :
    (n : ℕ) (rest : Text)
    → (10 ≤ n → read_digits 0 rest ≡ some (n / 10))
    → read_digits 0 (if ltb n 10 then (48 + n) ∷ [] else rest ++ ((48 + n % 10) ∷ [])) ≡ some n
unfolding read_digits
read_step n rest e = ground (arith, read_snoc 0 (n % 10) (n / 10) rest)

read-digits_of : (fuel n : ℕ) → n < 10 ^ suc fuel → read_digits 0 (digits_of (suc fuel) n) ≡ some n
unfolding digits_of
read-digits_of zero n h = read_step n [] (λ k. absurd (omega arith))
read-digits_of (suc fuel) n h =
    read_step n (digits_of (suc fuel) (n / 10)) (λ k. read-digits_of fuel (n / 10) (omega arith))

-- A number in digits; 20 are enough for 64 bits.
abbrev pub decimal : ℕ → Text
decimal n = digits_of 20 n

digits_any :
    (t : Bool) (c d : ℕ) (rest : Text) → 1 ≤ length (if t then c ∷ [] else rest ++ (d ∷ []))
digits_any true c d rest = omega arith
digits_any false c d [] = omega arith
digits_any false c d (x ∷ rest) = omega arith

length-digits_of : (fuel n : ℕ) → 1 ≤ length (digits_of (suc fuel) n)
unfolding digits_of
length-digits_of fuel n = digits_any (ltb n 10) (48 + n) (48 + n % 10) (digits_of fuel (n / 10))

in_range_lem : (n : ℕ) → n < int_bound → in_range (some n) ≡ some n
unfolding in_range
in_range_lem n h = ground arith

parse_of :
    (n : ℕ) (s : Text)
    → 1 ≤ length s
    → read_digits 0 s ≡ some n
    → n < int_bound
    → parse_uint s ≡ some n
unfolding parse_uint
parse_of n [] h e k = absurd (omega arith)
parse_of n (c ∷ s) h e k = ap in_range e ∙ in_range_lem n k

parse-decimal : (n : ℕ) → n < int_bound → parse_uint (decimal n) ≡ some n
parse-decimal n h =
    parse_of n (decimal n) (length-digits_of 19 n) (read-digits_of 19 n (omega arith)) h

abbrev pub count : Items → ℕ
count no_items = 0
count (item d ds) = suc (count ds)

-- The lines of a datum, as a client writes them.
unfoldable mutual
  pub encode : Datum → List Text
  encode none_datum = [] ∷ []
  encode (array ds) = (0x2a ∷ decimal (count ds)) ∷ encode_items ds
  encode (simple_string s) = (0x2b ∷ s) ∷ []
  encode (bulk_string s) = (0x24 ∷ decimal (length s)) ∷ s ∷ []
  encode (integer n) = (0x3a ∷ decimal n) ∷ []

  pub encode_items : Items → List Text
  encode_items no_items = []
  encode_items (item d ds) = encode d ++ encode_items ds

-- The numbers that are written are within 64 bits.
unfoldable mutual
  pub IsDatum : Datum → Type 0
  IsDatum none_datum = Unit
  IsDatum (array ds) = (count ds < int_bound) × AreItems ds
  IsDatum (simple_string s) = Unit
  IsDatum (bulk_string s) = length s < int_bound
  IsDatum (integer n) = n < int_bound

  pub AreItems : Items → Type 0
  AreItems no_items = Unit
  AreItems (item d ds) = IsDatum d × AreItems ds

length-encode : (d : Datum) → 1 ≤ length (encode d)
unfolding encode
length-encode none_datum = omega arith
length-encode (array ds) = omega arith
length-encode (simple_string s) = omega arith
length-encode (bulk_string s) = omega arith
length-encode (integer n) = omega arith

items-encode :
    (parse : List Text → Parsed Datum) (b : ℕ) (ds : Items) (rest : List Text)
    → ((d : Datum) (rest : List Text)
        → length (encode d) ≤ b
        → IsDatum d
        → parse (encode d ++ rest) ≡ returns (some d, rest))
    → length (encode_items ds) ≤ b
    → AreItems ds
    → parse_items parse (count ds) (encode_items ds ++ rest) ≡ returns (some ds, rest)
unfolding parse_items encode_items AreItems
items-encode parse b no_items rest h k v = refl
items-encode parse b (item d ds) rest h k (v, w) =
    ap (λ r. then_items r (λ ls. parse_items parse (count ds) ls))
      (ap parse (append_assoc (encode d) (encode_items ds) rest)
        ∙ h d (encode_items ds ++ rest) (omega (arith, length-append (encode d) (encode_items ds)))
            v)
    ∙ ap (prepend d) (
        items-encode parse b ds rest h (omega (arith, length-append (encode d) (encode_items ds)))
          w)

-- The parser gives back each datum from its lines, whatever lines follow them, and leaves those.
pub parse-encode :
    (fuel : ℕ) (d : Datum) (rest : List Text)
    → length (encode d) ≤ fuel
    → IsDatum d
    → parse_redis_data fuel (encode d ++ rest) ≡ returns (some d, rest)
unfolding parse_redis_data by_line by_type encode IsDatum
parse-encode zero d rest h v = absurd (omega (arith, length-encode d))
parse-encode (suc fuel) none_datum rest h v = refl
parse-encode (suc fuel) (array ds) rest h (v, w) =
    ap
      (λ o.
        items_of o (λ n. parse_items (parse_redis_data fuel) n (encode_items ds ++ rest))
          (encode_items ds ++ rest))
      (parse-decimal (count ds) v)
    ∙ ap as_array (
        items-encode (parse_redis_data fuel) fuel ds rest
          (λ e more k v. parse-encode fuel e more k v) (omega arith) w)
parse-encode (suc fuel) (simple_string s) rest h v = refl
parse-encode (suc fuel) (bulk_string s) rest h v =
    ap (λ o. bulk o (s ∷ rest)) (parse-decimal (length s) v)
parse-encode (suc fuel) (integer n) rest h v = ap (λ o. int o rest) (parse-decimal n v)
