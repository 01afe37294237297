-- ===== src/Redis/Examples.antt =====
-- services/redis on concrete input.
use honeytrap.Base.{◌≡◌, ◌↔◌, ◌⊎◌, refl, arith, true, List, [], ◌∷◌, ◌++◌, some}
use honeytrap.Base.Run.{returns, panics, starves}
use honeytrap.Base.Text.{Text, codes, digits_of}
use honeytrap.Redis.{Items, array, bulk_string, integer, no_items, item, parse_redis_data}
use honeytrap.Redis.Messages.{Config}
use honeytrap.Redis.Handler.{Conn, redis_handler, round, handle}
use honeytrap.Redis.RoundTrip.{encode, IsDatum, parse-encode}
use honeytrap.Redis.Ends.{Leaves, parse-Leaves}
use honeytrap.Redis.Loop.{handle_stays}
use honeytrap.Redis.Answers.{round_answers}
use honeytrap.Redis.Panics.{IsEmptyArray, round_panics}

abbrev config : Config
config = record { version = codes "2.8.4"; os = codes "Linux" }

abbrev nested : Items
nested = item (array (item (integer 7) no_items)) no_items

abbrev foo : Items
foo = item (bulk_string (codes "foo")) nested

abbrev client : List Text → Conn
client ls = record { lines = ls; written = []; sent = [] }

-- A client that writes one command, and one that writes the empty array.
abbrev foo_client : Conn
unfolding encode IsDatum
foo_client = client (encode (array foo) ++ (codes "more" ∷ []))

abbrev empty_client : Conn
unfolding encode IsDatum
empty_client = client (encode (array no_items) ++ [])

parse-Leaves_example : Leaves 2 (parse_redis_data 3 (codes "*9" ∷ codes ":5" ∷ []))
parse-Leaves_example = parse-Leaves 3 (codes "*9" ∷ codes ":5" ∷ []) (omega arith)

parse-encode_example :
    parse_redis_data 9 (encode (array foo) ++ (codes "more" ∷ []))
    ≡ returns (some (array foo), codes "more" ∷ [])
unfolding encode IsDatum
parse-encode_example =
    parse-encode 9 (array foo) (codes "more" ∷ []) (omega arith)
      (omega arith, (omega arith, ((omega arith, (omega arith, tt)), tt)))

round_answers_example :
    round config foo_client
    ≡ returns (
      true,
      record {
        lines = codes "more" ∷ [];
        written = ((redis_handler config (codes "foo") nested).0 ∷ []);
        sent = codes "foo" ∷ [];
      },
    )
unfolding encode IsDatum
round_answers_example =
    round_answers config (codes "foo") nested (codes "more" ∷ []) foo_client
      (omega arith, (omega arith, ((omega arith, (omega arith, tt)), tt))) refl

-- A line that is not how the empty array is written, and panics too.
abbrev odd_client : Conn
odd_client = client (codes "*00" ∷ (codes "$1" ∷ []))

round_panics_example : (round config odd_client ≡ panics) ↔ IsEmptyArray odd_client.lines
round_panics_example = round_panics config odd_client

handle_stays_example : handle config 5 foo_client ≡ starves ⊎ handle config 5 foo_client ≡ panics
handle_stays_example = handle_stays config 5 foo_client

empty_array_panics : handle config 5 empty_client ≡ panics
unfolding handle encode digits_of empty_client
empty_array_panics = refl
