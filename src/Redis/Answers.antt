-- ===== src/Redis/Answers.antt =====
-- services/redis: a round of the loop of Handle on what a client writes.
use honeytrap.Base.{
  ◌+◌, ◌≡◌, refl, arith, ap, ◌∙◌, Bool, true, false, List, [], ◌∷◌, ◌++◌, length, length-append,
}
use honeytrap.Base.Run.{returns}
use honeytrap.Base.Text.{Text}
use honeytrap.Redis.{parse_redis_data, Datum, Items, array, bulk_string, item}
use honeytrap.Redis.Messages.{Config}
use honeytrap.Redis.Handler.{Conn, redis_handler, answered, on_command, on_datum, on_parsed, round}
use honeytrap.Redis.RoundTrip.{encode, IsDatum, parse-encode}
use honeytrap.Redis.Loop.{handler-open}

round-encode :
    (config : Config) (d : Datum) (rest : List Text) (c : Conn)
    → IsDatum d
    → c.lines ≡ encode d ++ rest
    → round config c ≡ on_datum config d (record c { lines = rest })
unfolding round on_parsed
round-encode config d rest c v e =
    ap (λ ls. on_parsed config (parse_redis_data (length ls + 2) ls) c) e
    ∙ (ap (λ r. on_parsed config r c)
        (parse-encode (length (encode d ++ rest) + 2) d rest
          (omega (arith, length-append (encode d) rest)) v))

answered_open :
    (command : Text) (r : Text × Bool) (c : Conn)
    → r.1 ≡ false
    → answered command r c
      ≡ (true, record c { written = c.written ++ (r.0 ∷ []); sent = c.sent ++ (command ∷ []) })
answered_open command (answer, false) c h = refl
answered_open command (answer, true) c h = absurd (ground arith)

-- A command that a client writes as an array, of which the first item is a bulk string, is reported,
-- answered as redis_handler says, and its lines are taken, and only they; the loop goes on.
pub round_answers :
    (config : Config) (command : Text) (args : Items) (rest : List Text) (c : Conn)
    → IsDatum (array (item (bulk_string command) args))
    → c.lines ≡ encode (array (item (bulk_string command) args)) ++ rest
    → round config c
      ≡ returns (
        true,
        record c {
          lines = rest;
          written = c.written ++ ((redis_handler config command args).0 ∷ []);
          sent = c.sent ++ (command ∷ []);
        },
      )
unfolding on_datum on_command
round_answers config command args rest c v e =
    round-encode config (array (item (bulk_string command) args)) rest c v e
    ∙ ap returns (
        answered_open command (redis_handler config command args) (record c { lines = rest })
          (handler-open config command args))
