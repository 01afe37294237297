-- ===== src/Redis/Loop.antt =====
-- services/redis/redis.go: the loop of Handle.
use honeytrap.Base.{
  ℕ, zero, suc, ◌+◌, ◌≡◌, refl, arith, Bool, true, false, length, if◌then◌else◌, Option, none, some,
  inl, inr, ◌⊎◌,
}
use honeytrap.Base.Run.{Run, returns, panics, starves}
use honeytrap.Base.Text.{Text, text_eq, codes}
use honeytrap.Redis.{
  Datum, Items, none_datum, array, simple_string, bulk_string, integer, no_items, item, Parsed,
  parse_redis_data,
}
use honeytrap.Redis.Messages.{Config, unknown_command}
use honeytrap.Redis.Handler.{
  Conn, info_cmd, redis_handler, answered, on_command, on_datum, on_parsed, round, go_on, handle,
  to_string, to_lower,
}
use honeytrap.Redis.Ends.{Leaves, parse-Leaves}

-- A round that goes on, or a panic.
GoesOn : Run (Bool × Conn) → Type 0
GoesOn panics = Unit
GoesOn starves = ⊥
GoesOn (returns (goes, c)) = goes ≡ true

info_cmd-open : (config : Config) (args : Items) → (info_cmd config args).1 ≡ false
unfolding info_cmd
info_cmd-open config no_items = refl
info_cmd-open config (item d no_items) = refl
info_cmd-open config (item d (item e ds)) = refl

pub handler-open :
    (config : Config) (command : Text) (args : Items)
    → (redis_handler config command args).1 ≡ false
unfolding redis_handler
handler-open config command args =
    elim (text_eq (to_lower command) (codes "info"))
      as (λ t.
        (if t then info_cmd config args else (unknown_command (to_lower command), false)).1
        ≡ false) [ true ↦ info_cmd-open config args | false ↦ refl ]

answered-GoesOn :
    (command : Text) (r : Text × Bool) (c : Conn) → r.1 ≡ false → (answered command r c).0 ≡ true
answered-GoesOn command (answer, true) c h = absurd (ground arith)
answered-GoesOn command (answer, false) c h = refl

command-GoesOn :
    (config : Config) (command : Option Text) (args : Items) (c : Conn)
    → (on_command config command args c).0 ≡ true
unfolding on_command
command-GoesOn config none args c = refl
command-GoesOn config (some command) args c =
    answered-GoesOn command (redis_handler config command args) c (handler-open config command args)

datum-GoesOn : (config : Config) (d : Datum) (c : Conn) → GoesOn (on_datum config d c)
unfolding GoesOn on_datum
datum-GoesOn config none_datum c = refl
datum-GoesOn config (array no_items) c = tt
datum-GoesOn config (array (item d ds)) c = command-GoesOn config (to_string d) ds c
datum-GoesOn config (simple_string s) c = refl
datum-GoesOn config (bulk_string s) c = refl
datum-GoesOn config (integer n) c = refl

parsed-GoesOn :
    (config : Config) (b : ℕ) (r : Parsed Datum) (c : Conn)
    → Leaves b r
    → GoesOn (on_parsed config r c)
unfolding Leaves GoesOn on_parsed
parsed-GoesOn config b panics c h = tt
parsed-GoesOn config b starves c h = h
parsed-GoesOn config b (returns (none, ls)) c h = refl
parsed-GoesOn config b (returns (some d, ls)) c h = datum-GoesOn config d (record c { lines = ls })

round-GoesOn : (config : Config) (c : Conn) → GoesOn (round config c)
unfolding round
round-GoesOn config c =
    parsed-GoesOn config (length c.lines) (parse_redis_data (length c.lines + 2) c.lines) c
      (parse-Leaves (length c.lines + 2) c.lines (omega arith))

go_on-stays :
    (f : Conn → Run Conn) (r : Run (Bool × Conn))
    → GoesOn r
    → ((c : Conn) → f c ≡ starves ⊎ f c ≡ panics)
    → go_on f r ≡ starves ⊎ go_on f r ≡ panics
unfolding GoesOn
go_on-stays f panics h k = inr refl
go_on-stays f starves h k = absurd h
go_on-stays f (returns (true, c)) h k = k c
go_on-stays f (returns (false, c)) h k = absurd (ground arith)

-- However many rounds are run and whatever the client sends, `Handle` does not return: it goes on for
-- ever, or it panics.
pub handle_stays :
    (config : Config) (rounds : ℕ) (c : Conn)
    → handle config rounds c ≡ starves ⊎ handle config rounds c ≡ panics
unfolding handle
handle_stays config zero c = inl refl
handle_stays config (suc rounds) c =
    go_on-stays (λ d. handle config rounds d) (round config c) (round-GoesOn config c)
      (λ d. handle_stays config rounds d)
