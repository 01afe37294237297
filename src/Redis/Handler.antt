-- ===== src/Redis/Handler.antt =====
-- services/redis: the commands (commands.go, redis_handler.go) and the loop of Handle (redis.go).
use honeytrap.Base.{
  ℕ, zero, suc, ◌+◌, Bool, true, false, ◌&&◌, List, [], ◌∷◌, ◌++◌, length, leb, if◌then◌else◌,
  Option, none, some,
}
use honeytrap.Base.Run.{Run, returns, panics, starves}
use honeytrap.Base.Text.{Text, codes, text_eq, itoa}
use honeytrap.Redis.{
  Datum, Items, array, simple_string, bulk_string, no_items, item, parse_redis_data, Parsed,
}
use honeytrap.Redis.Messages.{
  Config, info_server_msg, info_clients_msg, info_memory_msg, info_persistence_msg, info_stats_msg,
  info_replication_msg, info_cpu_msg, info_cluster_msg, info_keyspace_msg, info_sections_msg,
  all_sections_msg, syntax_error, unknown_command,
}

abbrev lower_code : ℕ → ℕ
lower_code c = if leb 65 c && leb c 90 then c + 32 else c

-- `strings.ToLower`.
unfoldable pub to_lower : Text → Text
to_lower [] = []
to_lower (c ∷ s) = lower_code c ∷ to_lower s

-- `ToString`.
abbrev pub to_string : Datum → Option Text
to_string (simple_string s) = some s
to_string (bulk_string s) = some s
to_string _ = none

-- `fmt.Sprintf(lenMsg(), len(s), s)`.
abbrev pub len_msg : Text → Text
len_msg s = 36 ∷ (itoa (length s) ++ (13 ∷ 10 ∷ (s ++ (13 ∷ 10 ∷ []))))

-- `mapInfoCmds`, behind it "default" and "all"; a word that is neither gives an empty text.
unfoldable pub info_section : Config → Text → Text
info_section config word =
    if text_eq word (codes "server")
    then info_server_msg config
    else if text_eq word (codes "clients")
    then info_clients_msg
    else if text_eq word (codes "memory")
    then info_memory_msg
    else if text_eq word (codes "persistence")
    then info_persistence_msg
    else if text_eq word (codes "stats")
    then info_stats_msg
    else if text_eq word (codes "replication")
    then info_replication_msg
    else if text_eq word (codes "cpu")
    then info_cpu_msg
    else if text_eq word (codes "cluster")
    then info_cluster_msg
    else if text_eq word (codes "keyspace")
    then info_keyspace_msg
    else if text_eq word (codes "default")
    then info_sections_msg config
    else if text_eq word (codes "all")
    then all_sections_msg config
    else []

abbrev pub info_word : Config → Option Text → Text
unfolding info_section
info_word config none = codes "Expected string argument, got something else"
info_word config (some word) = len_msg (info_section config word)

-- An answer, and whether the connection is to be closed.
unfoldable pub info_cmd : Config → Items → Text × Bool
unfolding info_word
info_cmd config no_items = (len_msg (info_sections_msg config), false)
info_cmd config (item d no_items) = (info_word config (to_string d), false)
info_cmd config (item d (item e ds)) = (syntax_error, false)

unfoldable pub redis_handler : Config → Text → Items → Text × Bool
unfolding info_cmd to_lower
redis_handler config command args =
    if text_eq (to_lower command) (codes "info")
    then info_cmd config args
    else (unknown_command (to_lower command), false)

-- A connection: the lines that are left, and what was written and reported, in order.
pub record Conn : Type 0 where
  pub lines : List Text
  pub written : List Text
  pub sent : List Text

-- The rest of a round: whether the loop goes on.
abbrev pub answered : Text → Text × Bool → Conn → Bool × Conn
answered command (answer, close_conn) c =
    let d = record c { sent = c.sent ++ (command ∷ []) } in
    if close_conn then (false, d) else (true, record d { written = d.written ++ (answer ∷ []) })

unfoldable pub on_command : Config → Option Text → Items → Conn → Bool × Conn
unfolding redis_handler
on_command config none args c = (true, c)
on_command config (some command) args c = answered command (redis_handler config command args) c

-- `items[0]` of an empty array panics.
unfoldable pub on_datum : Config → Datum → Conn → Run (Bool × Conn)
unfolding on_command
on_datum config (array no_items) c = panics
on_datum config (array (item d ds)) c = returns (on_command config (to_string d) ds c)
on_datum config _ c = returns (true, c)

unfoldable pub on_parsed : Config → Parsed Datum → Conn → Run (Bool × Conn)
unfolding on_datum
on_parsed config panics c = panics
on_parsed config starves c = starves
on_parsed config (returns (none, ls)) c = returns (true, record c { lines = ls })
on_parsed config (returns (some d, ls)) c = on_datum config d (record c { lines = ls })

-- A round of the loop of `Handle`: more calls than lines are never nested.
unfoldable pub round : Config → Conn → Run (Bool × Conn)
unfolding on_parsed parse_redis_data
round config c = on_parsed config (parse_redis_data (length c.lines + 2) c.lines) c

abbrev pub go_on : (Conn → Run Conn) → Run (Bool × Conn) → Run Conn
go_on f panics = panics
go_on f starves = starves
go_on f (returns (true, c)) = f c
go_on f (returns (false, c)) = returns c

-- `Handle`, within as many rounds.
unfoldable pub handle : Config → ℕ → Conn → Run Conn
unfolding round
handle config zero c = starves
handle config (suc rounds) c = go_on (λ d. handle config rounds d) (round config c)
