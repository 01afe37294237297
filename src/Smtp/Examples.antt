-- ===== src/Smtp/Examples.antt =====
-- The theorems on SMTP, at a server for which an address is its text and a message has no header.
use honeytrap.Base.{
  ◌+◌, ◌*◌, ◌≡◌, ◌≢◌, ◌↔◌, refl, arith, true, [], ◌∷◌, ◌++◌, map, length, none, some,
}
use honeytrap.Base.Run.{panics, starves}
use honeytrap.Base.Text.{Text, codes, to_upper, parse_int, read_digits}
use honeytrap.Base.Lines.{has_prefix, read_line, join_lines}
use honeytrap.Smtp.{Message, Env, Conn, start_state, loop_state, mail_from_state, parse_count}
use honeytrap.Smtp.Session.{step, serve}
use honeytrap.Smtp.Diagram.{After, weight, rank}
use honeytrap.Smtp.Moves.{step-After, serve-ne-starves}
use honeytrap.Smtp.Faults.{Faulty, step_panics}
use honeytrap.Smtp.Chunks.{Chunks, chunk_lines, last_line, chunks-Reaches}
use honeytrap.Smtp.Delivery.{Reaches, client_text, client-Reaches}

abbrev env : Env Text (Unit {0})
env = record {
  banner = codes "SMTPd";
  has_tls = true;
  parse_address = λ a. some a;
  read_message = λ t. some (tt, t);
  hash = λ t. t;
  error_text = λ f. [];
}

abbrev no_message : Message Text (Unit {0})
no_message = record { from = none; to = []; domain = []; header = none; buffer = []; body = [] }

abbrev conn : Text → Conn Text (Unit {0})
conn input = record {
  input = input;
  handshakes = some (codes "QUIT") ∷ [];
  domain = [];
  msg = no_message;
  i = 0;
  written = [];
  rcv = [];
  served = [];
}

abbrev short_mail : Text
short_mail = codes "Mail From" ++ (13 ∷ 10 ∷ codes "QUIT")

step-After_example :
    After loop_state
      (1 + rank loop_state + 2 * (length (codes "STARTTLS") + weight (some (codes "QUIT") ∷ [])))
      []
      (step env loop_state (conn (codes "STARTTLS")))
step-After_example = step-After env loop_state (conn (codes "STARTTLS"))

serve-ne-starves_example : serve env 60 (conn (codes "EHLO a")) ≢ starves
serve-ne-starves_example = serve-ne-starves env 60 (conn (codes "EHLO a")) (omega arith)

step_panics_example : (step env loop_state (conn short_mail) ≡ panics) ↔ (
    (line : Text) × (rest : Text) × (read_line short_mail ≡ some (line, rest))
    × Faulty loop_state 0 line)
step_panics_example = step_panics env loop_state (conn short_mail)

-- The session does panic there.
short_mail_panics : step env loop_state (conn short_mail) ≡ panics
unfolding step has_prefix to_upper
short_mail_panics = refl

abbrev session : Text
session =
    client_text (codes "h") (codes "a") (codes "b" ∷ (codes "c" ∷ []))
      (codes "Hi" ∷ (codes ".." ∷ [])) (codes "QUIT")

client-Reaches_example :
    (d : Conn Text (Unit {0})) × Reaches env start_state (conn session) loop_state d
    × (d.served
        ≡ []
          ++ (record {
            from = some (codes "a");
            to = map (λ a. some a) (codes "b" ∷ (codes "c" ∷ []));
            domain = codes "h";
            header = some tt;
            buffer = [];
            body = join_lines (codes "Hi" ∷ (codes ".." ∷ []));
          }
              ∷ []))
    × (d.input ≡ codes "QUIT")
client-Reaches_example =
    client-Reaches env (codes "h") (codes "a") (codes "b" ∷ (codes "c" ∷ []))
      (codes "Hi" ∷ (codes ".." ∷ [])) (codes "QUIT") tt
      (join_lines (codes "Hi" ∷ (codes ".." ∷ []))) (conn session) ((refl, refl), tt) refl
      ((refl, refl), tt) (((refl, refl), tt), (((refl, refl), tt), tt))
      (((refl, refl), ((refl, refl), tt)), (((refl, refl), ((refl, refl), tt)), tt)) refl
      (omega arith) refl refl

-- Two chunks, and a command behind them.
abbrev two_chunks : Chunks
two_chunks = (codes "2", codes "Hi") ∷ []

abbrev chunked : Conn Text (Unit {0})
chunked = conn (chunk_lines two_chunks (last_line (codes "1") (codes "!") (codes "QUIT")))

chunks-Reaches_example :
    (d : Conn Text (Unit {0})) × Reaches env mail_from_state chunked loop_state d
    × (d.served
        ≡ [] ++ (record no_message { header = some tt; buffer = []; body = codes "Hi!" } ∷ []))
    × (d.input ≡ codes "QUIT")
chunks-Reaches_example =
    chunks-Reaches env two_chunks (codes "1") (codes "!") (codes "QUIT") tt (codes "Hi!") chunked
      ((((refl, refl), tt), (refl, tt), unfold parse_count parse_int read_digits in refl), tt)
      (((refl, refl), tt), (refl, tt), unfold parse_count parse_int read_digits in refl) refl refl
