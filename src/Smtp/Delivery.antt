-- ===== src/Smtp/Delivery.antt =====
-- services/smtp/conn.go: a client that follows the protocol has its message handed on.
use honeytrap.Base.{
  ◌+◌, ◌≡◌, ◌<◌, refl, arith, sym, ap, ap₂, ◌∙◌, false, List, [], ◌∷◌, ◌++◌, map, ltb, Option, some,
}
use mathlib.Core.List.{append_assoc, append-nil}
use honeytrap.Base.Bytes.{All}
use honeytrap.Base.Run.{returns}
use honeytrap.Base.Text.{Text, codes, is_empty, to_upper, split_once}
use honeytrap.Base.Lines.{read_line, has_prefix, IsLine, read-line, read-dot, write_dot, join_lines}
use honeytrap.Smtp.{
  got, Message, Env, Conn, State, start_state, hello_state, loop_state, mail_from_state,
  parse_hello_argument, slice, print_line, read_text, reset,
}
use honeytrap.Smtp.Session.{
  accepted, accept, on_rcpt, on_block, on_data, mail_from_line, on_mail, loop_command, loop_line,
  greet, on_helo, hello_line, or_leave, or_empty, step,
}

abbrev pub line_of : Text → Text → Text
line_of line rest = line ++ (13 ∷ 10 ∷ rest)

-- The lines of the client.
abbrev pub rcpt_lines : List Text → Text → Text
rcpt_lines [] rest = rest
rcpt_lines (a ∷ rcpts) rest = line_of (codes "RCPT TO:" ++ a) (rcpt_lines rcpts rest)

abbrev pub client_text : Text → Text → List Text → List Text → Text → Text
client_text domain a rcpts ls rest = line_of (codes "HELO " ++ domain) (
    line_of (codes "MAIL FROM:" ++ a)
      (rcpt_lines rcpts (line_of (codes "DATA") (write_dot ls rest))))

-- Rounds one after another.
pub data Reaches {A H : Type 0} (env : Env A H) : State → Conn A H → State → Conn A H → Type 0 where
  stops : {s : State} {c : Conn A H} → Reaches env s c s c
  goes :
      {s t u : State} {c d e : Conn A H}
      → step env s c ≡ returns (some t, d)
      → Reaches env t d u e
      → Reaches env s c u e

module _ {A H : Type 0} (env : Env A H) where
  abbrev pub took : Text → Text → Conn A H → Conn A H
  took line rest c = record c { input = rest; rcv = c.rcv ++ (line ∷ []) }

  pub reads :
      (line rest : Text) (c : Conn A H)
      → IsLine line
      → c.input ≡ line_of line rest
      → read_text c ≡ (some line, took line rest c)
  unfolding read_text
  reads line rest c is e = ap (λ r. got r c) (ap read_line e ∙ read-line line rest is)

  start_round :
      (c : Conn A H)
      → step env start_state c
        ≡ returns (some hello_state, print_line (codes "220 " ++ env.banner) c)
  unfolding step
  start_round c = refl

  hello_round :
      (domain rest : Text) (c : Conn A H)
      → IsLine domain
      → is_empty domain ≡ false
      → c.input ≡ line_of (codes "HELO " ++ domain) rest
      → step env hello_state c
        ≡ returns (
          some loop_state,
          print_line
              (codes "250 Hello " ++ (domain ++ codes ", I am glad to meet you"))
              (greet domain (took (codes "HELO " ++ domain) rest c)),
        )
  unfolding step hello_line parse_hello_argument split_once to_upper has_prefix on_helo
  hello_round domain rest c is full e =
      ap (or_empty (hello_line env)) (
        reads (codes "HELO " ++ domain) rest c
          ((refl, refl), ((refl, refl), ((refl, refl), ((refl, refl), ((refl, refl), is))))) e)
      ∙ rw full refl

  asked : Text → Text → Conn A H → Conn A H
  asked a rest c = print_line (codes "250 Ok") (record (took (codes "MAIL FROM:" ++ a) rest c) {
    i = c.i + 1;
    msg = record c.msg { from = env.parse_address a };
  })

  mail_round :
      (a rest : Text) (c : Conn A H)
      → IsLine a
      → c.i < 100
      → c.input ≡ line_of (codes "MAIL FROM:" ++ a) rest
      → step env loop_state c ≡ returns (some mail_from_state, asked a rest c)
  unfolding step loop_line loop_command to_upper has_prefix on_mail asked
  mail_round a rest c is few e =
      let line : Text = codes "MAIL FROM:" ++ a in
      let under : ltb 100 (c.i + 1) ≡ false = ground arith in
      let sliced : slice 10 line ≡ some a = ground arith in
      ap (or_leave (loop_line env)) (
        reads line rest c
          (
            (refl, refl),
            (
              (refl, refl),
              (
                (refl, refl),
                (
                  (refl, refl),
                  (
                    (refl, refl),
                    (
                      (refl, refl),
                      ((refl, refl), ((refl, refl), ((refl, refl), ((refl, refl), is)))),
                    ),
                  ),
                ),
              ),
            ),
          )
          e)
      ∙ rw (under, sliced) refl

  named : Text → Text → Conn A H → Conn A H
  named a rest c = print_line (codes "250 Ok") (record (took (codes "RCPT TO:" ++ a) rest c) {
    msg = record c.msg { to = c.msg.to ++ (env.parse_address a ∷ []) };
  })

  rcpt_round :
      (a rest : Text) (c : Conn A H)
      → IsLine a
      → c.input ≡ line_of (codes "RCPT TO:" ++ a) rest
      → step env mail_from_state c ≡ returns (some mail_from_state, named a rest c)
  unfolding step mail_from_line to_upper has_prefix on_rcpt named
  rcpt_round a rest c is e =
      let line : Text = codes "RCPT TO:" ++ a in
      let sliced : slice 8 line ≡ some a = ground arith in
      ap (or_leave (mail_from_line env)) (
        reads line rest c
          (
            (refl, refl),
            (
              (refl, refl),
              (
                (refl, refl),
                ((refl, refl), ((refl, refl), ((refl, refl), ((refl, refl), ((refl, refl), is))))),
              ),
            ),
          )
          e)
      ∙ rw sliced refl

  -- The state behind a message.
  handed : Text → Text → H → Text → Conn A H → Conn A H
  unfolding reset
  handed text rest header body c =
      let d =
        print_line (codes "250 Ok : queued as +" ++ env.hash text)
          (record (print_line (codes "354 Enter message, ending with \".\" on a line by itself")
            c) { input = rest }) in
      reset (record d {
        served = c.served ++ (record c.msg { header = some header; body = body } ∷ []);
      })

  data_round :
      (ls : List Text) (rest : Text) (header : H) (body : Text) (c : Conn A H)
      → All IsLine ls
      → env.read_message (join_lines ls) ≡ some (header, body)
      → c.input ≡ line_of (codes "DATA") (write_dot ls rest)
      → step env mail_from_state c
        ≡ returns (
          some loop_state,
          handed (join_lines ls) rest header body (took (codes "DATA") (write_dot ls rest) c),
        )
  unfolding step mail_from_line to_upper has_prefix on_data on_block accept accepted print_line
      handed
  data_round ls rest header body c is message e =
      ap (or_leave (mail_from_line env)) (
        reads (codes "DATA") (write_dot ls rest) c
          ((refl, refl), ((refl, refl), ((refl, refl), ((refl, refl), tt)))) e)
      ∙ rw (read-dot ls rest is, message) refl

  Named : List Text → Text → Conn A H → Conn A H → Type 0
  Named rcpts rest c d =
      (d.input ≡ rest)
      × (d.served ≡ c.served)
      × (d.msg ≡ record c.msg { to = c.msg.to ++ map env.parse_address rcpts })

  rcpts_reach :
      (rcpts : List Text) (rest : Text) (c : Conn A H)
      → All IsLine rcpts
      → c.input ≡ rcpt_lines rcpts rest
      → (d : Conn A H) × Reaches env mail_from_state c mail_from_state d × Named rcpts rest c d
  unfolding Named named print_line
  rcpts_reach [] rest c is e = (
    c,
    stops,
    (e, refl, ap (λ (to : List (Option A)). record c.msg { to = to }) (sym (append-nil c.msg.to))),
  )
  rcpts_reach (a ∷ rcpts) rest c is e =
      let (d, path, (input, served, msg)) =
        rcpts_reach rcpts rest (named a (rcpt_lines rcpts rest) c) is.1 refl in
      (
        d,
        goes (rcpt_round a (rcpt_lines rcpts rest) c is.0 e) path,
        (
          input,
          served,
          msg
              ∙ ap (λ (to : List (Option A)). record c.msg { to = to })
                  (append_assoc c.msg.to (env.parse_address a ∷ []) (map env.parse_address rcpts)),
        ),
      )

  Reaches-trans :
      {s t u : State} {c d e : Conn A H}
      → Reaches env s c t d
      → Reaches env t d u e
      → Reaches env s c u e
  Reaches-trans stops q = q
  Reaches-trans (goes h p) q = goes h (Reaches-trans p q)

  -- A client that says HELO with a name, gives a sender and any number of recipients, and sends a text that
  -- net/mail can read as a message, with the dots at the starts of its lines doubled, has exactly that
  -- message handed to the handlers, with the sender, all recipients in order and the name, and with the
  -- buffer that the connection's message had, where that message has no recipient yet and the connection
  -- has used fewer than 100 commands; what follows is left to read.
  pub client-Reaches :
      (domain a : Text) (rcpts ls : List Text) (rest : Text) (header : H) (body : Text)
      (c : Conn A H)
      → IsLine domain
      → is_empty domain ≡ false
      → IsLine a
      → All IsLine rcpts
      → All IsLine ls
      → env.read_message (join_lines ls) ≡ some (header, body)
      → c.i < 100
      → c.msg.to ≡ []
      → c.input ≡ client_text domain a rcpts ls rest
      → (d : Conn A H) × Reaches env start_state c loop_state d
        × (d.served
            ≡ c.served
              ++ (record {
                from = env.parse_address a;
                to = map env.parse_address rcpts;
                domain = domain;
                header = some header;
                buffer = c.msg.buffer;
                body = body;
              }
                  ∷ []))
        × (d.input ≡ rest)
  unfolding Named print_line asked handed reset
  client-Reaches domain a rcpts ls rest header body c is_domain full is_a is_rcpts is_ls message few
        fresh e =
      let behind : Text = line_of (codes "DATA") (write_dot ls rest) in
      let greeted : Conn A H =
        print_line (codes "250 Hello " ++ (domain ++ codes ", I am glad to meet you")) (
          greet domain (
            took (codes "HELO " ++ domain)
              (line_of (codes "MAIL FROM:" ++ a) (rcpt_lines rcpts behind))
              (print_line (codes "220 " ++ env.banner) c))) in
      let (d, path, (input, served, msg)) =
        rcpts_reach rcpts behind (asked a (rcpt_lines rcpts behind) greeted) is_rcpts refl in
      (
        handed (join_lines ls) rest header body (took (codes "DATA") (write_dot ls rest) d),
        goes (start_round c) (
            goes
              (hello_round domain (line_of (codes "MAIL FROM:" ++ a) (rcpt_lines rcpts behind))
                (print_line (codes "220 " ++ env.banner) c) is_domain full e)
              (goes (mail_round a (rcpt_lines rcpts behind) greeted is_a few refl) (
                Reaches-trans path
                  (goes (data_round ls rest header body d is_ls message input) stops)))),
        ap₂
            (λ (before : List (Message A H)) (m : Message A H).
              before ++ (record m { header = some header; body = body } ∷ []))
            served
            (msg
              ∙ ap
                  (λ (to : List (Option A)). record greeted.msg {
                    from = env.parse_address a;
                    to = to ++ map env.parse_address rcpts;
                  })
                  fresh),
        refl,
      )
