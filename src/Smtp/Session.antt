-- ===== src/Smtp/Session.antt =====
-- services/smtp/conn.go: the state functions and the loop over them.
use honeytrap.Base.{
  ℕ, zero, suc, ◌+◌, Bool, ◌||◌, List, [], ◌∷◌, ◌++◌, length, take, drop, ltb, ◌==◌, if◌then◌else◌,
  Option, none, some,
}
use Prim.Native.String.{String}
use honeytrap.Base.Run.{Run, returns, panics, starves}
use honeytrap.Base.Text.{Text, codes, is_empty, trim, split}
use honeytrap.Base.Lines.{read_dot, begin_line}
use honeytrap.Smtp.{
  Fault, no_domain, no_hello, too_many, bad_count, short_copy, bad_chunks, open_block, bad_message,
  Env, Conn, State, start_state, hello_state, loop_state, mail_from_state, unrecognized_state,
  error_state, loop_treshold, is_command, parse_hello_argument, slice, parse_count, is_last,
  print_line, read_text, reset,
}

-- What a state function does: it panics, or gives the next state beside the connection.
abbrev pub Next : Type 0 → Type 0 → Type 0
Next A H = Run (Option State × Conn A H)

module _ {A H : Type 0} where
  abbrev pub stay : State → Conn A H → Next A H
  stay s c = returns (some s, c)

  abbrev pub leave : Conn A H → Next A H
  leave c = returns (none, c)

  abbrev pub say : String → State → Conn A H → Next A H
  unfolding print_line
  say line s c = returns (some s, print_line (codes line) c)

  -- The rest of a line, whose slice may panic.
  abbrev pub with_rest : Option Text → (Text → Next A H) → Next A H
  with_rest none f = panics
  with_rest (some arg) f = f arg

  abbrev pub greet : Text → Conn A H → Conn A H
  greet domain c = record c { domain = domain; msg = record c.msg { domain = domain } }

  -- The handshake is made on the raw connection: what was read ahead is lost.
  abbrev pub shaken : List (Option Text) → Conn A H → Next A H
  shaken [] c = leave c
  shaken (none ∷ hs) c = leave (record c { handshakes = hs })
  shaken (some input ∷ hs) c = stay hello_state (record c { input = input; handshakes = hs })

  -- A line for a state that ends the session where it cannot read.
  abbrev pub or_leave : (Text → Conn A H → Next A H) → Option Text × Conn A H → Next A H
  or_leave f (none, c) = leave c
  or_leave f (some line, c) = f line c

  -- `helloState` does not look at the error: the line is empty then.
  abbrev pub or_empty : (Text → Conn A H → Next A H) → Option Text × Conn A H → Next A H
  or_empty f (none, c) = f [] c
  or_empty f (some line, c) = f line c

  -- `serve`: a round of the loop over the states.
  abbrev pub go_on : (State → Conn A H → Run (Conn A H)) → Next A H → Run (Conn A H)
  go_on f panics = panics
  go_on f starves = starves
  go_on f (returns (none, c)) = returns c
  go_on f (returns (some s, c)) = f s c

module _ {A H : Type 0} (env : Env A H) where
  -- `Message.Read`, the reply with the hash, and the handlers. A text that is no message becomes the body
  -- as it is; the buffer stays as it was.
  unfoldable pub accepted : Fault → Text → Option (H × Text) → Conn A H → Next A H
  unfolding print_line reset
  accepted fault text none c =
      stay (error_state fault) (record c { msg = record c.msg { body = text } })
  accepted fault text (some (header, body)) c =
      let d = print_line (codes "250 Ok : queued as +" ++ env.hash text) c in
      let m = record d.msg { header = some header; body = body } in
      stay loop_state (reset (record d { served = d.served ++ (m ∷ []) }))

  unfoldable pub accept : Fault → Text → Conn A H → Next A H
  unfolding accepted
  accept fault text c = accepted fault text (env.read_message text) c

  unfoldable pub on_rcpt : Text → Conn A H → Next A H
  on_rcpt line c = with_rest (slice 8 line) (λ arg.
      say "250 Ok" mail_from_state
        (record c { msg = record c.msg { to = c.msg.to ++ (env.parse_address arg ∷ []) } }))

  -- `io.CopyN` into the buffer; `last` says whether the message is complete: then the buffer is read out.
  unfoldable pub copied : Bool → Option ℕ → Conn A H → Next A H
  unfolding accept
  copied last none c = stay (error_state bad_count) c
  copied last (some n) c =
      let d = record c {
        input = drop n c.input;
        msg = record c.msg { buffer = c.msg.buffer ++ take n c.input };
      } in
      if ltb (length c.input) n
      then stay (error_state short_copy) d
      else if last
      then accept bad_chunks d.msg.buffer (record d { msg = record d.msg { buffer = [] } })
      else say "250 Ok" mail_from_state d

  -- The parts of a BDAT line: a line without a blank has no second part.
  unfoldable pub on_parts : List Text → Conn A H → Next A H
  unfolding copied parse_count
  on_parts (a ∷ b ∷ rest) c = copied (is_last (a ∷ b ∷ rest)) (parse_count b) c
  on_parts _ c = panics

  unfoldable pub on_bdat : Text → Conn A H → Next A H
  unfolding on_parts
  on_bdat line c = on_parts (split 32 line) c

  unfoldable pub on_block : Option (Text × Text) → Conn A H → Next A H
  unfolding accept
  on_block none c = stay (error_state open_block) c
  on_block (some (text, rest)) c = accept bad_message text (record c { input = rest })

  unfoldable pub on_data : Conn A H → Next A H
  unfolding on_block print_line
  on_data c =
      let d = print_line (codes "354 Enter message, ending with \".\" on a line by itself") c in
      on_block (read_dot begin_line d.input) d

  unfoldable pub mail_from_line : Text → Conn A H → Next A H
  unfolding on_rcpt on_bdat on_data reset
  mail_from_line line c =
      if is_empty line
      then stay loop_state c
      else if is_command line (codes "RSET")
      then stay loop_state (reset (print_line (codes "250 Ok") c))
      else if is_command line (codes "RCPT TO")
      then on_rcpt line c
      else if is_command line (codes "BDAT")
      then on_bdat line c
      else if is_command line (codes "DATA")
      then on_data c
      else stay unrecognized_state c

  unfoldable pub on_mail : Text → Conn A H → Next A H
  on_mail line c = with_rest (slice 10 line) (λ arg.
      say "250 Ok" mail_from_state
        (record c { msg = record c.msg { from = env.parse_address arg } }))

  unfoldable pub on_starttls : Conn A H → Next A H
  unfolding print_line
  on_starttls c =
      let d = print_line (codes "220 Ready to start TLS") c in
      if env.has_tls then shaken d.handshakes d else leave d

  unfoldable pub loop_command : Text → Conn A H → Next A H
  unfolding on_mail on_starttls reset
  loop_command line c =
      if ltb loop_treshold c.i
      then stay (error_state too_many) c
      else if is_command line (codes "MAIL FROM")
      then on_mail line c
      else if is_command line (codes "STARTTLS")
      then on_starttls c
      else if is_command line (codes "RSET")
      then say "250 Ok" loop_state (reset c)
      else if is_command line (codes "QUIT")
      then leave (print_line (codes "221 Bye") c)
      else if is_command line (codes "NOOP")
      then say "250 Ok" loop_state c
      else if is_empty (trim (λ b. b == 32 || b == 13 || b == 10) line)
      then stay loop_state c
      else stay unrecognized_state c

  unfoldable pub loop_line : Text → Conn A H → Next A H
  unfolding loop_command
  loop_line line c =
      if is_empty line then stay loop_state c else loop_command line (record c { i = c.i + 1 })

  unfoldable pub on_helo : Option Text → Conn A H → Next A H
  unfolding print_line
  on_helo none c = stay (error_state no_domain) c
  on_helo (some domain) c = stay loop_state (
      print_line (codes "250 Hello " ++ (domain ++ codes ", I am glad to meet you"))
        (greet domain c))

  unfoldable pub on_ehlo : Option Text → Conn A H → Next A H
  unfolding print_line
  on_ehlo none c = stay (error_state no_domain) c
  on_ehlo (some domain) c = stay loop_state (
      print_line (codes "250 SMTPUTF8") (
        print_line (codes "250-CHUNKING") (
          print_line (codes "250-PIPELINING") (
            print_line (codes "250-ENHANCEDSTATUSCODES") (
              print_line (codes "250-STARTTLS") (
                print_line (codes "250-8BITMIME") (
                  print_line (codes "250-SIZE 35882577")
                    (print_line (codes "250-Hello " ++ domain) (greet domain c)))))))))

  unfoldable pub hello_line : Text → Conn A H → Next A H
  unfolding on_helo on_ehlo parse_hello_argument
  hello_line line c =
      if is_command line (codes "HELO")
      then on_helo (parse_hello_argument line) c
      else if is_command line (codes "EHLO")
      then on_ehlo (parse_hello_argument line) c
      else stay (error_state no_hello) c

  unfoldable pub step : State → Conn A H → Next A H
  unfolding mail_from_line loop_line hello_line read_text print_line
  step start_state c = stay hello_state (print_line (codes "220 " ++ env.banner) c)
  step hello_state c = or_empty hello_line (read_text c)
  step loop_state c = or_leave loop_line (read_text c)
  step mail_from_state c = or_leave mail_from_line (read_text c)
  step unrecognized_state c = say "500 unrecognized command" loop_state c
  step (error_state fault) c = leave (print_line (codes "500 " ++ env.error_text fault) c)

  -- `serve`: the loop over the states, within `fuel` rounds.
  unfoldable pub serve_from : ℕ → State → Conn A H → Run (Conn A H)
  unfolding step
  serve_from zero s c = starves
  serve_from (suc fuel) s c = go_on (λ t d. serve_from fuel t d) (step s c)

  unfoldable pub serve : ℕ → Conn A H → Run (Conn A H)
  unfolding serve_from
  serve fuel c = serve_from fuel start_state c
