-- ===== src/Smtp/Lines.antt =====
-- services/smtp/conn.go: each command makes a move of the diagram and uses input up.
use honeytrap.Base.{
  ℕ, ◌+◌, ◌*◌, ◌<◌, inl, inr, refl, arith, Bool, ◌||◌, List, [], ◌∷◌, ◌++◌, length, take,
  length-drop, ltb, ◌==◌, Option, none, some, Bool-cases,
}
use honeytrap.Base.Text.{Text, codes, is_empty, trim, split}
use honeytrap.Base.Lines.{read_dot, begin_line, Shortens, read_dot-Shortens}
use honeytrap.Smtp.{
  Fault, bad_chunks, bad_message, Env, Conn, hello_state, loop_state, mail_from_state,
  loop_treshold, is_command, parse_hello_argument, slice, parse_count, is_last, print_line, reset,
}
use honeytrap.Smtp.Session.{
  with_rest, say, accepted, accept, on_rcpt, copied, on_parts, on_bdat, on_block, on_data,
  mail_from_line, on_mail, shaken, on_starttls, loop_command, loop_line, on_helo, on_ehlo,
  hello_line,
}
use honeytrap.Smtp.Diagram.{
  welcomes, refuses, goes_on, opens, upgrades, wonders, tires, quits, collects, closes, strays,
  spoils, weight, size, After,
}

module _ {A H : Type 0} (env : Env A H) where
  accept-After :
      (fault : Fault) (text : Text) (c : Conn A H) (m : ℕ)
      → 2 * size c + 1 < m
      → After mail_from_state m c.served (accept env fault text c)
  unfolding accept accepted print_line reset
  accept-After fault text c m h = accepted-After (env.read_message text)
    where
      accepted-After :
          (r : Option (H × Text)) → After mail_from_state m c.served (accepted env fault text r c)
      accepted-After none = (spoils, omega arith, inl refl)
      accepted-After (some (header, body)) = (closes, omega arith, inr (refl, refl, _, refl))

  on_rcpt-After :
      (line : Text) (c : Conn A H) (m : ℕ)
      → 2 * size c + 1 < m
      → After mail_from_state m c.served (on_rcpt env line c)
  unfolding on_rcpt print_line
  on_rcpt-After line c m h = by_slice (slice 8 line)
    where
      by_slice :
          (r : Option Text)
          → After mail_from_state m c.served (
              with_rest r (λ arg. say "250 Ok" mail_from_state (record c {
                msg = record c.msg { to = c.msg.to ++ (env.parse_address arg ∷ []) };
              })))
      by_slice none = tt
      by_slice (some arg) = (collects, omega arith, inl refl)

  copied-After :
      (last : Bool) (r : Option ℕ) (c : Conn A H) (m : ℕ)
      → 2 * size c + 1 < m
      → After mail_from_state m c.served (copied env last r c)
  unfolding copied print_line
  copied-After last none c m h = (spoils, omega arith, inl refl)
  copied-After last (some n) c m h = elim (Bool-cases (ltb (length c.input) n)) [
    | inl short ↦ rw short (spoils, omega (arith, length-drop n c.input), inl refl)
    | inr enough ↦ elim (Bool-cases last) [
      | inl done ↦
          rw (enough, done)
            (accept-After bad_chunks (c.msg.buffer ++ take n c.input) _ m
              (omega (arith, length-drop n c.input)))
      | inr more ↦ rw (enough, more) (collects, omega (arith, length-drop n c.input), inl refl)
    ]
  ]

  on_bdat-After :
      (line : Text) (c : Conn A H) (m : ℕ)
      → 2 * size c + 1 < m
      → After mail_from_state m c.served (on_bdat env line c)
  unfolding on_bdat on_parts
  on_bdat-After line c m h = by_parts (split 32 line)
    where
      by_parts : (parts : List Text) → After mail_from_state m c.served (on_parts env parts c)
      by_parts [] = tt
      by_parts (a ∷ []) = tt
      by_parts (a ∷ b ∷ rest) = copied-After (is_last (a ∷ b ∷ rest)) (parse_count b) c m h

  on_data-After :
      (c : Conn A H) (m : ℕ) → 2 * size c + 1 < m → After mail_from_state m c.served (on_data env c)
  unfolding on_data on_block print_line
  on_data-After c m h =
      by_block (read_dot begin_line c.input) (read_dot-Shortens begin_line c.input)
    where
      said : Conn A H
      said = print_line (codes "354 Enter message, ending with \".\" on a line by itself") c

      by_block :
          (r : Option (Text × Text))
          → Shortens c.input r
          → After mail_from_state m c.served (on_block env r said)
      by_block none k = (spoils, omega arith, inl refl)
      by_block (some (text, rest)) k =
          accept-After bad_message text (record said { input = rest }) m (omega arith)

  pub mail_from_line-After :
      (line : Text) (c : Conn A H) (m : ℕ)
      → 2 * size c + 2 < m
      → After mail_from_state m c.served (mail_from_line env line c)
  unfolding mail_from_line print_line reset
  mail_from_line-After line c m h = elim (Bool-cases (is_empty line)) [
    | inl empty ↦ rw empty (closes, omega arith, inl refl)
    | inr full ↦ elim (Bool-cases (is_command line (codes "RSET"))) [
      | inl rset ↦ rw (full, rset) (closes, omega arith, inl refl)
      | inr n1 ↦ elim (Bool-cases (is_command line (codes "RCPT TO"))) [
        | inl rcpt ↦ rw (full, n1, rcpt) (on_rcpt-After line c m (omega arith))
        | inr n2 ↦ elim (Bool-cases (is_command line (codes "BDAT"))) [
          | inl bdat ↦ rw (full, n1, n2, bdat) (on_bdat-After line c m (omega arith))
          | inr n3 ↦ elim (Bool-cases (is_command line (codes "DATA"))) [
            | inl has_data ↦ rw (full, n1, n2, n3, has_data) (on_data-After c m (omega arith))
            | inr n4 ↦ rw (full, n1, n2, n3, n4) (strays, omega arith, inl refl)
          ]
        ]
      ]
    ]
  ]

  on_mail-After :
      (line : Text) (c : Conn A H) (m : ℕ)
      → 2 * size c + 1 < m
      → After loop_state m c.served (on_mail env line c)
  unfolding on_mail print_line
  on_mail-After line c m h = by_slice (slice 10 line)
    where
      by_slice :
          (r : Option Text)
          → After loop_state m c.served (
              with_rest r (λ arg.
                say "250 Ok" mail_from_state
                  (record c { msg = record c.msg { from = env.parse_address arg } })))
      by_slice none = tt
      by_slice (some arg) = (opens, omega arith, inl refl)

  on_starttls-After :
      (c : Conn A H) (m : ℕ) → 2 * size c + 2 < m → After loop_state m c.served (on_starttls env c)
  unfolding on_starttls print_line
  on_starttls-After c m h = elim (Bool-cases env.has_tls) [
    | inl tls ↦ rw tls (by_handshake c.handshakes (omega arith))
    | inr plain ↦ rw plain (quits, omega arith, inl refl)
  ]
    where
      by_handshake :
          (hs : List (Option Text))
          → 2 * weight hs + 2 < m
          → After loop_state m c.served (shaken hs (print_line (codes "220 Ready to start TLS") c))
      by_handshake [] k = (quits, omega arith, inl refl)
      by_handshake (none ∷ hs) k = (quits, omega arith, inl refl)
      by_handshake (some t ∷ hs) k = (upgrades, omega arith, inl refl)

  loop_command-After :
      (line : Text) (c : Conn A H) (m : ℕ)
      → 2 * size c + 2 < m
      → After loop_state m c.served (loop_command env line c)
  unfolding loop_command print_line reset
  loop_command-After line c m h = elim (Bool-cases (ltb loop_treshold c.i)) [
    | inl over ↦ rw over (tires, omega arith, inl refl)
    | inr under ↦ elim (Bool-cases (is_command line (codes "MAIL FROM"))) [
      | inl mail ↦ rw (under, mail) (on_mail-After line c m (omega arith))
      | inr n1 ↦ elim (Bool-cases (is_command line (codes "STARTTLS"))) [
        | inl tls ↦ rw (under, n1, tls) (on_starttls-After c m h)
        | inr n2 ↦ elim (Bool-cases (is_command line (codes "RSET"))) [
          | inl rset ↦ rw (under, n1, n2, rset) (goes_on, omega arith, inl refl)
          | inr n3 ↦ elim (Bool-cases (is_command line (codes "QUIT"))) [
            | inl quit ↦ rw (under, n1, n2, n3, quit) (quits, omega arith, inl refl)
            | inr n4 ↦ elim (Bool-cases (is_command line (codes "NOOP"))) [
              | inl noop ↦ rw (under, n1, n2, n3, n4, noop) (goes_on, omega arith, inl refl)
              | inr n5 ↦
                  elim (Bool-cases (is_empty (trim (λ b. b == 32 || b == 13 || b == 10) line))) [
                    | inl blank ↦
                        rw (under, n1, n2, n3, n4, n5, blank) (goes_on, omega arith, inl refl)
                    | inr other ↦
                        rw (under, n1, n2, n3, n4, n5, other) (wonders, omega arith, inl refl)
                  ]
            ]
          ]
        ]
      ]
    ]
  ]

  pub loop_line-After :
      (line : Text) (c : Conn A H) (m : ℕ)
      → 2 * size c + 2 < m
      → After loop_state m c.served (loop_line env line c)
  unfolding loop_line
  loop_line-After line c m h = elim (Bool-cases (is_empty line)) [
    | inl empty ↦ rw empty (goes_on, omega arith, inl refl)
    | inr full ↦ rw full (loop_command-After line (record c { i = c.i + 1 }) m h)
  ]

  pub hello_line-After :
      (line : Text) (c : Conn A H) (m : ℕ)
      → 2 * size c + 1 < m
      → After hello_state m c.served (hello_line env line c)
  unfolding hello_line on_helo on_ehlo print_line
  hello_line-After line c m h = elim (Bool-cases (is_command line (codes "HELO"))) [
    | inl helo ↦ rw helo (by_helo (parse_hello_argument line))
    | inr n1 ↦ elim (Bool-cases (is_command line (codes "EHLO"))) [
      | inl ehlo ↦ rw (n1, ehlo) (by_ehlo (parse_hello_argument line))
      | inr n2 ↦ rw (n1, n2) (refuses, omega arith, inl refl)
    ]
  ]
    where
      by_helo : (r : Option Text) → After hello_state m c.served (on_helo env r c)
      by_helo none = (refuses, omega arith, inl refl)
      by_helo (some domain) = (welcomes, omega arith, inl refl)

      by_ehlo : (r : Option Text) → After hello_state m c.served (on_ehlo env r c)
      by_ehlo none = (refuses, omega arith, inl refl)
      by_ehlo (some domain) = (welcomes, omega arith, inl refl)
