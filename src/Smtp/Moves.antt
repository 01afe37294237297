-- ===== src/Smtp/Moves.antt =====
-- services/smtp/conn.go: a session follows the diagram, and ends.
use honeytrap.Base.{
  ℕ, zero, suc, ◌+◌, ◌*◌, ◌≢◌, ◌≤◌, ◌<◌, inl, refl, arith, subst, List, [], length, Option, none,
  some,
}
use honeytrap.Base.Run.{Run, returns, panics, starves}
use honeytrap.Base.Text.{Text}
use honeytrap.Base.Lines.{read_line, Shortens, read_line-Shortens}
use honeytrap.Smtp.{
  got, Message, Env, Conn, State, start_state, hello_state, loop_state, mail_from_state,
  unrecognized_state, error_state, print_line, read_text,
}
use honeytrap.Smtp.Session.{
  Next, mail_from_line, loop_line, hello_line, or_leave, or_empty, step, go_on, serve_from, serve,
}
use honeytrap.Smtp.Diagram.{
  greets, quits, hangs_up, recovers, stops, weight, rank, size, left, After,
}
use honeytrap.Smtp.Lines.{mail_from_line-After, loop_line-After, hello_line-After}

module _ {A H : Type 0} (env : Env A H) where
  mail-After :
      (c : Conn A H) → After mail_from_state (1 + 2 * size c) c.served (step env mail_from_state c)
  unfolding step read_text
  mail-After c = by_line (read_line c.input) (read_line-Shortens c.input)
    where
      by_line :
          (r : Option (Text × Text))
          → Shortens c.input r
          → After mail_from_state
              (1 + 2 * size c)
              c.served
              (or_leave (mail_from_line env) (got r c))
      by_line none k = (hangs_up, omega arith, inl refl)
      by_line (some (line, rest)) k = mail_from_line-After env line _ (1 + 2 * size c) (omega arith)

  loop-After : (c : Conn A H) → After loop_state (1 + 2 * size c) c.served (step env loop_state c)
  unfolding step read_text
  loop-After c = by_line (read_line c.input) (read_line-Shortens c.input)
    where
      by_line :
          (r : Option (Text × Text))
          → Shortens c.input r
          → After loop_state (1 + 2 * size c) c.served (or_leave (loop_line env) (got r c))
      by_line none k = (quits, omega arith, inl refl)
      by_line (some (line, rest)) k = loop_line-After env line _ (1 + 2 * size c) (omega arith)

  hello-After :
      (c : Conn A H) → After hello_state (2 + 2 * size c) c.served (step env hello_state c)
  unfolding step read_text
  hello-After c = by_line (read_line c.input) (read_line-Shortens c.input)
    where
      by_line :
          (r : Option (Text × Text))
          → Shortens c.input r
          → After hello_state (2 + 2 * size c) c.served (or_empty (hello_line env) (got r c))
      by_line none k = hello_line-After env [] _ (2 + 2 * size c) (omega arith)
      by_line (some (line, rest)) k = hello_line-After env line _ (2 + 2 * size c) (omega arith)

  -- Each round of a session that does not panic makes a move of the diagram; it serves one message, on a
  -- move from the state behind MAIL FROM back to the loop, or none; and either it uses up input or it comes
  -- closer to a state that does.
  pub step-After :
      (s : State) (c : Conn A H)
      → After s (1 + rank s + 2 * (length c.input + weight c.handshakes)) c.served (step env s c)
  unfolding print_line
  step-After start_state c = unfold step in (greets, omega arith, inl refl)
  step-After hello_state c = hello-After c
  step-After loop_state c = loop-After c
  step-After mail_from_state c = mail-After c
  step-After unrecognized_state c = unfold step in (recovers, omega arith, inl refl)
  step-After (error_state fault) c = unfold step in (stops, omega arith, inl refl)

  pub Finishes : Run (Conn A H) → Type 0
  Finishes (returns d) = Unit
  Finishes panics = Unit
  Finishes starves = ⊥

  round-Finishes :
      (s : State) (m : ℕ) (before : List (Message A H)) (f : State → Conn A H → Run (Conn A H))
      (r : Next A H)
      → After s m before r
      → ((t : State) (d : Conn A H) → left (some t) d < m → Finishes (f t d))
      → Finishes (go_on f r)
  unfolding Finishes
  round-Finishes s m before f panics a ih = tt
  round-Finishes s m before f starves a ih = a
  round-Finishes s m before f (returns (none, d)) a ih = tt
  round-Finishes s m before f (returns (some t, d)) a ih = ih t d a.1

  serve_from-Finishes :
      (fuel : ℕ) (s : State) (c : Conn A H)
      → left (some s) c ≤ fuel
      → Finishes (serve_from env fuel s c)
  unfolding serve_from
  serve_from-Finishes zero s c h = absurd (omega arith)
  serve_from-Finishes (suc fuel) s c h =
      round-Finishes s (left (some s) c) c.served (serve_from env fuel) (step env s c)
        (step-After s c) (λ t d k. serve_from-Finishes fuel t d (omega arith))

-- Every session ends, or panics: within two rounds for each byte that is left to read and each handshake,
-- and three more.
pub serve-ne-starves :
    {A H : Type 0} (env : Env A H) (fuel : ℕ) (c : Conn A H)
    → 3 + 2 * (length c.input + weight c.handshakes) ≤ fuel
    → serve env fuel c ≢ starves
unfolding serve Finishes
serve-ne-starves env fuel c h e =
    subst (Finishes env) e (serve_from-Finishes env fuel start_state c h)
