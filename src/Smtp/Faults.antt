-- ===== src/Smtp/Faults.antt =====
-- services/smtp/conn.go: the lines on which a session panics.
use honeytrap.Base.{
  ℕ, ◌+◌, ◌≡◌, ◌<◌, ◌⊎◌, inl, inr, ◌↔◌, refl, arith, ap, ◌∙◌, true, false, [], ◌∷◌, length, ltb,
  ◌==◌, Option, none, some,
}
use honeytrap.Base.Bytes.{All}
use honeytrap.Base.Run.{panics}
use honeytrap.Base.Text.{Text, codes, is_empty, to_upper}
use honeytrap.Base.Lines.{read_line, has_prefix}
use honeytrap.Smtp.{
  got, Env, Conn, State, start_state, hello_state, loop_state, mail_from_state, unrecognized_state,
  error_state, is_command, slice, print_line, read_text,
}
use honeytrap.Smtp.Session.{
  Next, on_rcpt, mail_from_line, on_mail, loop_command, loop_line, hello_line, or_leave, or_empty,
  step,
}
use honeytrap.Smtp.Fine.{
  length-to_upper, whole_command, more_parts, is_panic, panics_iff, hello_fine, loop_panics,
  bdat_panics, mail_panics,
}

-- The lines on which a state panics.
abbrev pub Faulty : State → ℕ → Text → Type 0
Faulty loop_state i line = (i < 100) × (to_upper line ≡ codes "MAIL FROM")
Faulty mail_from_state i line =
    (to_upper line ≡ codes "RCPT TO")
    ⊎ ((is_command line (codes "BDAT") ≡ true) × All (λ c. (c == 32) ≡ false) line)
Faulty _ i line = ⊥

module _ {A H : Type 0} (env : Env A H) where
  loop_Faulty :
      (line : Text) (c : Conn A H)
      → is_panic (loop_line env line c) ≡ true
      → Faulty loop_state c.i line
  loop_Faulty line c h =
      let (few, mail, short) = loop_panics env line c h in
      (few, whole_command line (codes "MAIL FROM") mail (omega arith))

  mail_Faulty :
      (line : Text) (c : Conn A H)
      → is_panic (mail_from_line env line c) ≡ true
      → Faulty mail_from_state c.i line
  mail_Faulty line c h = elim (mail_panics env line c h) [
    | inl (rcpt, short) ↦ inl (whole_command line (codes "RCPT TO") rcpt (omega arith))
    | inr (bdat, single) ↦ inr (bdat, (more_parts 32 line).0 single)
  ]

  Faulty-loop :
      (line : Text) (c : Conn A H)
      → Faulty loop_state c.i line
      → is_panic (loop_line env line c) ≡ true
  unfolding loop_line loop_command on_mail has_prefix print_line
  Faulty-loop line c (few, whole) =
      let size : length line ≡ 9 =
        omega (arith, length-to_upper line, ap (λ (t : Text). length t) whole) in
      let full : is_empty line ≡ false = ground arith in
      let under : ltb 100 (c.i + 1) ≡ false = ground arith in
      let sliced : slice 10 line ≡ none = ground arith in rw (full, under, whole, sliced) refl

  -- What begins with one letter does not begin with another.
  other_prefix :
      (s p q : Text) (x y : ℕ)
      → (x == y) ≡ false
      → has_prefix s (x ∷ p) ≡ true
      → has_prefix s (y ∷ q) ≡ false
  unfolding has_prefix
  other_prefix [] p q x y e h = absurd (cc h)
  other_prefix (c ∷ s) p q x y e h = ground arith

  command_full :
      (line : Text) (q : ℕ) (p : Text) → is_command line (q ∷ p) ≡ true → is_empty line ≡ false
  unfolding has_prefix to_upper
  command_full [] q p h = absurd (cc h)
  command_full (c ∷ line) q p h = refl

  Faulty-mail :
      (line : Text) (c : Conn A H)
      → Faulty mail_from_state c.i line
      → is_panic (mail_from_line env line c) ≡ true
  unfolding mail_from_line on_rcpt has_prefix print_line
  Faulty-mail line c (inl whole) =
      let size : length line ≡ 7 =
        omega (arith, length-to_upper line, ap (λ (t : Text). length t) whole) in
      let full : is_empty line ≡ false = ground arith in
      let sliced : slice 8 line ≡ none = ground arith in rw (full, whole, sliced) refl
  Faulty-mail line c (inr (bdat, plain)) =
      let full : is_empty line ≡ false = command_full line 66 (codes "DAT") bdat in
      let rset = other_prefix (to_upper line) (codes "DAT") (codes "SET") 66 82 refl bdat in
      let rcpt = other_prefix (to_upper line) (codes "DAT") (codes "CPT TO") 66 82 refl bdat in
      rw (full, rset, rcpt, bdat) (bdat_panics env line c ((more_parts 32 line).1 plain))

  -- A state that ends where it cannot read panics on the lines of its function.
  reads_iff :
      (f : Text → Conn A H → Next A H) (s : State) (c : Conn A H)
      → ((line : Text) (d : Conn A H) → is_panic (f line d) ≡ true → Faulty s d.i line)
      → ((line : Text) (d : Conn A H) → Faulty s d.i line → is_panic (f line d) ≡ true)
      → (or_leave f (got (read_line c.input) c) ≡ panics) ↔ (
          (line : Text) × (rest : Text) × (read_line c.input ≡ some (line, rest))
          × Faulty s c.i line)
  reads_iff f s c there back = (
    forth (read_line c.input),
    λ (line, rest, e, faulty).
        ap (λ r. or_leave f (got r c)) e ∙ (panics_iff (f line _)).1 (back line _ faulty),
  )
    where
      forth :
          (r : Option (Text × Text))
          → or_leave f (got r c) ≡ panics
          → (line : Text) × (rest : Text) × (r ≡ some (line, rest)) × Faulty s c.i line
      forth none h = absurd (cc ((panics_iff (or_leave f (got none c))).0 h))
      forth (some (line, rest)) h = (line, rest, refl, there line _ ((panics_iff (f line _)).0 h))

  -- A session panics exactly where the loop, with fewer than 100 commands behind it, reads a line that is
  -- MAIL FROM and nothing else, or where the state behind it reads a line that is RCPT TO and nothing else,
  -- or one that begins with BDAT and has no blank; in letters of either case.
  pub step_panics :
      (s : State) (c : Conn A H)
      → (step env s c ≡ panics) ↔ (
          (line : Text) × (rest : Text) × (read_line c.input ≡ some (line, rest))
          × Faulty s c.i line)
  unfolding step read_text
  step_panics loop_state c = reads_iff (loop_line env) loop_state c (loop_Faulty) (Faulty-loop)
  step_panics mail_from_state c =
      reads_iff (mail_from_line env) mail_from_state c mail_Faulty Faulty-mail
  step_panics start_state c =
      (λ h. absurd (cc ((panics_iff (step env start_state c)).0 h)), λ h. elim h.3 [ ])
  step_panics unrecognized_state c =
      (λ h. absurd (cc ((panics_iff (step env unrecognized_state c)).0 h)), λ h. elim h.3 [ ])
  step_panics (error_state f) c =
      (λ h. absurd (cc ((panics_iff (step env (error_state f) c)).0 h)), λ h. elim h.3 [ ])
  step_panics hello_state c = (λ h. absurd (no_hello (read_line c.input) h), λ h. elim h.3 [ ])
    where
      no_hello : (r : Option (Text × Text)) → or_empty (hello_line env) (got r c) ≡ panics → ⊥
      no_hello none h = cc ((panics_iff _).0 h, hello_fine env [] _)
      no_hello (some (line, rest)) h = cc ((panics_iff _).0 h, hello_fine env line _)
