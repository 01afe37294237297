-- ===== src/Smtp/Fine.antt =====
-- services/smtp/conn.go: which commands can panic.
use honeytrap.Base.{
  ℕ, ◌+◌, ◌≡◌, ◌≤◌, ◌<◌, ◌⊎◌, inl, inr, ◌↔◌, refl, arith, sym, ap, ◌∙◌, Bool, true, false, List, [],
  ◌∷◌, ◌++◌, length, take, ltb, ◌==◌, Option, none, some, Bool-cases,
}
use honeytrap.Base.Bytes.{All}
use honeytrap.Base.Run.{returns, panics, starves}
use honeytrap.Base.Text.{Text, codes, to_upper, split, on_head}
use honeytrap.Base.Lines.{read_dot, begin_line, has_prefix}
use honeytrap.Smtp.{
  bad_message, bad_chunks, Fault, Env, Conn, is_command, print_line, is_last, parse_count,
}
use honeytrap.Smtp.Session.{
  Next, accepted, accept, on_rcpt, copied, on_parts, on_bdat, on_block, on_data, mail_from_line,
  on_mail, on_starttls, loop_command, loop_line, on_helo, on_ehlo, hello_line,
}

pub length-to_upper : (s : Text) → length (to_upper s) ≡ length s
unfolding to_upper
length-to_upper [] = refl
length-to_upper (c ∷ s) = omega (arith, length-to_upper s)

-- A prefix that is as long as the whole.
prefix_whole : (s p : Text) → has_prefix s p ≡ true → length s ≤ length p → s ≡ p
unfolding has_prefix
prefix_whole [] [] h l = refl
prefix_whole (c ∷ s) [] h l = absurd (omega arith)
prefix_whole [] (q ∷ p) h l = absurd (ground arith)
prefix_whole (c ∷ s) (q ∷ p) h l = ground (arith, prefix_whole s p)

pub whole_command :
    (line cmd : Text) → is_command line cmd ≡ true → length line ≤ length cmd → to_upper line ≡ cmd
whole_command line cmd h l =
    prefix_whole (to_upper line) cmd h (omega (arith, length-to_upper line))

length-on_head : (c : ℕ) (ps : List Text) → 0 < length ps → length (on_head c ps) ≡ length ps
length-on_head c [] h = absurd (omega arith)
length-on_head c (p ∷ ps) h = refl

split_pos : (sep : ℕ) (s : Text) → 0 < length (split sep s)
unfolding split
split_pos sep [] = omega arith
split_pos sep (c ∷ s) = elim (Bool-cases (c == sep)) [
  | inl equal ↦ rw equal (omega arith)
  | inr other ↦
      rw other (omega (arith, length-on_head c (split sep s) (split_pos sep s), split_pos sep s))
]

-- A text has one part exactly if the separator does not stand in it.
pub more_parts : (sep : ℕ) (s : Text) → (length (split sep s) ≡ 1) ↔ All (λ c. (c == sep) ≡ false) s
unfolding split
more_parts sep [] = (λ h. tt, λ h. refl)
more_parts sep (c ∷ s) = elim (Bool-cases (c == sep)) [
  | inl equal ↦ rw equal (λ h. absurd (omega (arith, h, split_pos sep s)), λ h. absurd (cc (h.0)))
  | inr other ↦ rw other (
    λ h. (refl, (more_parts sep s).0 (sym (length-on_head c (split sep s) (split_pos sep s)) ∙ h)),
    λ h. length-on_head c (split sep s) (split_pos sep s) ∙ (more_parts sep s).1 h.1,
  )
]

module _ {A H : Type 0} where
  abbrev pub is_panic : Next A H → Bool
  is_panic panics = true
  is_panic _ = false

  pub panics_iff : (r : Next A H) → (r ≡ panics) ↔ (is_panic r ≡ true)
  panics_iff r = (λ h. ap is_panic h, back r)
    where
      back : (r : Next A H) → is_panic r ≡ true → r ≡ panics
      back panics h = refl
      back starves h = absurd (cc h)
      back (returns x) h = absurd (cc h)

  module _ (env : Env A H) where
    accept_fine :
        (fault : Fault) (text : Text) (c : Conn A H) → is_panic (accept env fault text c) ≡ false
    unfolding accept
    accept_fine fault text c = by_message (env.read_message text)
      where
        by_message : (r : Option (H × Text)) → is_panic (accepted env fault text r c) ≡ false
        by_message none = unfold accepted in refl
        by_message (some (header, body)) = unfold accepted in refl

    on_data_fine : (c : Conn A H) → is_panic (on_data env c) ≡ false
    unfolding on_data on_block print_line
    on_data_fine c = by_block (read_dot begin_line c.input)
      where
        by_block :
            (r : Option (Text × Text))
            → is_panic (
                on_block env r
                  (print_line (codes "354 Enter message, ending with \".\" on a line by itself") c))
              ≡ false
        by_block none = refl
        by_block (some (text, rest)) = accept_fine bad_message text _

    on_starttls_fine : (c : Conn A H) → is_panic (on_starttls env c) ≡ false
    unfolding on_starttls print_line
    on_starttls_fine c = ground arith

    copied_fine :
        (last : Bool) (r : Option ℕ) (c : Conn A H) → is_panic (copied env last r c) ≡ false
    unfolding copied print_line
    copied_fine last none c = refl
    copied_fine last (some n) c = elim (Bool-cases (ltb (length c.input) n)) [
      | inl short ↦ rw short refl
      | inr enough ↦ elim (Bool-cases last) [
        | inl done ↦ rw (enough, done) (accept_fine bad_chunks (c.msg.buffer ++ take n c.input) _)
        | inr more ↦ rw (enough, more) refl
      ]
    ]

    pub hello_fine : (line : Text) (c : Conn A H) → is_panic (hello_line env line c) ≡ false
    unfolding hello_line on_helo on_ehlo
    hello_fine line c = ground arith

    pub loop_panics :
        (line : Text) (c : Conn A H)
        → is_panic (loop_line env line c) ≡ true
        → (c.i < 100) × (is_command line (codes "MAIL FROM") ≡ true) × (length line < 10)
    unfolding loop_line loop_command on_mail print_line
    loop_panics line c h = ground (arith, on_starttls_fine (record c { i = c.i + 1 }))

    on_bdat_panics :
        (line : Text) (c : Conn A H)
        → is_panic (on_bdat env line c) ≡ true
        → length (split 32 line) ≡ 1
    unfolding on_bdat on_parts
    on_bdat_panics line c h = by_parts (split 32 line) (split_pos 32 line) h
      where
        by_parts :
            (parts : List Text)
            → 0 < length parts
            → is_panic (on_parts env parts c) ≡ true
            → length parts ≡ 1
        by_parts [] k e = absurd (omega arith)
        by_parts (a ∷ []) k e = refl
        by_parts (a ∷ b ∷ rest) k e =
            absurd (cc (sym e ∙ copied_fine (is_last (a ∷ b ∷ rest)) (parse_count b) c))

    pub bdat_panics :
        (line : Text) (c : Conn A H)
        → length (split 32 line) ≡ 1
        → is_panic (on_bdat env line c) ≡ true
    unfolding on_bdat on_parts
    bdat_panics line c h = by_parts (split 32 line) h
      where
        by_parts : (parts : List Text) → length parts ≡ 1 → is_panic (on_parts env parts c) ≡ true
        by_parts [] e = absurd (omega arith)
        by_parts (a ∷ []) e = refl
        by_parts (a ∷ b ∷ rest) e = absurd (omega arith)

    pub mail_panics :
        (line : Text) (c : Conn A H)
        → is_panic (mail_from_line env line c) ≡ true
        → ((is_command line (codes "RCPT TO") ≡ true) × (length line < 8))
          ⊎ ((is_command line (codes "BDAT") ≡ true) × (length (split 32 line) ≡ 1))
    unfolding mail_from_line on_rcpt print_line
    mail_panics line c h = ground (arith, on_data_fine c, on_bdat_panics line c)
