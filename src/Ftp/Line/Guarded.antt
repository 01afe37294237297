-- ===== src/Ftp/Line/Guarded.antt =====
-- services/ftp: what a line can change while nobody is logged in.
use honeytrap.Base.{
  ℕ, ◌≡◌, refl, arith, true, false, ◌&&◌, List, [], ◌∷◌, Option, none, some, ok, inl, inr, subst,
  ap, Bool-cases,
}
use honeytrap.Base.Bytes.{All}
use honeytrap.Base.Text.{Text, codes, is_empty, text_eq, to_upper}
use honeytrap.Ftp.Session.{Server, Network, Session, write_message}
use honeytrap.Ftp.Command.{Command}
use honeytrap.Ftp.Line.{commands, find_command, parse_line, answer, receive_line}
use honeytrap.Ftp.Line.Safe.{IsGuarded, IsReplied, Answers, IsSafe, commands-IsSafe}

find_command-All {κ} :
    {F : Type 0} (P : Command F → Type κ) (name : Text) (rows : List (Text × Command F))
    (c : Command F)
    → All (λ row. P (row.1)) rows
    → find_command name rows ≡ some c
    → P c
unfolding find_command
find_command-All P name [] c safe h = absurd (ground arith)
find_command-All P name ((n, d) ∷ more) c safe h = elim (Bool-cases (text_eq n name)) [
  | inl same ↦ subst P (ground arith) (safe.0)
  | inr other ↦ find_command-All P name more c (safe.1) (ground arith)
]

told-IsGuarded :
    {F : Type 0} (server : Server F) (param : Text) (code : ℕ) (message : Text) (conn : Session F)
    → IsGuarded server param conn (write_message code message conn)
told-IsGuarded server param code message conn = record {
  same_files = refl;
  same_sent = refl;
  no_data = λ h. h;
  same_user = inl refl;
}

answer-Answers :
    {F : Type 0} (server : Server F) (net : Network) (found : Option (Command F)) (param : Text)
    (conn : Session F)
    → is_empty conn.user ≡ true
    → ((c : Command F) → found ≡ some c → IsSafe c)
    → Answers server param conn (answer server net found param conn)
unfolding answer
answer-Answers server net none param conn u safe =
    (write_message 500 [] conn, refl, told-IsGuarded server param 500 [] conn, (_, refl))
answer-Answers server net (some c) param conn u safe =
    let lacking = codes "action aborted, required param missing" in
    elim (Bool-cases (c.require_param && is_empty param)) [
      | inl missing ↦ (
        write_message 553 lacking conn,
        rw missing refl,
        told-IsGuarded server param 553 lacking conn,
        (_, refl),
      )
      | inr given ↦ elim (Bool-cases (c.require_auth)) [
        | inl wants ↦ (
          write_message 530 [] conn,
          refused c given wants,
          told-IsGuarded server param 530 [] conn,
          (_, refl),
        )
        | inr free ↦ elim (safe c refl) [
          | inl wants ↦ cc
          | inr guarded ↦
              let (conn', e, g, told) = guarded server net param conn in
              (conn', rw (given, free) e, g, told)
        ]
      ]
    ]
  where
    refused :
        (c : Command _)
        → c.require_param && is_empty param ≡ false
        → c.require_auth ≡ true
        → answer server net (some c) param conn ≡ ok (write_message 530 [] conn)
    refused c given wants = rw (given, wants) (ground (arith, u))

-- While nobody is logged in, every line of the client is answered by exactly one reply, behind those
-- before it. The answer leaves the files and what was sent alone, opens no data connection, and changes the user only to the requested one, for
-- which the line gave the right password.
pub receive_line-IsGuarded :
    {F : Type 0} (server : Server F) (net : Network) (line : Text) (conn : Session F)
    → conn.user ≡ []
    → (conn' : Session F) × (receive_line server net line conn ≡ ok conn')
      × IsGuarded server (parse_line line).1 conn conn'
      × IsReplied conn conn'
unfolding receive_line
receive_line-IsGuarded server net line conn u =
    let name = to_upper (parse_line line).0 in
    answer-Answers server net (find_command name commands) (parse_line line).1 conn (ap is_empty u)
      (λ c e. find_command-All IsSafe name commands c commands-IsSafe e)
