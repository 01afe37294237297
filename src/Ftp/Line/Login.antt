-- ===== src/Ftp/Line/Login.antt =====
-- The login by USER and PASS.
use honeytrap.Base.{◌&&◌, ◌≡◌, refl, arith, true, false, [], some, ok, ◌∙◌, ◌>>=◌}
use honeytrap.Base.Text.{Text, codes, is_empty, text_eq, to_upper}
use honeytrap.Ftp.Session.{Server, Network, Session, write_message, check_passwd}
use honeytrap.Ftp.Command.{Command}
use honeytrap.Ftp.Line.{commands, find_command, parse_line, answer, receive_line}
use honeytrap.Ftp.Commands.Account.{command_pass, command_user}

receive_line-answer :
    {F : Type 0} (server : Server F) (net : Network) (line : Text) (conn : Session F)
    → receive_line server net line conn
      ≡ answer server net
          (find_command (to_upper (parse_line line).0) commands)
          (parse_line line).1
          conn
unfolding receive_line
receive_line-answer server net line conn = refl

pub runs :
    {F : Type 0} (server : Server F) (net : Network) (line name param : Text) (c : Command F)
    (conn : Session F)
    → parse_line line ≡ (name, param)
    → find_command (to_upper name) commands ≡ some c
    → is_empty param ≡ false
    → c.require_auth && is_empty conn.user ≡ false
    → receive_line server net line conn ≡ c.execute server net param conn
unfolding answer
runs server net line name param c conn p found given open' =
    receive_line-answer server net line conn ∙ rw (p, found, given, open') (ground arith)

found_user :
    {F : Type 0} → find_command (to_upper (codes "USER")) (commands {F = F}) ≡ some command_user
unfolding find_command to_upper text_eq
found_user = refl

found_pass :
    {F : Type 0} → find_command (to_upper (codes "PASS")) (commands {F = F}) ≡ some command_pass
unfolding find_command to_upper text_eq
found_pass = refl

-- A USER line with a name followed by a PASS line with the password of that name is answered by 331
-- and 230, makes the name the user, and leaves the files alone.
pub receive_line-login :
    {F : Type 0} (server : Server F) (net net' : Network) (l l' name password : Text)
    (conn : Session F)
    → parse_line l ≡ (codes "USER", name)
    → parse_line l' ≡ (codes "PASS", password)
    → is_empty name ≡ false
    → is_empty password ≡ false
    → check_passwd server.users name password ≡ true
    → (receive_line server net l conn >>= receive_line server net' l')
      ≡ ok (
          write_message 230
            (codes "Password ok, continue")
            (record (write_message 331 [] conn) { user = name; req_user = [] }))
receive_line-login server net net' l l' name password conn p q n m right =
    let asked = runs server net l (codes "USER") name command_user conn p found_user n refl in
    rw asked (
      runs server net' l' (codes "PASS") password command_pass
        (write_message 331 [] (record conn { req_user = name })) q found_pass m refl
      ∙ rw right refl)
