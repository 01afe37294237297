-- ===== src/Ftp/Line/Faults.antt =====
-- What RETR and MDTM do to a client that is logged in.
use honeytrap.Base.{ℕ, ◌≡◌, refl, false, none, some, ok, panic, ◌∙◌}
use honeytrap.Base.Text.{Text, codes, is_empty, text_eq, to_upper}
use honeytrap.Ftp.Session.{Server, Network, Session, FileInfo, write_message}
use honeytrap.Ftp.Line.{commands, find_command, parse_line, receive_line}
use honeytrap.Ftp.Line.Login.{runs}
use honeytrap.Ftp.Commands.Transfers.{command_retr}
use honeytrap.Ftp.Commands.Files.{command_mdtm}

found_retr :
    {F : Type 0} → find_command (to_upper (codes "RETR")) (commands {F = F}) ≡ some command_retr
unfolding find_command to_upper text_eq
found_retr = refl

found_mdtm :
    {F : Type 0} → find_command (to_upper (codes "MDTM")) (commands {F = F}) ≡ some command_mdtm
unfolding find_command to_upper text_eq
found_mdtm = refl

-- RETR of a file that the driver has, from a client that is logged in and has opened no data
-- connection, makes the handler panic.
pub receive_line-panics :
    {F : Type 0} (server : Server F) (net : Network) (line path : Text) (conn : Session F) (n : ℕ)
    (bytes : Text)
    → parse_line line ≡ (codes "RETR", path)
    → is_empty path ≡ false
    → is_empty conn.user ≡ false
    → conn.data_conn ≡ none
    → server.driver.get_file conn.files path conn.last_file_pos ≡ some (n, bytes)
    → receive_line server net line conn ≡ panic
receive_line-panics server net line path conn n bytes p given user closed found =
    runs server net line (codes "RETR") path command_retr conn p found_retr given user
    ∙ rw (found, closed) refl

-- MDTM of a file that the driver has is answered twice, by 213 with its time and by 450.
pub receive_line-answers_twice :
    {F : Type 0} (server : Server F) (net : Network) (line path : Text) (conn : Session F)
    (info : FileInfo)
    → parse_line line ≡ (codes "MDTM", path)
    → is_empty path ≡ false
    → is_empty conn.user ≡ false
    → server.driver.stat conn.files path ≡ some info
    → receive_line server net line conn
      ≡ ok (write_message 450 (codes "File not available") (write_message 213 info.mod_time conn))
receive_line-answers_twice server net line path conn info p given user found =
    runs server net line (codes "MDTM") path command_mdtm conn p found_mdtm given user
    ∙ rw found refl
