-- ===== src/Ftp/Session.antt =====
-- services/ftp: the connection (conn.go), the file driver that it calls (driver.go) and the accounts
-- (auth.go).
use honeytrap.Base.{
  ℕ, Bool, true, false, List, [], ◌∷◌, ◌++◌, length, if◌then◌else◌, Option, none, some, Outcome, ok,
  panic,
}
use honeytrap.Base.Text.{Text, codes, is_empty, text_eq, itoa}
use honeytrap.Ftp.Status.{status_texts, text_of}

-- What `Stat` tells of a file; the time is formatted.
pub record FileInfo : Type 0 where
  pub mod_time : Text
  pub size : ℕ

-- What `listFormatter` makes of a directory.
pub record Listing : Type 0 where
  pub detailed : Text
  pub short : Text

pub data Stored : Type 0 where
  stored : ℕ → Stored
  failed : Text → Stored

-- The interface `Driver`, over the state `F` of the files. An error is its text. `put_file` reads
-- from a data connection that may be missing.
pub record Driver (F : Type 0) : Type 0 where
  pub stat : F → Text → Option FileInfo
  pub change_dir : F → Text → F × Option Text
  pub list_dir : F → Text → Option Listing
  pub delete_dir : F → Text → F × Option Text
  pub delete_file : F → Text → F × Option Text
  pub rename : F → Text → Text → F × Option Text
  pub make_dir : F → Text → F × Option Text
  pub get_file : F → Text → ℕ → Option (ℕ × Text)
  pub put_file : F → Text → Option ℕ → Bool → Outcome (F × Stored)
  pub cur_dir : F → Text

pub record Server (F : Type 0) : Type 0 where
  pub driver : Driver F
  pub users : List (Text × Text)
  pub has_tls : Bool
  pub listen_ip : Text

-- What a command takes from the network: whether the dialled address answers, the port that is
-- listened on, whether the TLS handshake succeeds, and whether the file can be sent.
pub record Network : Type 0 where
  pub dial : Text → ℕ → Bool
  pub listen : Option ℕ
  pub handshake : Bool
  pub copies : Bool

pub record Reply : Type 0 where
  pub code : ℕ
  pub message : Text
  pub multiline : Bool

-- `Conn`. A data connection is its port; `sent` is what went through the data connections.
-- `feat_cmds` is the package's variable `featCmds`.
pub record Session (F : Type 0) : Type 0 where
  pub files : F
  pub replies : List Reply
  pub sent : List Text
  pub data_conn : Option ℕ
  pub req_user : Text
  pub user : Text
  pub rename_from : Text
  pub last_file_pos : ℕ
  pub append_data : Bool
  pub closed : Bool
  pub tls : Bool
  pub feat_cmds : Text

-- `writeMessage`.
abbrev pub write_message : {F : Type 0} → ℕ → Text → Session F → Session F
write_message code message conn = record conn {
  replies =
      conn.replies
      ++ (record {
        code = code;
        message = if is_empty message then text_of code status_texts else message;
        multiline = false;
      }
          ∷ []);
}

-- `writeMessageMultiline`.
abbrev pub write_multiline : {F : Type 0} → ℕ → Text → Session F → Session F
write_multiline code message conn = record conn {
  replies = conn.replies ++ (record { code = code; message = message; multiline = true } ∷ []);
}

-- `Close`.
abbrev pub close : {F : Type 0} → Session F → Session F
close conn = record conn { closed = true; data_conn = none }

abbrev pub closing_message : ℕ → Text
closing_message n = codes "Closing data connection, sent " ++ itoa n ++ codes " bytes"

-- `sendOutofbandData`: without a data connection nothing is sent, and the reply is the same.
abbrev pub write_data : {F : Type 0} → Option ℕ → Text → Session F → Session F
write_data none bytes conn = conn
write_data (some port) bytes conn = record conn {
  sent = conn.sent ++ (bytes ∷ []);
  data_conn = none;
}

abbrev pub send_data : {F : Type 0} → Text → Session F → Session F
send_data bytes conn =
    write_message 226 (closing_message (length bytes)) (write_data conn.data_conn bytes conn)

-- `sendOutofBandDataWriter`; the missing data connection of the first clause makes it panic.
abbrev pub send_file :
    {F : Type 0} → Network → Option ℕ → Text → Session F → Outcome (Bool × Session F)
send_file net none bytes conn = panic
send_file net (some port) bytes conn =
    let start = record conn { last_file_pos = 0 } in
    let copied = record start { sent = conn.sent ++ (bytes ∷ []) } in
    let told = write_message 226 (closing_message (length bytes)) copied in
    ok (
      if net.copies
      then (true, record told { data_conn = none })
      else (false, record start { data_conn = none }))

-- `CheckPasswd`, whose error is always nil.
unfoldable pub check_passwd : List (Text × Text) → Text → Text → Bool
check_passwd [] name password = false
check_passwd ((n, p) ∷ more) name password =
    let rest = check_passwd more name password in
    if text_eq n name then text_eq p password else rest
