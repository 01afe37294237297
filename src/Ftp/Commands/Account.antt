-- ===== src/Ftp/Commands/Account.antt =====
-- services/ftp/cmd.go: the login, the connection's modes, and the commands that only answer.
use honeytrap.Base.{true, false, not, ◌&&◌, List, [], ◌∷◌, ◌++◌, if◌then◌else◌, ok}
use honeytrap.Base.Text.{Text, codes, text_eq, to_upper, fields}
use honeytrap.Ftp.Session.{Network, Session, write_message, write_multiline, close, check_passwd}
use honeytrap.Ftp.Command.{Command, not_taken}

-- `Execute` of OPTS behind its fields.
abbrev pub options_reply : {F : Type 0} → List Text → Session F → Session F
options_reply (name ∷ mode ∷ []) conn =
    if not (text_eq (to_upper name) (codes "UTF8"))
    then write_message 550 (codes "Unknow params") conn
    else if text_eq (to_upper mode) (codes "ON")
    then write_message 200 (codes "UTF8 mode enabled") conn
    else write_message 550 (codes "Unsupported non-utf8 mode") conn
options_reply _ conn = write_message 550 (codes "Unknow params") conn

abbrev pub command_allo : {F : Type 0} → Command F
command_allo = record {
  is_extend = false;
  require_param = false;
  require_auth = false;
  execute = λ server net param conn. ok (write_message 202 [] conn);
}

abbrev pub command_appe : {F : Type 0} → Command F
command_appe = record {
  is_extend = false;
  require_param = false;
  require_auth = true;
  execute = λ server net param conn. ok (write_message 202 [] (record conn { append_data = true }));
}

abbrev pub command_opts : {F : Type 0} → Command F
command_opts = record {
  is_extend = false;
  require_param = false;
  require_auth = false;
  execute = λ server net param conn. ok (options_reply (fields param) conn);
}

abbrev tls_features : Text
tls_features =
    codes " AUTH TLS" ++ (10 ∷ []) ++ codes " PBSZ" ++ (10 ∷ []) ++ codes " PROT" ++ (10 ∷ [])

abbrev write_features : {F : Type 0} → Session F → Session F
write_features conn =
    write_multiline 211 (codes "Extensions supported:" ++ (10 ∷ []) ++ conn.feat_cmds) conn

-- Every call appends to the package's list.
abbrev pub command_feat : {F : Type 0} → Command F
command_feat = record {
  is_extend = false;
  require_param = false;
  require_auth = false;
  execute = λ server net param conn. ok (
      write_features (record conn {
        feat_cmds = if server.has_tls then conn.feat_cmds ++ tls_features else conn.feat_cmds;
      }));
}

abbrev pub command_mode : {F : Type 0} → Command F
command_mode = record {
  is_extend = false;
  require_param = true;
  require_auth = true;
  execute = λ server net param conn. ok (
      if text_eq (to_upper param) (codes "S")
      then write_message 200 (codes "OK") conn
      else write_message 504 (codes "MODE is an obsolete command") conn);
}

abbrev pub command_noop : {F : Type 0} → Command F
command_noop = record {
  is_extend = false;
  require_param = false;
  require_auth = false;
  execute = λ server net param conn. ok (write_message 200 (codes "OK") conn);
}

abbrev pub command_pass : {F : Type 0} → Command F
command_pass = record {
  is_extend = false;
  require_param = true;
  require_auth = false;
  execute = λ server net param conn. ok (
      if check_passwd server.users conn.req_user param
      then write_message 230 (codes "Password ok, continue")
          (record conn { user = conn.req_user; req_user = [] })
      else write_message 530 (codes "Incorrect password, not logged in") conn);
}

abbrev pub command_quit : {F : Type 0} → Command F
command_quit = record {
  is_extend = false;
  require_param = false;
  require_auth = false;
  execute = λ server net param conn. ok (close (write_message 221 (codes "Goodbye") conn));
}

abbrev pub command_adat : {F : Type 0} → Command F
command_adat = record {
  is_extend = false;
  require_param = true;
  require_auth = true;
  execute = not_taken;
}

abbrev pub upgrade_to_tls : {F : Type 0} → Network → Session F → Session F
upgrade_to_tls net conn = if net.handshake then record conn { tls = true } else conn

abbrev pub command_auth : {F : Type 0} → Command F
command_auth = record {
  is_extend = false;
  require_param = true;
  require_auth = false;
  execute = λ server net param conn. ok (
      if text_eq param (codes "TLS") && server.has_tls
      then upgrade_to_tls net (write_message 234 (codes "AUTH command OK") conn)
      else write_message 550 (codes "Action not taken") conn);
}

abbrev pub command_ccc : {F : Type 0} → Command F
command_ccc = record {
  is_extend = false;
  require_param = true;
  require_auth = true;
  execute = not_taken;
}

abbrev pub command_enc : {F : Type 0} → Command F
command_enc = record {
  is_extend = false;
  require_param = true;
  require_auth = true;
  execute = not_taken;
}

abbrev pub command_mic : {F : Type 0} → Command F
command_mic = record {
  is_extend = false;
  require_param = true;
  require_auth = true;
  execute = not_taken;
}

abbrev pub command_conf : {F : Type 0} → Command F
command_conf = record {
  is_extend = false;
  require_param = true;
  require_auth = true;
  execute = not_taken;
}

abbrev pub command_pbsz : {F : Type 0} → Command F
command_pbsz = record {
  is_extend = false;
  require_param = true;
  require_auth = true;
  execute = λ server net param conn. ok (
      if conn.tls && text_eq param (codes "0")
      then write_message 200 (codes "OK") conn
      else write_message 550 (codes "Action not taken") conn);
}

abbrev pub command_prot : {F : Type 0} → Command F
command_prot = record {
  is_extend = false;
  require_param = true;
  require_auth = true;
  execute = λ server net param conn. ok (
      if conn.tls && text_eq param (codes "P")
      then write_message 200 (codes "OK") conn
      else if conn.tls
      then write_message 536 (codes "Only P level is supported") conn
      else write_message 550 (codes "Action not taken") conn);
}

abbrev pub command_stru : {F : Type 0} → Command F
command_stru = record {
  is_extend = false;
  require_param = true;
  require_auth = true;
  execute = λ server net param conn. ok (
      if text_eq (to_upper param) (codes "F")
      then write_message 200 (codes "OK") conn
      else write_message 504 (codes "STRU is an obsolete command") conn);
}

abbrev pub command_syst : {F : Type 0} → Command F
command_syst = record {
  is_extend = false;
  require_param = false;
  require_auth = true;
  execute = λ server net param conn. ok (write_message 215 (codes "UNIX Type: L8") conn);
}

abbrev pub command_type : {F : Type 0} → Command F
command_type = record {
  is_extend = false;
  require_param = false;
  require_auth = true;
  execute = λ server net param conn. ok (
      if text_eq (to_upper param) (codes "A")
      then write_message 200 (codes "Type set to ASCII") conn
      else if text_eq (to_upper param) (codes "I")
      then write_message 200 (codes "Type set to binary") conn
      else write_message 500 (codes "Invalid type") conn);
}

abbrev pub command_user : {F : Type 0} → Command F
command_user = record {
  is_extend = false;
  require_param = true;
  require_auth = false;
  execute = λ server net param conn. ok (write_message 331 [] (record conn { req_user = param }));
}
