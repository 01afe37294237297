-- ===== src/Ftp/Commands/Transfers.antt =====
-- services/ftp/cmd.go: the data connection and what goes through it.
use honeytrap.Base.{
  ℕ, zero, suc, ◌+◌, ◌-◌, ◌*◌, ◌/◌, ◌%◌, Bool, true, false, not, ◌&&◌, List, [], ◌∷◌, ◌++◌, ltb,
  ◌==◌, if◌then◌else◌, Option, none, some, Outcome, ok, panic, ◌>>=◌,
}
use honeytrap.Base.Text.{Text, codes, split, last_index, itoa, parse_int, int_bound}
use honeytrap.Ftp.Session.{
  Server, Network, Session, Stored, stored, failed, Listing, write_message, send_data, send_file,
}
use honeytrap.Ftp.Command.{Command}

-- `parts[i]`.
abbrev nth : List Text → ℕ → Outcome Text
nth [] i = panic
nth (p ∷ ps) zero = ok p
nth (p ∷ ps) (suc i) = nth ps i

-- What EPRT and PORT do with the address that they read.
abbrev connect : {F : Type 0} → Network → Text → ℕ → Session F → Session F
connect net host port conn =
    if net.dial host port
    then write_message 200 (codes "Connection established (" ++ itoa port ++ codes ")")
        (record conn { data_conn = some port })
    else write_message 425 (codes "Data connection failed") conn

abbrev extended_port : {F : Type 0} → Network → ℕ × Bool → Text → ℕ × Bool → Session F → Session F
extended_port net family host port conn =
    if not port.1
    then write_message 450 (codes "Invalid port") conn
    else if not (family.0 == 1) && not (family.0 == 2)
    then write_message 522 (codes "Network protocol not supported, use (1,2)") conn
    else connect net host port.0 conn

-- `Execute` of EPRT; the first character of the parameter separates its parts.
abbrev read_extended : {F : Type 0} → Network → Text → Session F → Outcome (Session F)
read_extended net [] conn = panic
read_extended net (delim ∷ rest) conn =
    let parts = split delim (delim ∷ rest) in
    let reach = (do
      host ← nth parts 2
      port ← nth parts 3
      ok (extended_port net (parse_int (← nth parts 1)) host (parse_int port) conn)) in
    do
      family ← nth parts 1
      if (parse_int family).1 then reach else ok (write_message 450 (codes "Invalid addr") conn)

abbrev pub command_eprt : {F : Type 0} → Command F
command_eprt = record {
  is_extend = true;
  require_param = true;
  require_auth = true;
  execute = λ server net param conn. read_extended net param conn;
}

abbrev extended_passive : {F : Type 0} → Option ℕ → Session F → Session F
extended_passive none conn = write_message 425 (codes "Data connection failed") conn
extended_passive (some port) conn =
    write_message 229 (codes "Entering Extended Passive Mode (|||" ++ itoa port ++ codes "|)")
      (record conn { data_conn = some port })

-- `lastIdx <= 0`, where -1 stands for no colon.
abbrev has_host : Option ℕ → Bool
has_host none = false
has_host (some i) = ltb 0 i

abbrev pub command_epsv : {F : Type 0} → Command F
command_epsv = record {
  is_extend = true;
  require_param = false;
  require_auth = true;
  execute = λ server net param conn. ok (
      if has_host (last_index 58 server.listen_ip)
      then extended_passive net.listen conn
      else write_message 425 (codes "Data connection failed") conn);
}

abbrev listed : {F : Type 0} → Option Text → Session F → Session F
listed none conn = write_message 550 [] conn
listed (some bytes) conn = send_data bytes conn

abbrev opening : {F : Type 0} → Session F → Session F
opening conn = write_message 150 (codes "Opening ASCII mode data connection for file list") conn

abbrev detailed_of : Option Listing → Option Text
detailed_of none = none
detailed_of (some l) = some l.detailed

abbrev short_of : Option Listing → Option Text
short_of none = none
short_of (some l) = some l.short

abbrev pub command_list : {F : Type 0} → Command F
command_list = record {
  is_extend = false;
  require_param = false;
  require_auth = true;
  execute = λ server net param conn.
      ok (listed (detailed_of (server.driver.list_dir conn.files param)) (opening conn));
}

abbrev pub command_nlst : {F : Type 0} → Command F
command_nlst = record {
  is_extend = false;
  require_param = false;
  require_auth = true;
  execute = λ server net param conn.
      ok (listed (short_of (server.driver.list_dir conn.files param)) (opening conn));
}

-- `Execute` of PASV behind the listening socket.
abbrev passive : {F : Type 0} → Text → Option ℕ → Session F → Outcome (Session F)
passive ip none conn = ok (write_message 425 (codes "Data connection failed, socket") conn)
passive ip (some port) conn = do
  let quads = split 46 ip
  q0 ← nth quads 0
  q1 ← nth quads 1
  q2 ← nth quads 2
  q3 ← nth quads 3
  let p1 = port / 256
  let address = q0 ++ codes "," ++ q1 ++ codes "," ++ q2 ++ codes "," ++ q3
  let target =
      codes "("
      ++ address
      ++ codes ","
      ++ itoa p1
      ++ codes ","
      ++ itoa (port - p1 * 256)
      ++ codes ")"
  ok (
      write_message 227 (codes "Entering Passive Mode " ++ target)
        (record conn { data_conn = some port }))

abbrev pub command_pasv : {F : Type 0} → Command F
command_pasv = record {
  is_extend = false;
  require_param = false;
  require_auth = true;
  execute = λ server net param conn. passive server.listen_ip net.listen conn;
}

-- `Execute` of PORT: six numbers, of which the last two give the port.
abbrev read_port : {F : Type 0} → Network → Text → Session F → Outcome (Session F)
read_port net param conn = do
  let nums = split 44 param
  high ← nth nums 4
  low ← nth nums 5
  n0 ← nth nums 0
  n1 ← nth nums 1
  n2 ← nth nums 2
  n3 ← nth nums 3
  let port = ((parse_int high).0 * 256 + (parse_int low).0) % int_bound
  let host = n0 ++ codes "." ++ n1 ++ codes "." ++ n2 ++ codes "." ++ n3
  ok (connect net host port conn)

abbrev pub command_port : {F : Type 0} → Command F
command_port = record {
  is_extend = false;
  require_param = true;
  require_auth = true;
  execute = λ server net param conn. read_port net param conn;
}

-- `Execute` of RETR behind `GetFile`, with the deferred reset of the position.
abbrev sent_file : {F : Type 0} → Bool × Session F → Session F
sent_file (true, conn) = record conn { last_file_pos = 0 }
sent_file (false, conn) = record (write_message 551 (codes "File not available") conn) {
  last_file_pos = 0;
}

abbrev retrieve : {F : Type 0} → Network → Option (ℕ × Text) → Session F → Outcome (Session F)
retrieve net none conn =
    ok (record (write_message 551 (codes "File not available") conn) { last_file_pos = 0 })
retrieve net (some (n, bytes)) conn = do
  sent ←
      send_file net conn.data_conn bytes
        (write_message 150 (codes "Data transfer starting " ++ itoa n ++ codes " bytes") conn)
  ok (sent_file sent)

abbrev pub command_retr : {F : Type 0} → Command F
command_retr = record {
  is_extend = false;
  require_param = true;
  require_auth = true;
  execute = λ server net param conn.
      retrieve net (server.driver.get_file conn.files param conn.last_file_pos) conn;
}

-- The position is set even where it does not parse.
abbrev restart : {F : Type 0} → ℕ × Bool → Session F → Session F
restart (n, false) conn =
    write_message 551 (codes "File not available") (record conn { last_file_pos = n })
restart (n, true) conn =
    write_message 350 (codes "Start transfer from " ++ itoa n ++ (10 ∷ []))
      (record conn { last_file_pos = n; append_data = true })

abbrev pub command_rest : {F : Type 0} → Command F
command_rest = record {
  is_extend = false;
  require_param = true;
  require_auth = true;
  execute = λ server net param conn. ok (restart (parse_int param) conn);
}

-- `Execute` of STOR behind `PutFile`, with the deferred reset of the append mode.
abbrev stored_file : {F : Type 0} → F × Stored → Session F → Session F
stored_file (files', stored n) conn =
    record (write_message 226 (codes "OK, received " ++ itoa n ++ codes " bytes") conn) {
      files = files';
      append_data = false;
    }
stored_file (files', failed e) conn =
    record (write_message 450 (codes "error during transfer: " ++ e ++ (10 ∷ [])) conn) {
      files = files';
      append_data = false;
    }

abbrev store : {F : Type 0} → Server F → Text → Session F → Outcome (Session F)
store server param conn = do
  result ← server.driver.put_file conn.files param conn.data_conn conn.append_data
  ok (stored_file result (write_message 150 (codes "Data transfer starting") conn))

abbrev pub command_stor : {F : Type 0} → Command F
command_stor = record {
  is_extend = false;
  require_param = true;
  require_auth = true;
  execute = λ server net param conn. store server param conn;
}
