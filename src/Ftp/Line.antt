-- ===== src/Ftp/Line.antt =====
-- services/ftp: how `receiveLine` of conn.go answers a line, with the table `commands` of cmd.go.
pub mod Safe
pub mod Guarded
pub mod Harmless
pub mod Login
pub mod Faults
use honeytrap.Base.{
  ℕ, ◌+◌, ◌≡◌, Bool, true, false, not, ◌&&◌, List, [], ◌∷◌, ◌++◌, if◌then◌else◌, Option, none, some,
  Outcome, ok, err, panic, ◌>>=◌,
}
use honeytrap.Base.Text.{
  Text, codes, is_empty, text_eq, to_upper, trim, is_line_end, is_blank, split_once,
}
use honeytrap.Ftp.Session.{Server, Network, Session, write_message, close}
use honeytrap.Ftp.Command.{Command}
use honeytrap.Ftp.Commands.Account.{
  command_allo, command_appe, command_opts, command_feat, command_mode, command_noop, command_pass,
  command_quit, command_adat, command_auth, command_ccc, command_enc, command_mic, command_conf,
  command_pbsz, command_prot, command_stru, command_syst, command_type, command_user,
}
use honeytrap.Ftp.Commands.Files.{
  command_cdup, command_cwd, command_dele, command_mkd, command_pwd, command_rnfr, command_rnto,
  command_rmd, command_mdtm, command_size,
}
use honeytrap.Ftp.Commands.Transfers.{
  command_eprt, command_epsv, command_list, command_nlst, command_pasv, command_port, command_retr,
  command_rest, command_stor,
}

-- `commands`.
abbrev pub commands : {F : Type 0} → List (Text × Command F)
commands =
    (codes "ADAT", command_adat)
    ∷ (codes "ALLO", command_allo)
    ∷ (codes "APPE", command_appe)
    ∷ (codes "AUTH", command_auth)
    ∷ (codes "CDUP", command_cdup)
    ∷ (codes "CWD", command_cwd)
    ∷ (codes "CCC", command_ccc)
    ∷ (codes "CONF", command_conf)
    ∷ (codes "DELE", command_dele)
    ∷ (codes "ENC", command_enc)
    ∷ (codes "EPRT", command_eprt)
    ∷ (codes "EPSV", command_epsv)
    ∷ (codes "FEAT", command_feat)
    ∷ (codes "LIST", command_list)
    ∷ (codes "NLST", command_nlst)
    ∷ (codes "MDTM", command_mdtm)
    ∷ (codes "MIC", command_mic)
    ∷ (codes "MKD", command_mkd)
    ∷ (codes "MODE", command_mode)
    ∷ (codes "NOOP", command_noop)
    ∷ (codes "OPTS", command_opts)
    ∷ (codes "PASS", command_pass)
    ∷ (codes "PASV", command_pasv)
    ∷ (codes "PBSZ", command_pbsz)
    ∷ (codes "PORT", command_port)
    ∷ (codes "PROT", command_prot)
    ∷ (codes "PWD", command_pwd)
    ∷ (codes "QUIT", command_quit)
    ∷ (codes "RETR", command_retr)
    ∷ (codes "REST", command_rest)
    ∷ (codes "RNFR", command_rnfr)
    ∷ (codes "RNTO", command_rnto)
    ∷ (codes "RMD", command_rmd)
    ∷ (codes "SIZE", command_size)
    ∷ (codes "STOR", command_stor)
    ∷ (codes "STRU", command_stru)
    ∷ (codes "SYST", command_syst)
    ∷ (codes "TYPE", command_type)
    ∷ (codes "USER", command_user)
    ∷ (codes "XCUP", command_cdup)
    ∷ (codes "XCWD", command_cwd)
    ∷ (codes "XPWD", command_pwd)
    ∷ (codes "XRMD", command_rmd)
    ∷ []

unfoldable pub find_command : {F : Type 0} → Text → List (Text × Command F) → Option (Command F)
find_command name [] = none
find_command name ((n, c) ∷ more) =
    let rest = find_command name more in if text_eq n name then some c else rest

abbrev param_of : Option Text → Text
param_of none = []
param_of (some p) = trim is_blank p

-- `parseLine`.
unfoldable pub parse_line : Text → Text × Text
parse_line line = let parts = split_once 32 (trim is_line_end line) in (parts.0, param_of parts.1)

-- `receiveLine` behind the look-up: a missing parameter is answered before a missing login.
unfoldable pub answer :
    {F : Type 0} → Server F → Network → Option (Command F) → Text → Session F → Outcome (Session F)
answer server net none param conn = ok (write_message 500 [] conn)
answer server net (some c) param conn =
    if c.require_param && is_empty param
    then ok (write_message 553 (codes "action aborted, required param missing") conn)
    else if c.require_auth && is_empty conn.user
    then ok (write_message 530 [] conn)
    else c.execute server net param conn

-- `receiveLine`.
unfoldable pub receive_line :
    {F : Type 0} → Server F → Network → Text → Session F → Outcome (Session F)
unfolding answer find_command parse_line
receive_line server net line conn =
    let (command, param) = parse_line line in
    answer server net (find_command (to_upper command) commands) param conn

-- The loop of `Serve` over the lines that the client sends, up to QUIT, and the closing behind it.
-- The lines come with what the network does meanwhile.
unfoldable pub serve_lines :
    {F : Type 0} → Server F → List (Network × Text) → Session F → Outcome (Session F)
serve_lines server [] conn = ok (close conn)
serve_lines server ((net, line) ∷ more) conn =
    receive_line server net line conn
    >>= (λ conn'. if conn'.closed then ok (close conn') else serve_lines server more conn')

unfoldable pub serve :
    {F : Type 0} → Server F → Text → List (Network × Text) → Session F → Outcome (Session F)
unfolding serve_lines receive_line
serve server welcome lines conn = serve_lines server lines (write_message 220 welcome conn)
