-- ===== src/Ftp/Command.antt =====
-- The interface `Command` of services/ftp/cmd.go.
use honeytrap.Base.{Bool, Outcome, ok}
use honeytrap.Base.Text.{Text, codes}
use honeytrap.Ftp.Session.{Server, Network, Session, write_message}

pub record Command (F : Type 0) : Type 0 where
  pub is_extend : Bool
  pub require_param : Bool
  pub require_auth : Bool
  pub execute : Server F → Network → Text → Session F → Outcome (Session F)

-- `Execute` of the commands that refuse everything.
abbrev pub not_taken : {F : Type 0} → Server F → Network → Text → Session F → Outcome (Session F)
not_taken server net param conn = ok (write_message 550 (codes "Action not taken") conn)
