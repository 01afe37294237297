-- ===== src/Ftp/Line/Safe.antt =====
-- services/ftp/cmd.go: what each command that is open to all does while nobody is logged in.
use honeytrap.Base.{
  Outcome, Bool, not, ◌++◌, if◌then◌else◌, ◌≡◌, refl, arith, true, false, ◌&&◌, List, [], ◌∷◌, none,
  ok, ◌⊎◌, inl, inr, Bool-cases,
}
use honeytrap.Base.Bytes.{All}
use honeytrap.Base.Text.{Text, codes, text_eq, to_upper, fields}
use honeytrap.Ftp.Session.{Server, Network, Reply, Session, write_message, check_passwd}
use honeytrap.Ftp.Command.{Command}
use honeytrap.Ftp.Line.{commands}
use honeytrap.Ftp.Commands.Account.{
  command_allo, command_opts, command_feat, command_noop, command_pass, command_quit, command_auth,
  command_user, options_reply, upgrade_to_tls,
}

-- What a session keeps while nobody is logged in: the files, what was sent, the data connection if
-- there is none, and the user, unless the password of the requested user was given.
pub record IsGuarded {F : Type 0} (server : Server F) (param : Text) (conn conn' : Session F)
    : Type 0 where
  pub same_files : conn'.files ≡ conn.files
  pub same_sent : conn'.sent ≡ conn.sent
  pub no_data : conn.data_conn ≡ none → conn'.data_conn ≡ none
  pub same_user :
      (conn'.user ≡ conn.user)
      ⊎ ((check_passwd server.users conn.req_user param ≡ true) × (conn'.user ≡ conn.req_user))

-- One reply was written, behind those before it.
abbrev pub IsReplied : {F : Type 0} → Session F → Session F → Type 0
IsReplied conn conn' = (reply : Reply) × (conn'.replies ≡ conn.replies ++ (reply ∷ []))

-- The call returns, its result is guarded, and the client has one reply more.
abbrev pub Answers : {F : Type 0} → Server F → Text → Session F → Outcome (Session F) → Type 0
Answers {F} server param conn result =
    (conn' : Session F) × (result ≡ ok conn')
    × IsGuarded server param conn conn'
    × IsReplied conn conn'

-- A command is open to all, and then it answers, or it wants a login.
abbrev pub IsSafe : {F : Type 0} → Command F → Type 0
IsSafe {F} c =
    (c.require_auth ≡ true)
    ⊎ ((server : Server F) (net : Network) (param : Text) (conn : Session F)
        → Answers server param conn (c.execute server net param conn))

either-IsReplied :
    {F : Type 0} (test : Bool) (conn left right : Session F)
    → IsReplied conn left
    → IsReplied conn right
    → IsReplied conn (if test then left else right)
either-IsReplied true conn left right l r = l
either-IsReplied false conn left right l r = r

options-IsReplied :
    {F : Type 0} (params : List Text) (conn : Session F)
    → IsReplied conn (options_reply params conn)
options-IsReplied [] conn = (_, refl)
options-IsReplied (name ∷ []) conn = (_, refl)
options-IsReplied (name ∷ mode ∷ []) conn =
    either-IsReplied (not (text_eq (to_upper name) (codes "UTF8"))) conn _ _ (_, refl)
      (either-IsReplied (text_eq (to_upper mode) (codes "ON")) conn _ _ (_, refl) (_, refl))
options-IsReplied (name ∷ mode ∷ p ∷ ps) conn = (_, refl)

upgrade-IsReplied :
    {F : Type 0} (net : Network) (conn told : Session F)
    → IsReplied conn told
    → IsReplied conn (upgrade_to_tls net told)
upgrade-IsReplied net conn told r =
    either-IsReplied net.handshake conn (record told { tls = true }) told r r

allo-IsSafe : {F : Type 0} → IsSafe {F = F} command_allo
allo-IsSafe = inr (λ server net param conn. (_, refl, ground arith, (_, refl)))

opts-IsSafe : {F : Type 0} → IsSafe {F = F} command_opts
opts-IsSafe =
    inr (λ server net param conn. (_, refl, ground arith, options-IsReplied (fields param) conn))

feat-IsSafe : {F : Type 0} → IsSafe {F = F} command_feat
feat-IsSafe = inr (λ server net param conn. (_, refl, ground arith, (_, refl)))

noop-IsSafe : {F : Type 0} → IsSafe {F = F} command_noop
noop-IsSafe = inr (λ server net param conn. (_, refl, ground arith, (_, refl)))

quit-IsSafe : {F : Type 0} → IsSafe {F = F} command_quit
quit-IsSafe = inr (λ server net param conn. (_, refl, ground arith, (_, refl)))

auth-IsSafe : {F : Type 0} → IsSafe {F = F} command_auth
auth-IsSafe = inr (λ server net param conn. (
  _,
  refl,
  ground arith,
  either-IsReplied (text_eq param (codes "TLS") && server.has_tls) conn _ _
      (upgrade-IsReplied net conn (write_message 234 (codes "AUTH command OK") conn) (_, refl))
      (_, refl),
))

user-IsSafe : {F : Type 0} → IsSafe {F = F} command_user
user-IsSafe = inr (λ server net param conn. (_, refl, ground arith, (_, refl)))

pass-IsSafe : {F : Type 0} → IsSafe {F = F} command_pass
pass-IsSafe = inr (λ server net param conn. (
  _,
  refl,
  record {
    same_files = ground arith;
    same_sent = ground arith;
    no_data = ground arith;
    same_user = elim (Bool-cases (check_passwd server.users conn.req_user param)) [
      | inl right ↦ inr (right, ground arith)
      | inr wrong ↦ inl (ground arith)
    ];
  },
  either-IsReplied (check_passwd server.users conn.req_user param) conn _ _ (_, refl) (_, refl),
))

pub commands-IsSafe : {F : Type 0} → All (λ row. IsSafe (row.1)) (commands {F = F})
commands-IsSafe = (
  inl refl,
  (
    allo-IsSafe,
    (
      inl refl,
      (
        auth-IsSafe,
        (
          inl refl,
          (
            inl refl,
            (
              inl refl,
              (
                inl refl,
                (
                  inl refl,
                  (
                    inl refl,
                    (
                      inl refl,
                      (
                        inl refl,
                        (
                          feat-IsSafe,
                          (
                            inl refl,
                            (
                              inl refl,
                              (
                                inl refl,
                                (
                                  inl refl,
                                  (
                                    inl refl,
                                    (
                                      inl refl,
                                      (
                                        noop-IsSafe,
                                        (
                                          opts-IsSafe,
                                          (
                                            pass-IsSafe,
                                            (
                                              inl refl,
                                              (
                                                inl refl,
                                                (
                                                  inl refl,
                                                  (
                                                    inl refl,
                                                    (
                                                      inl refl,
                                                      (
                                                        quit-IsSafe,
                                                        (
                                                          inl refl,
                                                          (
                                                            inl refl,
                                                            (
                                                            inl refl,
                                                            (
                                                            inl refl,
                                                            (
                                                            inl refl,
                                                            (
                                                            inl refl,
                                                            (
                                                            inl refl,
                                                            (
                                                            inl refl,
                                                            (
                                                            inl refl,
                                                            (
                                                            inl refl,
                                                            (
                                                            user-IsSafe,
                                                            (
                                                            inl refl,
                                                            (inl refl, (inl refl, (inl refl, tt))),
                                                            ),
                                                            ),
                                                            ),
                                                            ),
                                                            ),
                                                            ),
                                                            ),
                                                            ),
                                                            ),
                                                            ),
                                                          ),
                                                        ),
                                                      ),
                                                    ),
                                                  ),
                                                ),
                                              ),
                                            ),
                                          ),
                                        ),
                                      ),
                                    ),
                                  ),
                                ),
                              ),
                            ),
                          ),
                        ),
                      ),
                    ),
                  ),
                ),
              ),
            ),
          ),
        ),
      ),
    ),
  ),
)
