-- ===== src/Ftp/Line/Harmless.antt =====
-- What a whole session can change without the password of an account.
use honeytrap.Base.{
  ◌≡◌, refl, if◌then◌else◌, Outcome, true, List, [], ◌∷◌, ok, ◌⊎◌, inl, inr, ◌∙◌, Bool-cases,
}
use honeytrap.Base.Text.{Text}
use honeytrap.Ftp.Session.{Server, Network, Session, write_message, check_passwd, close}
use honeytrap.Ftp.Line.{parse_line, receive_line, serve_lines, serve}
use honeytrap.Ftp.Line.Guarded.{receive_line-IsGuarded}

-- One of the lines has the text for its parameter.
abbrev pub IsGiven : Text → List (Network × Text) → Type 0
IsGiven password [] = ⊥
IsGiven password ((net, text) ∷ more) = ((parse_line text).1 ≡ password) ⊎ IsGiven password more

-- A session that ends with the same files and nothing sent, or else one of the lines gave the
-- password of an account.
abbrev pub IsHarmless :
    {F : Type 0} → Server F → List (Network × Text) → Session F → Outcome (Session F) → Type 0
IsHarmless {F} server lines conn result =
    ((last : Session F) × (result ≡ ok last) × (last.files ≡ conn.files) × (last.sent ≡ conn.sent))
    ⊎ ((name : Text) × (password : Text) × (check_passwd server.users name password ≡ true)
        × IsGiven password lines)

IsHarmless-after :
    {F : Type 0} (server : Server F) (net : Network) (text : Text) (lines : List (Network × Text))
    (conn conn' : Session F) (result : Outcome (Session F))
    → conn'.files ≡ conn.files
    → conn'.sent ≡ conn.sent
    → IsHarmless server lines conn' result
    → IsHarmless server ((net, text) ∷ lines) conn result
IsHarmless-after server net text lines conn conn' result f s (inl (last, e, g, r)) =
    inl (last, e, g ∙ f, r ∙ s)
IsHarmless-after server net text lines conn conn' result f s (inr (name, password, right, given)) =
    inr (name, password, right, inr given)

-- One line, which was answered, and the rest of the loop.
serve_lines-cons :
    {F : Type 0} (server : Server F) (net : Network) (text : Text) (more : List (Network × Text))
    (conn conn' : Session F)
    → receive_line server net text conn ≡ ok conn'
    → serve_lines server ((net, text) ∷ more) conn
      ≡ (if conn'.closed then ok (close conn') else serve_lines server more conn')
unfolding serve_lines
serve_lines-cons server net text more conn conn' h = rw h refl

serve_lines-IsHarmless :
    {F : Type 0} (server : Server F) (lines : List (Network × Text)) (conn : Session F)
    → conn.user ≡ []
    → IsHarmless server lines conn (serve_lines server lines conn)
serve_lines-IsHarmless server [] conn u = inl (close conn, unfold serve_lines in refl, refl, refl)
serve_lines-IsHarmless server ((net, text) ∷ more) conn u =
    let (conn', received, kept, replied) = receive_line-IsGuarded server net text conn u in
    let looped = serve_lines-cons server net text more conn conn' received in
    elim (kept.same_user) [
      | inr (right, now) ↦ inr (conn.req_user, (parse_line text).1, right, inl refl)
      | inl same ↦ elim (Bool-cases (conn'.closed)) [
        | inl over ↦ inl (close conn', looped ∙ rw over refl, kept.same_files, kept.same_sent)
        | inr going ↦
            rw (looped, going)
              (IsHarmless-after server net text more conn conn' (serve_lines server more conn')
                kept.same_files kept.same_sent
                (serve_lines-IsHarmless server more conn' (same ∙ u)))
      ]
    ]

-- Whatever a client sends, its session ends with the files of the driver as they were and nothing sent
-- over a data connection, unless one of its lines has the password of an account for its parameter.
pub serve-IsHarmless :
    {F : Type 0} (server : Server F) (welcome : Text) (lines : List (Network × Text))
    (conn : Session F)
    → conn.user ≡ []
    → IsHarmless server lines conn (serve server welcome lines conn)
unfolding serve
serve-IsHarmless server welcome lines conn u =
    serve_lines-IsHarmless server lines (write_message 220 welcome conn) u
