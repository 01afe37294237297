-- ===== src/Ftp/Examples.antt =====
-- The theorems on the FTP sessions, at a driver whose files are a number that every change counts up.
use honeytrap.Base.{panic, ℕ, ◌+◌, ◌≡◌, refl, true, false, [], ◌∷◌, ◌++◌, none, some, ok, ◌>>=◌}
use honeytrap.Base.Text.{Text, codes, text_eq, trim, split_once}
use honeytrap.Ftp.Session.{Driver, Server, Network, Session, stored, check_passwd, write_message}
use honeytrap.Ftp.Line.{receive_line, serve, parse_line}
use honeytrap.Ftp.Line.Guarded.{receive_line-IsGuarded}
use honeytrap.Ftp.Line.Safe.{IsGuarded, IsReplied}
use honeytrap.Ftp.Line.Harmless.{IsHarmless, serve-IsHarmless}
use honeytrap.Ftp.Line.Faults.{receive_line-panics}
use honeytrap.Ftp.Line.Login.{receive_line-login}

abbrev counter : Driver ℕ
counter = record {
  stat = λ n path. none;
  change_dir = λ n path. (n, none);
  list_dir = λ n path. none;
  delete_dir = λ n path. (n + 1, none);
  delete_file = λ n path. (n + 1, none);
  rename = λ n old new. (n + 1, none);
  make_dir = λ n path. (n + 1, none);
  get_file = λ n path pos. none;
  put_file = λ n path conn append. ok (n + 1, stored 0);
  cur_dir = λ n. codes "/";
}

abbrev anonymous_only : Server ℕ
anonymous_only = record {
  driver = counter;
  users = (codes "anonymous", codes "anonymous") ∷ [];
  has_tls = true;
  listen_ip = codes "10.0.0.2";
}

abbrev quiet : Network
quiet = record { dial = λ host port. false; listen = none; handshake = false; copies = false }

abbrev opened : Session ℕ
opened = record {
  files = 0;
  replies = [];
  sent = [];
  data_conn = none;
  req_user = [];
  user = [];
  rename_from = [];
  last_file_pos = 0;
  append_data = false;
  closed = false;
  tls = false;
  feat_cmds = codes " EPRT";
}

abbrev delete_line : Text
delete_line = codes "DELE secret" ++ (13 ∷ 10 ∷ [])

receive_line-IsGuarded_example :
    (conn' : Session ℕ) × (receive_line anonymous_only quiet delete_line opened ≡ ok conn')
    × IsGuarded anonymous_only (parse_line delete_line).1 opened conn'
    × IsReplied opened conn'
receive_line-IsGuarded_example = receive_line-IsGuarded anonymous_only quiet delete_line opened refl

serve-IsHarmless_example :
    IsHarmless anonymous_only
      ((quiet, delete_line) ∷ [])
      opened
      (serve anonymous_only (codes "hi") ((quiet, delete_line) ∷ []) opened)
serve-IsHarmless_example =
    serve-IsHarmless anonymous_only (codes "hi") ((quiet, delete_line) ∷ []) opened refl

receive_line-login_example :
    (receive_line anonymous_only quiet (codes "USER anonymous") opened
      >>= receive_line anonymous_only quiet (codes "PASS anonymous"))
    ≡ ok (
        write_message 230
          (codes "Password ok, continue")
          (record (write_message 331 [] opened) { user = codes "anonymous" }))
receive_line-login_example =
    receive_line-login anonymous_only quiet quiet (codes "USER anonymous") (codes "PASS anonymous")
      (codes "anonymous") (codes "anonymous") opened (unfold parse_line trim split_once in refl)
      (unfold parse_line trim split_once in refl) refl refl (unfold check_passwd text_eq in refl)

-- A driver with one empty file at every path, and a session of a user.
abbrev one_file : Server ℕ
one_file = record anonymous_only {
  driver = record counter {
    stat = λ n path. some (record { mod_time = codes "20240101000000"; size = 0 });
    get_file = λ n path pos. some (0, []);
  };
}

abbrev logged_in : Session ℕ
logged_in = record opened { user = codes "anonymous" }

receive_line-panics_example : receive_line one_file quiet (codes "RETR a") logged_in ≡ panic
receive_line-panics_example =
    receive_line-panics one_file quiet (codes "RETR a") (codes "a") logged_in 0 []
      (unfold parse_line trim split_once in refl) refl refl refl refl
