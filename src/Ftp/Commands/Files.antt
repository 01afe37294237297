-- ===== src/Ftp/Commands/Files.antt =====
-- services/ftp/cmd.go: the commands on files and directories.
use honeytrap.Base.{true, false, [], ◌∷◌, ◌++◌, Option, none, some, ok}
use honeytrap.Base.Text.{Text, codes, itoa}
use honeytrap.Ftp.Session.{Server, Session, FileInfo, write_message}
use honeytrap.Ftp.Command.{Command}

-- A change of the files that ends with a reply for success and one for an error.
abbrev answered :
    {F : Type 0}
    → F × Option Text
    → (Session F → Session F)
    → (Text → Session F → Session F)
    → Session F
    → Session F
answered (files', none) fine wrong conn = fine (record conn { files = files' })
answered (files', some e) fine wrong conn = wrong e (record conn { files = files' })

abbrev change_dir : {F : Type 0} → Server F → Text → Session F → Session F
change_dir server param conn =
    answered (server.driver.change_dir conn.files param)
      (λ c. write_message 250 (codes "Directory changed to " ++ server.driver.cur_dir c.files) c)
      (λ e c.
        write_message 550
          (codes "Directory change to "
            ++ server.driver.cur_dir c.files
            ++ codes " failed: "
            ++ e
            ++ (10 ∷ []))
          c)
      conn

abbrev pub command_cdup : {F : Type 0} → Command F
command_cdup = record {
  is_extend = false;
  require_param = false;
  require_auth = true;
  execute = λ server net param conn. ok (change_dir server (codes "..") conn);
}

abbrev pub command_cwd : {F : Type 0} → Command F
command_cwd = record {
  is_extend = false;
  require_param = true;
  require_auth = true;
  execute = λ server net param conn. ok (change_dir server param conn);
}

abbrev pub command_dele : {F : Type 0} → Command F
command_dele = record {
  is_extend = false;
  require_param = true;
  require_auth = true;
  execute = λ server net param conn. ok (
      answered (server.driver.delete_file conn.files param)
        (λ c. write_message 250 (codes "File deleted") c)
        (λ e c. write_message 550 (codes "File delete failed:  " ++ e ++ (10 ∷ [])) c) conn);
}

abbrev pub command_mkd : {F : Type 0} → Command F
command_mkd = record {
  is_extend = false;
  require_param = true;
  require_auth = true;
  execute = λ server net param conn. ok (
      answered (server.driver.make_dir conn.files param)
        (λ c. write_message 257 (codes "Directory created") c)
        (λ e c. write_message 550 (codes "Action not taken: " ++ e ++ (10 ∷ [])) c) conn);
}

abbrev pub command_pwd : {F : Type 0} → Command F
command_pwd = record {
  is_extend = false;
  require_param = false;
  require_auth = true;
  execute = λ server net param conn. ok (write_message 257 (server.driver.cur_dir conn.files) conn);
}

abbrev pub command_rnfr : {F : Type 0} → Command F
command_rnfr = record {
  is_extend = false;
  require_param = true;
  require_auth = true;
  execute = λ server net param conn. ok (
      write_message 350 (codes "Requested file action pending further information.")
        (record conn { rename_from = param }));
}

abbrev pub command_rnto : {F : Type 0} → Command F
command_rnto = record {
  is_extend = false;
  require_param = true;
  require_auth = true;
  execute = λ server net param conn.
      ok
        (record (answered (server.driver.rename conn.files conn.rename_from param)
          (λ c. write_message 250 (codes "File renamed") c)
          (λ e c. write_message 550 (codes "Action not taken " ++ e ++ (10 ∷ [])) c) conn) {
            rename_from = [];
          });
}

abbrev pub command_rmd : {F : Type 0} → Command F
command_rmd = record {
  is_extend = false;
  require_param = true;
  require_auth = true;
  execute = λ server net param conn. ok (
      answered (server.driver.delete_dir conn.files param)
        (λ c. write_message 250 (codes "Directory deleted") c)
        (λ e c. write_message 550 (codes "Directory delete failed: " ++ e ++ (10 ∷ [])) c) conn);
}

-- Behind `Stat`: there is no return between the two replies.
abbrev tell_time : {F : Type 0} → Option FileInfo → Session F → Session F
tell_time none conn = write_message 450 (codes "File not available") conn
tell_time (some info) conn =
    write_message 450 (codes "File not available") (write_message 213 info.mod_time conn)

abbrev tell_size : {F : Type 0} → Text → Option FileInfo → Session F → Session F
tell_size param none conn =
    write_message 450 (codes "path " ++ param ++ codes " not found" ++ (10 ∷ [])) conn
tell_size param (some info) conn = write_message 213 (itoa info.size) conn

abbrev pub command_mdtm : {F : Type 0} → Command F
command_mdtm = record {
  is_extend = false;
  require_param = true;
  require_auth = true;
  execute = λ server net param conn. ok (tell_time (server.driver.stat conn.files param) conn);
}

abbrev pub command_size : {F : Type 0} → Command F
command_size = record {
  is_extend = false;
  require_param = true;
  require_auth = true;
  execute =
      λ server net param conn. ok (tell_size param (server.driver.stat conn.files param) conn);
}
