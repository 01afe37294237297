-- ===== src/Ipp/Handler.antt =====
-- services/ipp/message.go and group.go: the answer to a request.
pub mod Repeats
pub mod Answers
pub mod Jobs
use honeytrap.Base.{
  ℕ, ◌+◌, ◌≡◌, Bool, true, false, ◌||◌, List, [], ◌∷◌, ◌++◌, length, ◌==◌, if◌then◌else◌, Option,
  none, some, map,
}
use honeytrap.Base.Text.{Text, codes, text_eq}
use honeytrap.Base.Run.{Run, returns, starves, panics}
use honeytrap.Ipp.Values.{Value, val_int, val_str, val_bool, val_range_int, tag_of}
use honeytrap.Ipp.Message.{
  Group, Message, decode_message, op_attrib_tag, end_attrib_tag, printer_attrib_tag,
}

-- The fields of `ippMsg` for the server's own use.
pub record Job : Type 0 where
  pub username : Text
  pub uri : Text
  pub format : Text
  pub jobname : Text

pub record Response : Type 0 where
  pub message : Message
  pub job : Job

-- What `IPP` appends to the profile, once for each service that is set up: the name of its printer.
abbrev pub printer_names : List Text → List Value
printer_names names = map (λ name. val_str 0x42 (codes "printer-name") (name ∷ [])) names

-- The profile that `group.go` sets up, with the names of the printers.
abbrev pub model : List Text → Group
model names = record {
  tag = printer_attrib_tag;
  val =
      val_str 0x44 (codes "compression-supported") (codes "none" ∷ [])
      ∷ (val_range_int 0x33 (codes "copies-supported") 1 1
          ∷ (val_str 0x49 (codes "document-format-supported") (
                codes "application/octet-stream"
                ∷ (codes "image/pwg-raster" ∷ (codes "application/pdf" ∷ [])))
              ∷ (val_str 0x42 (codes "marker-colors")
                    (codes "black" ∷ (codes "cyan" ∷ (codes "magenta" ∷ (codes "yellow" ∷ []))))
                  ∷ (val_int 0x21 (codes "marker-high-levels") (100 ∷ 100 ∷ 100 ∷ 100 ∷ [])
                      ∷ (val_int 0x21 (codes "marker-levels") (80 ∷ 100 ∷ 100 ∷ 100 ∷ [])
                          ∷ (val_int 0x21 (codes "marker-low-levels") (10 ∷ 10 ∷ 10 ∷ 10 ∷ [])
                              ∷ (val_str 0x44 (codes "media-cols-supported")
                                    (codes "media-type" ∷ (codes "media-size" ∷ []))
                                  ∷ (val_int 0x23 (codes "operations-supported") (2 ∷ 4 ∷ 11 ∷ [])
                                      ∷ (val_str 0x44 (codes "print-color-mode-supported") (
                                            codes "auto"
                                            ∷ (codes "color" ∷ (codes "monochrome" ∷ [])))
                                          ∷ (val_bool 0x22 (codes "printer-is-accepting-jobs")
                                                (true ∷ [])
                                              ∷ (val_int 0x23 (codes "printer-state") (3 ∷ [])
                                                  ∷ (val_str 0x44 (codes "printer-state-reasons")
                                                        (codes "none" ∷ [])
                                                      ∷ printer_names names))))))))))));
}

-- The attributes that an answer repeats: the character set and the language.
unfoldable pub kept : List Value → List Value
kept [] = []
kept (v ∷ vs) =
    let rest = kept vs in if tag_of v == 0x47 || tag_of v == 0x48 then v ∷ rest else rest

abbrev pub set_op_attrib_response : Group → Group
set_op_attrib_response gin = record { tag = gin.tag; val = kept gin.val }

-- The loop that looks for the operation attributes.
unfoldable pub op_response : List Group → List Group
unfolding kept
op_response [] = []
op_response (g ∷ gs) =
    let rest = op_response gs in
    if g.tag == op_attrib_tag then set_op_attrib_response g ∷ [] else rest

-- `v.val[0]`.
abbrev pub with_first : List Text → (Text → Job) → Run Job
with_first [] f = panics
with_first (v ∷ vs) f = returns (f v)

abbrev pub set_field : Text → List Text → Job → Run Job
set_field name val job =
    if text_eq name (codes "printer-uri")
    then with_first val (λ v. record job { uri = v })
    else if text_eq name (codes "requesting-user-name")
    then with_first val (λ v. record job { username = v })
    else if text_eq name (codes "document-format")
    then with_first val (λ v. record job { format = v })
    else if text_eq name (codes "job-name")
    then with_first val (λ v. record job { jobname = v })
    else returns job

-- `v, _ := val.(*valStr)`: the pointer is nil for another type, and its name is read.
abbrev pub set_value : Value → Job → Run Job
set_value (val_str tag name val) job = set_field name val job
set_value _ job = panics

abbrev pub and_run : {A B : Type 0} → Run A → (A → Run B) → Run B
and_run (returns a) f = f a
and_run panics f = panics
and_run starves f = starves

unfoldable pub set_values : List Value → Job → Run Job
set_values [] job = returns job
set_values (v ∷ vs) job = and_run (set_value v job) (λ j. set_values vs j)

-- `setPrintJobResponse`, but for the content, which the answer has already.
unfoldable pub set_print_job_response : List Group → Job → Run Job
unfolding set_values
set_print_job_response [] job = returns job
set_print_job_response (g ∷ gs) job =
    let rest = set_print_job_response gs job in
    if g.tag == op_attrib_tag then set_values g.val job else rest

abbrev pub no_job : Job
no_job = record { username = []; uri = []; format = []; jobname = [] }

abbrev pub end_group : Group
end_group = record { tag = end_attrib_tag; val = [] }

-- The switch over the operation: the groups that it adds, and the job.
unfoldable pub operation_groups : List Text → ℕ → List Group
operation_groups names op =
    if op == 0x000b
    then model names ∷ []
    else if op == 0x400b
    then record { tag = printer_attrib_tag; val = [] } ∷ []
    else []

unfoldable pub operation_job : ℕ → List Group → Run Job
unfolding set_print_job_response
operation_job op groups =
    if op == 0x0002 then set_print_job_response groups no_job else returns no_job

unfoldable pub answer : List Text → Message → Message
unfolding op_response operation_groups
answer names body = record {
  version_major = body.version_major;
  version_minor = body.version_minor;
  status_code = 0;
  request_id = body.request_id;
  attributes =
      op_response body.attributes ++ (operation_groups names body.status_code ++ (end_group ∷ []));
  content = body.content;
}

unfoldable pub respond : List Text → Message → Run (Option Response)
unfolding answer operation_job
respond names body =
    and_run (operation_job body.status_code body.attributes)
      (λ job. returns (some (record { message = answer names body; job = job })))

abbrev pub on_body : List Text → Option Message → Run (Option Response)
unfolding respond
on_body names none = returns none
on_body names (some body) = respond names body

-- `ippHandler`, within `limit` rounds of each loop of the reader, where the services that were set up have
-- printers with the given names.
unfoldable pub ipp_handler : List Text → ℕ → List ℕ → Run (Option Response)
unfolding respond
ipp_handler names limit raw = and_run (decode_message limit raw) (on_body names)
