-- ===== src/Ipp/Examples.antt =====
-- The theorems on printing, at a request with a character set, two numbers and a document.
use honeytrap.Base.{ℕ, ◌≡◌, refl, arith, false, List, [], ◌∷◌, ◌++◌, some}
use honeytrap.Base.Text.{codes}
use honeytrap.Base.Run.{returns, panics, starves}
use honeytrap.Ipp.Values.{val_int, val_str, val_bool}
use honeytrap.Ipp.Message.{Group, Message, encode_message, decode_message}
use honeytrap.Ipp.RoundTrip.{IsGroup, decode_message-encode_message}
use honeytrap.Ipp.Faults.{decode_message_starves, decode_message_panics}
use honeytrap.Ipp.Faults.Booleans.{encoded_bool_starves}
use honeytrap.Ipp.Handler.{ipp_handler, no_job}
use honeytrap.Ipp.Handler.Repeats.{IsRepeated, IsListed}
use honeytrap.Ipp.Handler.Answers.{answer_with, ipp_handler-decode_message}
use honeytrap.Ipp.Handler.Jobs.{ipp_handler_panics}

abbrev operation : Group
operation = record {
  tag = 1;
  val =
      val_str 0x47 (codes "attributes-charset") (codes "utf-8" ∷ [])
      ∷ (val_int 0x21 (codes "limit") (7 ∷ 8 ∷ [])
          ∷ (val_str 0x44 (codes "requested") (codes "a" ∷ (codes "b" ∷ [])) ∷ []));
}

abbrev ends : Group
ends = record { tag = 3; val = [] }

-- A request for an operation, by its number.
abbrev request : ℕ → List Group → Message
request op groups = record {
  version_major = 2;
  version_minor = 0;
  status_code = op;
  request_id = 77;
  attributes = groups;
  content = 37 ∷ 80 ∷ [];
}

IsGroup-operation : IsGroup 9 operation
IsGroup-operation = record {
  delimits = omega arith;
  continues = refl;
  readable = (
    (refl, (omega arith, omega arith), omega arith, tt),
    (
      (refl, (omega arith, omega arith), omega arith, omega arith),
      ((refl, (omega arith, omega arith), omega arith, (omega arith, tt)), tt),
    ),
  );
  counted = (omega arith, (omega arith, (omega arith, tt)));
  within = omega arith;
}

decode_message-encode_message_example :
    decode_message 9 (encode_message (request 4 (operation ∷ (ends ∷ []))) ++ (37 ∷ 80 ∷ []))
    ≡ returns (some (request 4 (operation ∷ (ends ∷ []))))
decode_message-encode_message_example =
    decode_message-encode_message 9 (request 4 (operation ∷ (ends ∷ []))) (operation ∷ [])
      (omega arith) (omega arith) (omega arith) (IsGroup-operation, tt) refl

decode_message_starves_example : decode_message 50 (2 ∷ 0 ∷ 0 ∷ 11 ∷ 0 ∷ 0 ∷ 0 ∷ 1 ∷ []) ≡ starves
decode_message_starves_example = decode_message_starves 50 2 0 0 11 0 0 0 1 (ground arith)

decode_message_panics_example :
    decode_message 1 (2 ∷ 0 ∷ 0 ∷ 11 ∷ 0 ∷ 0 ∷ 0 ∷ 1 ∷ 1 ∷ 0x46 ∷ (0 ∷ 0 ∷ [])) ≡ panics
decode_message_panics_example =
    decode_message_panics 1 2 0 0 11 0 0 0 1 1 0x46 (0 ∷ 0 ∷ []) (omega arith) (ground arith)
      (omega arith) refl

abbrev with_bool : List Group
with_bool =
    record { tag = 1; val = val_bool 0x22 (codes "fidelity") (false ∷ []) ∷ [] } ∷ (ends ∷ [])

encoded_bool_starves_example : decode_message 50 (encode_message (request 4 with_bool)) ≡ starves
encoded_bool_starves_example =
    encoded_bool_starves 50 (request 4 with_bool) 1 (codes "fidelity") false (omega arith)
      (omega arith) (omega arith) (ground arith) refl

abbrev devices : Message
devices = request 0x400b (operation ∷ (ends ∷ []))

ipp_handler-decode_message_example :
    (first : List Group) × (printers : List Group) × IsRepeated (operation ∷ []) first
    × IsListed 0x400b printers
    × (ipp_handler (codes "lp" ∷ []) 9 (encode_message devices ++ (37 ∷ 80 ∷ []))
        ≡ returns
            (some (record { message = answer_with devices (first ++ printers); job = no_job })))
    × (decode_message 9 (encode_message (answer_with devices (first ++ printers)))
        ≡ returns (some (record (answer_with devices (first ++ printers)) { content = [] })))
ipp_handler-decode_message_example =
    ipp_handler-decode_message (codes "lp" ∷ []) 9 devices (operation ∷ []) (omega arith)
      (omega arith) (omega arith) (omega arith) (ground arith) (ground arith)
      (IsGroup-operation, tt) refl

ipp_handler_panics_example :
    ipp_handler [] 9 (encode_message (request 2 (operation ∷ (ends ∷ []))) ++ (37 ∷ 80 ∷ []))
    ≡ panics
ipp_handler_panics_example =
    ipp_handler_panics [] 9 (encode_message (request 2 (operation ∷ (ends ∷ []))) ++ (37 ∷ 80 ∷ []))
      (request 2 (operation ∷ (ends ∷ []))) [] (ends ∷ []) operation
      (val_str 0x47 (codes "attributes-charset") (codes "utf-8" ∷ []) ∷ [])
      (val_str 0x44 (codes "requested") (codes "a" ∷ (codes "b" ∷ [])) ∷ [])
      (val_int 0x21 (codes "limit") (7 ∷ 8 ∷ []))
      (decode_message-encode_message 9 (request 2 (operation ∷ (ends ∷ []))) (operation ∷ [])
        (omega arith) (omega arith) (omega arith) (IsGroup-operation, tt) refl)
      refl refl tt refl refl refl
