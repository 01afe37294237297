-- ===== src/Ipp/Handler/Answers.antt =====
-- services/ipp: the answer is made of the request, and can be read.
use honeytrap.Base.{
  ℕ, ◌≤◌, ◌<◌, ◌≡◌, ◌≢◌, inl, inr, refl, arith, false, ◌||◌, List, [], ◌∷◌, ◌++◌, length,
  length-append, ◌==◌, Bool-cases, some, ap, ◌∙◌, sym, subst,
}
use mathlib.Core.List.{append_assoc, append-nil}
use honeytrap.Base.Bytes.{All, All-append, IsU16, IsU32}
use honeytrap.Base.Run.{returns}
use honeytrap.Base.Text.{Text}
use honeytrap.Ipp.Values.{Value, tag_of}
use honeytrap.Ipp.Message.{Group, Message, decode_message, encode_message}
use honeytrap.Ipp.RoundTrip.{IsGroup, decode_message-encode_message}
use honeytrap.Ipp.RoundTrip.Groups.{IsReadable, count_of}
use honeytrap.Ipp.Handler.Repeats.{
  IsRepeated, IsListed, op_response-IsRepeated, operation_groups-IsListed,
}
use honeytrap.Ipp.Handler.{
  kept, set_op_attrib_response, op_response, and_run, no_job, end_group, operation_groups,
  operation_job, answer, respond, ipp_handler, on_body,
}

-- What is kept of a list of attributes has what all of them have.
kept-All : (P : Value → Type 0) (vs : List Value) → All P vs → All P (kept vs)
unfolding kept
kept-All P [] h = h
kept-All P (v ∷ vs) h = elim (Bool-cases (tag_of v == 0x47 || tag_of v == 0x48)) [
  | inl holds ↦ rw holds (h.0, kept-All P vs h.1)
  | inr fails ↦ rw fails (kept-All P vs h.1)
]

length-kept : (vs : List Value) → length (kept vs) ≤ length vs
unfolding kept
length-kept [] = omega arith
length-kept (v ∷ vs) = ground (arith, length-kept vs)

op_response-All :
    (limit : ℕ) (gs : List Group) → All (IsGroup limit) gs → All (IsGroup limit) (op_response gs)
unfolding op_response
op_response-All limit [] h = h
op_response-All limit (g ∷ gs) h = elim (Bool-cases (g.tag == 1)) [
  | inl holds ↦ rw holds (kept-IsGroup g h.0, tt)
  | inr fails ↦ rw fails (op_response-All limit gs h.1)
]
  where
    kept-IsGroup : (g : Group) → IsGroup limit g → IsGroup limit (set_op_attrib_response g)
    kept-IsGroup g is = record {
      delimits = is.delimits;
      continues = is.continues;
      readable = kept-All IsReadable g.val is.readable;
      counted = kept-All (λ v. count_of v ≤ limit) g.val is.counted;
      within = omega (arith, length-kept g.val, is.within);
    }

-- The end tag, which is no group of operation attributes, changes nothing.
op_response_end : (gs : List Group) → op_response (gs ++ (end_group ∷ [])) ≡ op_response gs
unfolding op_response
op_response_end [] = refl
op_response_end (g ∷ gs) = elim (Bool-cases (g.tag == 1)) [
  | inl holds ↦ rw holds refl
  | inr fails ↦ rw fails (op_response_end gs)
]

length-op_response : (gs : List Group) → length (op_response gs) ≤ 1
unfolding op_response
length-op_response [] = omega arith
length-op_response (g ∷ gs) = ground (arith, length-op_response gs)

-- The groups of an answer in front of the end tag, where the operation is neither of 2 and 11.
abbrev answered : List Text → Message → List Group → List Group
answered names m gs = op_response gs ++ operation_groups names m.status_code

answer_groups :
    (names : List Text) (m : Message) (gs : List Group)
    → m.attributes ≡ gs ++ (end_group ∷ [])
    → (answer names m).attributes ≡ answered names m gs ++ (end_group ∷ [])
unfolding answer
answer_groups names m gs e =
    rw (e, op_response_end gs)
      (sym (append_assoc (op_response gs) (operation_groups names m.status_code) (end_group ∷ [])))

IsGroup-printer : (limit : ℕ) → 0 < limit → IsGroup limit (record { tag = 4; val = [] })
IsGroup-printer limit h = record {
  delimits = omega arith;
  continues = refl;
  readable = tt;
  counted = tt;
  within = h;
}

operation_groups-All :
    (names : List Text) (limit op : ℕ)
    → 0 < limit
    → op ≢ 11
    → All (IsGroup limit) (operation_groups names op)
unfolding operation_groups
operation_groups-All names limit op h differs =
    let other : (op == 11) ≡ false = ground arith in
    elim (Bool-cases (op == 0x400b)) [
      | inl holds ↦ rw (other, holds) (IsGroup-printer limit h, tt)
      | inr fails ↦ rw (other, fails) tt
    ]

length-operation_groups : (names : List Text) (op : ℕ) → length (operation_groups names op) ≤ 1
unfolding operation_groups
length-operation_groups names op = ground arith

module _ (names : List Text) (limit : ℕ) (m : Message) (gs : List Group) where
  answered-All :
      2 < limit
      → m.status_code ≢ 11
      → All (IsGroup limit) gs
      → All (IsGroup limit) (answered names m gs)
  answered-All h differs is =
      All-append (IsGroup limit) (op_response gs) (operation_groups names m.status_code)
        (op_response-All limit gs is)
        (operation_groups-All names limit m.status_code (omega arith) differs)

  length-answered : length (answered names m gs) ≤ 2
  length-answered = omega (
    arith,
    length-append (op_response gs) (operation_groups names m.status_code),
    length-op_response gs,
    length-operation_groups names m.status_code,
  )

  unsent :
      encode_message (answer names m)
      ≡ encode_message (record (answer names m) { content = [] }) ++ []
  unfolding encode_message
  unsent = sym (append-nil _)

  -- What a client reads from the answer, whose content is not sent.
  read_answer :
      2 < limit
      → m.status_code ≢ 11
      → IsU32 m.request_id
      → All (IsGroup limit) gs
      → m.attributes ≡ gs ++ (end_group ∷ [])
      → decode_message limit (encode_message (answer names m))
        ≡ returns (some (record (answer names m) { content = [] }))
  unfolding answer
  read_answer h differs id is e =
      ap (λ bytes. decode_message limit bytes) unsent
      ∙ decode_message-encode_message limit (record (answer names m) { content = [] })
          (answered names m gs) (omega arith) id (omega (arith, length-answered))
          (answered-All h differs is) (answer_groups names m gs e)

no_print_job : (op : ℕ) (gs : List Group) → op ≢ 2 → operation_job op gs ≡ returns no_job
unfolding operation_job
no_print_job op gs differs = ground arith

respond-answer :
    (names : List Text) (body : Message)
    → body.status_code ≢ 2
    → respond names body ≡ returns (some (record { message = answer names body; job = no_job }))
unfolding respond
respond-answer names body differs =
    ap (λ r. and_run r (λ job. returns (some (record { message = answer names body; job = job }))))
      (no_print_job body.status_code body.attributes differs)

-- The answer to a request with some groups, in front of the end tag.
abbrev pub answer_with : Message → List Group → Message
answer_with m gs = record {
  version_major = m.version_major;
  version_minor = m.version_minor;
  status_code = 0;
  request_id = m.request_id;
  attributes = gs ++ (record { tag = 3; val = [] } ∷ []);
  content = m.content;
}

answer_written :
    (names : List Text) (m : Message) (gs : List Group)
    → m.attributes ≡ gs ++ (end_group ∷ [])
    → answer names m ≡ answer_with m (answered names m gs)
unfolding answer
answer_written names m gs e =
    ap (λ (ys : List Group). record (answer_with m gs) { attributes = ys })
      (answer_groups names m gs e)

-- A request of readable groups for an operation other than the printing of a job and the attributes of
-- the printer is answered, within any number of rounds above 2 that its sizes allow, with its version and
-- its identifier, status 0, of its first operation attributes those with the tags of a character set and
-- of a language, in order, and no others, the empty group of printers exactly where devices are asked for,
-- the end tag and its content; what is sent back is read by the same reader as that answer without its
-- content.
pub ipp_handler-decode_message :
    (names : List Text) (limit : ℕ) (m : Message) (gs : List Group)
    → 2 < limit
    → length gs < limit
    → IsU16 m.status_code
    → IsU32 m.request_id
    → m.status_code ≢ 2
    → m.status_code ≢ 11
    → All (IsGroup limit) gs
    → m.attributes ≡ gs ++ (record { tag = 3; val = [] } ∷ [])
    → (operation : List Group) × (printers : List Group) × IsRepeated gs operation
      × IsListed m.status_code printers
      × (ipp_handler names limit (encode_message m ++ m.content)
          ≡ returns
              (some (record { message = answer_with m (operation ++ printers); job = no_job })))
      × (decode_message limit (encode_message (answer_with m (operation ++ printers)))
          ≡ returns (some (record (answer_with m (operation ++ printers)) { content = [] })))
unfolding ipp_handler
ipp_handler-decode_message names limit m gs h f status id job printer is e =
    let written = answer_written names m gs e in
    (
      op_response gs,
      operation_groups names m.status_code,
      op_response-IsRepeated gs,
      operation_groups-IsListed names m.status_code printer,
      ap (λ r. and_run r (on_body names))
            (decode_message-encode_message limit m gs status id f is e)
          ∙ respond-answer names m job
          ∙ ap (λ a. returns (some (record { message = a; job = no_job }))) written,
      subst
          (λ a.
            decode_message limit (encode_message a) ≡ returns (some (record a { content = [] })))
          written (read_answer names limit m gs h printer id is e),
    )
