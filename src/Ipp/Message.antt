-- ===== src/Ipp/Message.antt =====
-- services/ipp/group.go and message.go: groups of attributes, and messages.
use honeytrap.Base.{
  ℕ, zero, suc, Bool, true, false, ◌||◌, List, [], ◌∷◌, ◌++◌, ltb, ◌==◌, if◌then◌else◌, Option,
  none, some,
}
use honeytrap.Base.Int.{pos, negsuc}
use honeytrap.Base.Run.{Run, returns, starves, panics}
use honeytrap.Decoder.{
  Decode, Read, pure, ◌>>=◌, ◌>>◌, byte, int16, int32, copy, available, seek, new_decoder,
  write_uint16, write_uint32,
}
use honeytrap.Ipp.Values.{Value, encode_value, decode_int, decode_str, decode_bool}

-- The delimiter tags, which end at `unsup_attrib_tag`.
abbrev pub op_attrib_tag : ℕ
op_attrib_tag = 1

abbrev pub end_attrib_tag : ℕ
end_attrib_tag = 3

abbrev pub printer_attrib_tag : ℕ
printer_attrib_tag = 4

abbrev pub unsup_attrib_tag : ℕ
unsup_attrib_tag = 5

pub record Group : Type 0 where
  pub tag : ℕ
  pub val : List Value

pub record Message : Type 0 where
  pub version_major : ℕ
  pub version_minor : ℕ
  pub status_code : ℕ
  pub request_id : ℕ
  pub attributes : List Group
  pub content : List ℕ

abbrev pub is_int_tag : ℕ → Bool
is_int_tag t = t == 0x21 || t == 0x33 || t == 0x23

abbrev pub is_str_tag : ℕ → Bool
is_str_tag t =
    t == 0x44 || t == 0x47 || t == 0x45 || t == 0x48 || t == 0x49 || t == 0x41 || t == 0x42

-- The switch of `attribGroup.decode`. Any other tag leaves the interface nil, and calling it panics.
unfoldable pub decode_value : ℕ → ℕ → Read Value
decode_value fuel vtag d =
    if is_int_tag vtag
    then decode_int vtag d
    else if vtag == 0x22
    then decode_bool fuel vtag d
    else if is_str_tag vtag
    then decode_str fuel vtag d
    else panics

-- `dec.LastError() != nil`.
abbrev pub has_failed : Read Bool
has_failed d = returns (elim (d.lasterror) [ none ↦ false | some e ↦ true ], d)

abbrev pub cons_value : Value → Option (List Value) → Option (List Value)
cons_value v none = none
cons_value v (some vs) = some (v ∷ vs)

-- The loop of `attribGroup.decode`; `none` is its error.
unfoldable pub group_loop : ℕ → ℕ → ℕ → Read (Option (List Value))
group_loop limit zero vtag d = starves
group_loop limit (suc fuel) vtag d =
    let one = (do
      v ← decode_value limit vtag
      next ← byte
      more ← group_loop limit fuel next
      pure (cons_value v more)) in
    let checked = (do bad ← has_failed; if bad then pure none else one) in
    if ltb unsup_attrib_tag vtag then checked d else pure (some []) d

-- Behind the loop the delimiter is put back.
abbrev pub close_group : ℕ → Option (List Value) → Read (Option Group)
close_group tag none = pure none
close_group tag (some vs) = seek (negsuc 0) >> pure (some (record { tag = tag; val = vs }))

unfoldable pub decode_group : ℕ → ℕ → Read (Option Group)
unfolding group_loop
decode_group limit tag = do vtag ← byte; vals ← group_loop limit limit vtag; close_group tag vals

abbrev pub cons_group : Group → Option (List Group) → Option (List Group)
cons_group g none = none
cons_group g (some gs) = some (g ∷ gs)

abbrev pub on_group :
    Option Group → (Group → Read (Option (List Group))) → Read (Option (List Group))
on_group none f = pure none
on_group (some g) f = f g

-- The loop of `ippMsg.decode` over the groups.
unfoldable pub groups_loop : ℕ → ℕ → ℕ → Read (Option (List Group))
unfolding decode_group
groups_loop limit zero dtag d = starves
groups_loop limit (suc fuel) dtag d =
    let one = (do
      group ← decode_group limit dtag
      on_group group
          (λ g. do next ← byte; more ← groups_loop limit fuel next; pure (cons_group g more))) in
    if dtag == end_attrib_tag then pure (some []) d else one d

-- The end tag is appended, and what is left is the printed document.
abbrev pub finish : ℕ → ℕ → ℕ → ℕ → Option (List Group) → Read (Option Message)
finish major minor status id none = pure none
finish major minor status id (some gs) = do
  size ← (λ d. pure (available d) d)
  content ← copy (pos size)
  bad ← has_failed
  pure (
      if bad
      then none
      else some (record {
        version_major = major;
        version_minor = minor;
        status_code = status;
        request_id = id;
        attributes = gs ++ (record { tag = end_attrib_tag; val = [] } ∷ []);
        content = content;
      }))

unfoldable pub read_message : ℕ → Read (Option Message)
unfolding groups_loop
read_message limit = do
  major ← byte
  minor ← byte
  status ← int16
  id ← int32
  dtag ← byte
  groups ← groups_loop limit limit dtag
  finish major minor status id groups

abbrev pub result_of : {A : Type 0} → Run (A × Decode) → Run A
result_of (returns (a, d)) = returns a
result_of panics = panics
result_of starves = starves

-- `ippMsg.decode`, within `limit` rounds of each loop.
unfoldable pub decode_message : ℕ → List ℕ → Run (Option Message)
unfolding read_message new_decoder
decode_message limit raw = result_of (read_message limit (new_decoder raw))

unfoldable pub encode_values : List Value → List ℕ
unfolding encode_value
encode_values [] = []
encode_values (v ∷ vs) = encode_value v ++ encode_values vs

unfoldable pub encode_groups : List Group → List ℕ
unfolding encode_values
encode_groups [] = []
encode_groups (g ∷ gs) = g.tag ∷ (encode_values g.val ++ encode_groups gs)

-- `ippMsg.encode`; the content is not written.
unfoldable pub encode_message : Message → List ℕ
unfolding encode_groups
encode_message m =
    m.version_major
    ∷ (m.version_minor
        ∷ (write_uint16 m.status_code ++ (write_uint32 m.request_id ++ encode_groups m.attributes)))
