-- ===== src/Ipp/RoundTrip.antt =====
-- services/ipp: a message that is written is read again.
pub mod Values
pub mod Groups
use mathlib.Core.List.{append_assoc}
use honeytrap.Base.{
  ℕ, zero, suc, ◌+◌, ◌-◌, ◌%◌, ◌≤◌, ◌<◌, ◌≡◌, ◌≢◌, refl, arith, Bool, true, false, List, [], ◌∷◌,
  ◌++◌, length, length-append, ◌==◌, if◌then◌else◌, Option, none, some, ap, ◌∙◌, sym, subst, take,
  drop, leb,
}
use honeytrap.Base.Bytes.{All, IsByte, IsU16, IsU32}
use honeytrap.Base.Int.{ℤ, pos, negsuc}
use honeytrap.Base.Run.{Run, returns, starves, panics}
use honeytrap.Decoder.{
  Decode, Read, pure, advance, ◌>>=◌, ◌>>◌, and_then, byte, int16, int32, copy, available, seek,
  new_decoder, write_uint16, write_uint32,
}
use honeytrap.Decoder.Ahead.{Ahead, bind_returns, advance-Ahead, fits, take-append}
use honeytrap.Decoder.Reads.{byte_then, int16_then, int32_then, bind_both}
use honeytrap.Ipp.Values.{Value}
use honeytrap.Ipp.Message.{
  Group, Message, encode_values, encode_groups, encode_message, group_loop, decode_group,
  close_group, cons_group, groups_loop, finish, read_message, decode_message, result_of, has_failed,
  on_group,
}
use honeytrap.Ipp.RoundTrip.Values.{step_back}
use honeytrap.Ipp.RoundTrip.Groups.{IsReadable, count_of, group_values}

-- A group that the reader gives back within `limit` rounds.
pub record IsGroup (limit : ℕ) (g : Group) : Type 0 where
  pub delimits : g.tag ≤ 5
  pub continues : (g.tag == 3) ≡ false
  pub readable : All IsReadable g.val
  pub counted : All (λ v. count_of v ≤ limit) g.val
  pub within : length g.val < limit

decode_group_ahead :
    (limit t : ℕ) (g : Group) (d : Decode) (rest : List ℕ)
    → IsGroup limit g
    → t ≤ 5
    → d.lasterror ≡ none
    → Ahead d (encode_values g.val ++ (t ∷ rest))
    → decode_group limit g.tag d ≡ returns (some g, advance (length (encode_values g.val)) d)
unfolding decode_group
decode_group_ahead limit t g d rest is k clean h =
    bind_both byte (group_loop limit limit) (close_group g.tag) d
      (group_values limit limit g.val t d rest is.within is.readable is.counted k clean h)
    ∙ step_back (some g) d (encode_values g.val) (t ∷ rest) h (omega arith)

-- Behind a group stands a delimiter.
next_delimiter :
    (limit : ℕ) (gs : List Group) (content : List ℕ)
    → All (IsGroup limit) gs
    → (t : ℕ) × (rest : List ℕ) × (t ≤ 5) × (encode_groups gs ++ (3 ∷ content) ≡ t ∷ rest)
unfolding encode_groups
next_delimiter limit [] content is = (3, content, omega arith, refl)
next_delimiter limit (g ∷ gs) content is = (g.tag, _, is.0.delimits, refl)

-- One more group, in front of those that the loop reads.
groups_more :
    (limit fuel : ℕ) (g : Group) (gs : List Group) (d : Decode) (behind : List ℕ)
    → IsGroup limit g
    → d.lasterror ≡ none
    → Ahead d (g.tag ∷ (encode_values g.val ++ behind))
    → (t : ℕ) × (rest : List ℕ) × (t ≤ 5) × (behind ≡ t ∷ rest)
    → (n : ℕ)
    → ((d' : Decode)
        → d'.lasterror ≡ none
        → Ahead d' behind
        → (byte >>= groups_loop limit fuel) d' ≡ returns (some gs, advance n d'))
    → (byte >>= groups_loop limit (suc fuel)) d
      ≡ returns (some (g ∷ gs), advance (1 + length (encode_values g.val) + n) d)
groups_more limit fuel g gs d behind is clean h (t, rest, k, e) n ih =
    byte_then d (encode_values g.val ++ behind) g.tag (groups_loop limit (suc fuel)) h (λ ahead.
      unfold groups_loop in
      rw is.continues (
        bind_returns (decode_group limit g.tag) _ (advance 1 d)
          (decode_group_ahead limit t g (advance 1 d) rest is k clean (rw e at ahead))
        ∙ bind_both byte (groups_loop limit fuel) (λ more. pure (cons_group g more)) (read)
            (ih read clean (advance-Ahead (advance 1 d) (encode_values g.val) behind ahead))
        ∙ ground arith))
  where
    read : Decode
    read = advance (length (encode_values g.val)) (advance 1 d)

-- The groups of a message, up to the end tag.
groups_ahead :
    (limit fuel : ℕ) (gs : List Group) (d : Decode) (content : List ℕ)
    → length gs < fuel
    → All (IsGroup limit) gs
    → d.lasterror ≡ none
    → Ahead d (encode_groups gs ++ (3 ∷ content))
    → (byte >>= groups_loop limit fuel) d
      ≡ returns (some gs, advance (length (encode_groups gs) + 1) d)
unfolding encode_groups
groups_ahead limit zero gs d content f is clean h = absurd (omega arith)
groups_ahead limit (suc fuel) [] d content f is clean h =
    byte_then d content 3 (groups_loop limit (suc fuel)) h (λ k. unfold groups_loop in refl)
groups_ahead limit (suc fuel) (g ∷ gs) d content f is clean h =
    let behind : List ℕ = encode_groups gs ++ (3 ∷ content) in
    groups_more limit fuel g gs d behind is.0 clean
      (
        h.0
            ∙ ap (λ (b : List ℕ). g.tag ∷ b)
                (append_assoc (encode_values g.val) (encode_groups gs) (3 ∷ content)),
        h.1,
      )
      (next_delimiter limit gs content is.1) (length (encode_groups gs) + 1)
      (λ d' clean' h'. groups_ahead limit fuel gs d' content (omega arith) is.1 clean' h')
    ∙ ground (arith, length-append (encode_values g.val) (encode_groups gs))

abbrev end_group : Group
end_group = record { tag = 3; val = [] }

take_all : (xs : List ℕ) → take (length xs) xs ≡ xs
take_all [] = refl
take_all (x ∷ xs) = ap (λ (ys : List ℕ). x ∷ ys) (take_all xs)

copy_all :
    (n : ℕ) (d : Decode)
    → leb (d.offset + n) (length d.bytes) ≡ true
    → copy (pos n) d ≡ returns (take n (drop d.offset d.bytes), advance n d)
unfolding copy
copy_all n d inside = rw (copy, inside) refl

-- What is left of the bytes is copied.
copy_rest :
    (d : Decode) (content : List ℕ)
    → Ahead d content
    → copy (pos (available d)) d ≡ returns (content, advance (length content) d)
copy_rest d content h =
    let fit = fits d content h in
    let size : length d.bytes - d.offset ≡ length content = omega arith in
    copy_all (available d) d (ground arith) ∙ rw (size, h.0, take_all content) refl

module _ (limit : ℕ) (m : Message) (gs : List Group) where
  finish_ahead :
      (d : Decode)
      → d.lasterror ≡ none
      → Ahead d m.content
      → m.attributes ≡ gs ++ (end_group ∷ [])
      → finish m.version_major m.version_minor m.status_code m.request_id (some gs) d
        ≡ returns (some m, advance (length m.content) d)
  finish_ahead d clean h e =
      bind_returns (copy (pos (available d))) _ d (copy_rest d m.content h)
      ∙ rw clean (
          ap
            (λ (ys : List Group). returns (
              some (record m { attributes = ys }),
              record { offset = d.offset + length m.content; bytes = d.bytes; lasterror = none },
            ))
            (sym e))

  encode_end :
      (hs : List Group) → encode_groups (hs ++ (end_group ∷ [])) ≡ encode_groups hs ++ (3 ∷ [])
  unfolding encode_groups encode_values
  encode_end [] = refl
  encode_end (h ∷ hs) = rw (encode_end hs) simp (append_assoc)

  written :
      m.attributes ≡ gs ++ (end_group ∷ [])
      → encode_message m ++ m.content
        ≡ m.version_major
          ∷ (m.version_minor
              ∷ (write_uint16 m.status_code
                  ++ (write_uint32 m.request_id ++ (encode_groups gs ++ (3 ∷ m.content)))))
  unfolding encode_message write_uint16 write_uint32
  written e = rw (e, encode_end gs) simp (append_assoc)

  after_groups :
      (d : Decode)
      → Ahead d (encode_groups gs ++ (3 ∷ m.content))
      → Ahead (advance (length (encode_groups gs) + 1) d) m.content
  after_groups d h =
      subst (λ n. Ahead (advance n d) m.content) (length-append (encode_groups gs) (3 ∷ []))
        (advance-Ahead d (encode_groups gs ++ (3 ∷ [])) m.content (h.0 ∙ simp (append_assoc), h.1))

  header : Decode → Decode
  header d = advance 4 (advance 2 (advance 1 (advance 1 d)))

  behind : Decode → Decode
  behind d = advance (length m.content) (advance (length (encode_groups gs) + 1) (header d))

  read_ahead :
      (d : Decode)
      → IsU16 m.status_code
      → IsU32 m.request_id
      → length gs < limit
      → All (IsGroup limit) gs
      → d.lasterror ≡ none
      → Ahead d (encode_message m ++ m.content)
      → m.attributes ≡ gs ++ (end_group ∷ [])
      → read_message limit d ≡ returns (some m, behind d)
  unfolding read_message behind header
  read_ahead d status id f is clean h e =
      let groups : List ℕ = encode_groups gs ++ (3 ∷ m.content) in
      byte_then d _ m.version_major _ (h.0 ∙ written e, h.1)
        (λ k1. byte_then (advance 1 d) _ m.version_minor _ k1 (λ k2.
          int16_then (advance 1 (advance 1 d)) (write_uint32 m.request_id ++ groups) m.status_code _
            status k2
            (λ k3.
              int32_then (advance 2 (advance 1 (advance 1 d))) groups m.request_id _ id k3 (λ k4.
                bind_both byte (groups_loop limit limit)
                  (λ gs'. finish m.version_major m.version_minor m.status_code m.request_id gs')
                  (header d) (groups_ahead limit limit gs (header d) m.content f is clean k4)
                ∙ finish_ahead (advance (length (encode_groups gs) + 1) (header d)) clean
                    (after_groups (header d) k4) e))))

-- A message whose groups the reader can give back, behind them the end tag, is read again from its bytes
-- followed by its content, within any number of rounds that is above the number of groups and of the
-- attributes in each group, and not below the number of values of an attribute.
pub decode_message-encode_message :
    (limit : ℕ) (m : Message) (gs : List Group)
    → IsU16 m.status_code
    → IsU32 m.request_id
    → length gs < limit
    → All (IsGroup limit) gs
    → m.attributes ≡ gs ++ (record { tag = 3; val = [] } ∷ [])
    → decode_message limit (encode_message m ++ m.content) ≡ returns (some m)
unfolding decode_message new_decoder
decode_message-encode_message limit m gs status id f is e =
    let raw : List ℕ = encode_message m ++ m.content in
    ap result_of (read_ahead limit m gs (new_decoder raw) status id f is refl (refl, omega arith) e)
