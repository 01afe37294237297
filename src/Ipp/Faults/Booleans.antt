-- ===== src/Ipp/Faults/Booleans.antt =====
-- services/ipp: what `valBool` writes is not what it reads. The length of a value takes two bytes on the
-- wire and one in the reader, whose loop goes on while the tag differs.
use mathlib.Core.List.{append_assoc}
use honeytrap.Base.{
  ℕ, zero, suc, ◌+◌, ◌≡◌, ◌≢◌, refl, arith, Bool, true, false, List, [], ◌∷◌, ◌++◌, length, ◌==◌,
  none, ap, ◌∙◌,
}
use honeytrap.Base.Bytes.{IsU16, IsU32}
use honeytrap.Base.Run.{starves}
use honeytrap.Base.Text.{Text}
use honeytrap.Decoder.{
  Decode, advance, with_error, byte, int16, new_decoder, write_uint16, write_uint32, write_data,
}
use honeytrap.Decoder.Ahead.{Ahead, bind_returns, IsShort, fits}
use honeytrap.Decoder.Reads.{byte_then, int16_then, int32_then, data_then, bind_starves}
use honeytrap.Ipp.Values.{val_bool, bit_of, bool_loop, decode_bool, encode_value, encode_bools}
use honeytrap.Ipp.Message.{
  Message, group_loop, decode_group, close_group, groups_loop, read_message, decode_message,
  result_of, decode_value, encode_message, encode_groups, encode_values,
}
use honeytrap.Ipp.RoundTrip.Groups.{enters}
use honeytrap.Ipp.Faults.Ends.{too_far, byte_at_end, int16_at_end, group_starves}

-- One round where all bytes are read, and the rest of the loop.
bool_round :
    (fuel tag vtag : ℕ) (d : Decode)
    → d.offset ≡ length d.bytes
    → (vtag == tag) ≡ false
    → bool_loop fuel tag 0 (with_error (too_far 1 d) d) ≡ starves
    → bool_loop (suc fuel) tag vtag d ≡ starves
unfolding bool_loop
bool_round fuel tag vtag d h c ih = rw c (
    bind_returns int16 _ d (int16_at_end d (omega arith))
    ∙ bind_returns byte _ (with_error (too_far 2 d) d) (byte_at_end (with_error (too_far 2 d) d) h)
    ∙ bind_returns byte _ (with_error (too_far 1 d) d) (byte_at_end (with_error (too_far 1 d) d) h)
    ∙ bind_starves (bool_loop fuel tag 0) _ (with_error (too_far 1 d) d) ih)

bool_stuck :
    (fuel tag vtag : ℕ) (d : Decode)
    → d.offset ≡ length d.bytes
    → (vtag == tag) ≡ false
    → (0 == tag) ≡ false
    → bool_loop fuel tag vtag d ≡ starves
bool_stuck zero tag vtag d h c e = unfold bool_loop in refl
bool_stuck (suc fuel) tag vtag d h c e =
    bool_round fuel tag vtag d h c (bool_stuck fuel tag 0 (with_error (too_far 1 d) d) h e e)

-- The last byte is read as a value, and the loop goes on behind it.
last_round :
    (fuel tag vtag x : ℕ) (d : Decode)
    → Ahead d (x ∷ [])
    → (vtag == tag) ≡ false
    → (0 == tag) ≡ false
    → bool_loop (suc fuel) tag vtag d ≡ starves
unfolding bool_loop
last_round fuel tag vtag x d h c e = rw c (
    bind_returns int16 _ d (int16_at_end d (omega (arith, fits d (x ∷ []) h)))
    ∙ byte_then (with_error (too_far 2 d) d) [] x _ h (λ k.
      let read : Decode = advance 1 (with_error (too_far 2 d) d) in
      bind_returns byte _ read (byte_at_end read (omega (arith, fits read [] k)))
      ∙ bind_starves (bool_loop fuel tag 0) _ (with_error (too_far 1 read) read) (
          bool_stuck fuel tag 0 (with_error (too_far 1 read) read) (omega (arith, fits read [] k)) e
            e)))

-- The reader of a boolean takes the low byte of the length for the value, and the value for a tag.
bool_starves :
    (fuel : ℕ) (name : Text) (v : Bool) (x : ℕ) (d : Decode)
    → IsShort name
    → Ahead d (write_data name false ++ (write_uint16 1 ++ (bit_of v ∷ x ∷ [])))
    → decode_bool fuel 0x22 d ≡ starves
unfolding decode_bool
bool_starves fuel name v x d n h =
    data_then d (write_uint16 1 ++ (bit_of v ∷ x ∷ [])) name _ n h (λ k.
      let d1 : Decode = advance (2 + length name) d in
      byte_then d1 (1 ∷ bit_of v ∷ x ∷ []) 0 _ (unfold write_uint16 in k) (λ k1.
        byte_then (advance 1 d1) (bit_of v ∷ x ∷ []) 1 _ k1 (λ k2.
          byte_then (advance 1 (advance 1 d1)) (x ∷ []) (bit_of v) _ k2 (λ k3.
            bind_starves (bool_loop fuel 0x22 (bit_of v)) _ (advance 1 (advance 1 (advance 1 d1)))
              (loop_starves fuel v (advance 1 (advance 1 (advance 1 d1))) k3)))))
  where
    loop_starves :
        (fuel : ℕ) (v : Bool) (d : Decode)
        → Ahead d (x ∷ [])
        → bool_loop fuel 0x22 (bit_of v) d ≡ starves
    loop_starves zero v d k = unfold bool_loop in refl
    loop_starves (suc fuel) true d k = last_round fuel 0x22 1 x d k refl refl
    loop_starves (suc fuel) false d k = last_round fuel 0x22 0 x d k refl refl

as_bool : (limit : ℕ) (d : Decode) → decode_value limit 0x22 d ≡ decode_bool limit 0x22 d
unfolding decode_value
as_bool limit d = refl

group_bool :
    (limit tag : ℕ) (name : Text) (v : Bool) (d : Decode)
    → IsShort name
    → d.lasterror ≡ none
    → Ahead d (0x22 ∷ (write_data name false ++ (write_uint16 1 ++ (bit_of v ∷ 3 ∷ []))))
    → decode_group (suc limit) tag d ≡ starves
unfolding decode_group
group_bool limit tag name v d n clean h = byte_then d _ 0x22 _ h (λ k.
    bind_starves (group_loop (suc limit) (suc limit) 0x22) (close_group tag) (advance 1 d) (
      enters (suc limit) limit 0x22 (advance 1 d) (omega arith) clean
      ∙ bind_starves (decode_value (suc limit) 0x22) _ (advance 1 d) (
          as_bool (suc limit) (advance 1 d) ∙ bool_starves (suc limit) name v 3 (advance 1 d) n k)))

loop_bool :
    (limit tag : ℕ) (name : Text) (v : Bool) (d : Decode)
    → IsShort name
    → (tag == 3) ≡ false
    → d.lasterror ≡ none
    → Ahead d (0x22 ∷ (write_data name false ++ (write_uint16 1 ++ (bit_of v ∷ 3 ∷ []))))
    → groups_loop limit limit tag d ≡ starves
loop_bool zero tag name v d n c clean h = unfold groups_loop in refl
loop_bool (suc limit) tag name v d n c clean h =
    group_starves (suc limit) limit tag d c (group_bool limit tag name v d n clean h)

-- A message as the server writes it, with one group that holds one boolean attribute, and no
-- content behind the end tag, is never read to its end, however many rounds the reader has.
pub encoded_bool_starves :
    (limit : ℕ) (m : Message) (tag : ℕ) (name : Text) (v : Bool)
    → IsU16 m.status_code
    → IsU32 m.request_id
    → IsShort name
    → tag ≢ 3
    → m.attributes
      ≡ record { tag = tag; val = val_bool 0x22 name (v ∷ []) ∷ [] }
        ∷ (record { tag = 3; val = [] } ∷ [])
    → decode_message limit (encode_message m) ≡ starves
unfolding decode_message read_message new_decoder encode_message encode_groups encode_values
    encode_value encode_bools
encoded_bool_starves limit m tag name v status id n c e =
    let raw : Decode = new_decoder (encode_message m) in
    let bytes : List ℕ =
      0x22 ∷ (write_data name false ++ (write_uint16 1 ++ (bit_of v ∷ 3 ∷ []))) in
    ap result_of (
      byte_then raw _ m.version_major _ (rw e simp (append_assoc), omega arith)
        (λ k1. byte_then (advance 1 raw) _ m.version_minor _ k1 (λ k2.
          int16_then (advance 2 raw) (write_uint32 m.request_id ++ (tag ∷ bytes)) m.status_code _
            status k2
            (λ k3. int32_then (advance 4 raw) (tag ∷ bytes) m.request_id _ id k3 (λ k4.
              byte_then (advance 8 raw) bytes tag _ k4 (λ k5.
                bind_starves (groups_loop limit limit tag) _ (advance 9 raw)
                  (loop_bool limit tag name v (advance 9 raw) n (ground arith) refl k5)))))))
