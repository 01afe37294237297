-- ===== src/Ipp/Faults.antt =====
-- services/ipp: requests on which the reader does not end, or panics.
pub mod Booleans
pub mod Ends
use honeytrap.Base.{
  ℕ, zero, suc, ◌+◌, ◌-◌, ◌*◌, ◌≤◌, ◌<◌, ◌≡◌, ◌≢◌, refl, arith, Bool, true, false, List, [], ◌∷◌,
  ◌++◌, length, length-append, drop, get_or, ◌==◌, ==_iff, if◌then◌else◌, ◌||◌, Option, none, some,
  ap, ◌∙◌, sym, subst, leb, ltb,
}
use honeytrap.Base.Bytes.{IsU16, IsU32}
use honeytrap.Base.Int.{ℤ, pos, negsuc}
use honeytrap.Base.Run.{Run, returns, starves, panics}
use honeytrap.Decoder.{
  Decode, Read, OutOfBounds, pure, advance, with_error, ◌>>=◌, ◌>>◌, and_then, byte, int16, int32,
  byte_at, seek, new_decoder, write_uint16, write_uint32, write_data,
}
use honeytrap.Decoder.Ahead.{Ahead, bind_returns, IsShort}
use honeytrap.Decoder.Reads.{
  byte_then, int16_then, int32_then, bind_both, bind_starves, bind_panics,
}
use honeytrap.Ipp.Values.{Value, val_bool, bit_of, bool_loop, decode_bool}
use honeytrap.Ipp.RoundTrip.Groups.{enters}
use honeytrap.Ipp.Faults.Ends.{stuck}
use honeytrap.Ipp.Message.{
  Group, Message, group_loop, decode_group, close_group, groups_loop, read_message, decode_message,
  result_of, decode_value, is_int_tag, is_str_tag,
}

-- A request that ends behind its eight bytes of header is never answered, however many rounds the reader
-- has, unless the last byte of its request identifier happens to be the end tag.
pub decode_message_starves :
    (limit a b c d e f g h : ℕ)
    → h ≢ 3
    → decode_message limit (a ∷ b ∷ c ∷ d ∷ e ∷ f ∷ g ∷ h ∷ []) ≡ starves
unfolding decode_message read_message new_decoder byte int16 int32
decode_message_starves limit a b c d e f g h differs =
    let ended : Decode = record {
      offset = 8;
      bytes = a ∷ b ∷ c ∷ d ∷ e ∷ f ∷ g ∷ h ∷ [];
      lasterror = some (record { max = 8; got = pos 9 });
    } in
    ap result_of (
      bind_starves (groups_loop limit limit 0) _ ended
        (stuck limit limit 0 ended refl (omega arith) refl (ground arith)))

-- Tags of values without a case in the switch.
abbrev pub is_known : ℕ → Bool
is_known t = is_int_tag t || t == 0x22 || is_str_tag t

unknown_panics : (limit t : ℕ) (d : Decode) → is_known t ≡ false → decode_value limit t d ≡ panics
unfolding decode_value
unknown_panics limit t d h = ground arith

value_panics :
    (limit fuel t : ℕ) (d : Decode)
    → 5 < t
    → is_known t ≡ false
    → d.lasterror ≡ none
    → group_loop limit (suc fuel) t d ≡ panics
value_panics limit fuel t d k h clean =
    enters limit fuel t d k clean
    ∙ bind_panics (decode_value limit t) _ d (unknown_panics limit t d h)

group_panics :
    (limit tag t : ℕ) (d : Decode) (rest : List ℕ)
    → 5 < t
    → is_known t ≡ false
    → d.lasterror ≡ none
    → Ahead d (t ∷ rest)
    → decode_group (suc limit) tag d ≡ panics
unfolding decode_group
group_panics limit tag t d rest k h clean ahead = byte_then d rest t _ ahead (λ k2.
    bind_panics (group_loop (suc limit) (suc limit) t) (close_group tag) (advance 1 d)
      (value_panics (suc limit) limit t (advance 1 d) k h clean))

groups_panic :
    (limit fuel dtag : ℕ) (d : Decode)
    → (dtag == 3) ≡ false
    → decode_group limit dtag d ≡ panics
    → groups_loop limit (suc fuel) dtag d ≡ panics
unfolding groups_loop
groups_panic limit fuel dtag d c h = rw c (bind_panics (decode_group limit dtag) _ d h)

int16_inside :
    (d : Decode)
    → d.offset + 2 ≤ length d.bytes
    → int16 d ≡ returns (byte_at 0 d * 256 + byte_at 1 d, advance 2 d)
unfolding int16
int16_inside d h = ground arith

int32_inside :
    (d : Decode)
    → d.offset + 4 ≤ length d.bytes
    → int32 d
      ≡ returns
          (((byte_at 0 d * 256 + byte_at 1 d) * 256 + byte_at 2 d) * 256 + byte_at 3 d, advance 4 d)
unfolding int32
int32_inside d h = ground arith

-- A request whose first attribute has a tag above the delimiters that the switch does not list, 0x46 for
-- a scheme among them, panics, whatever stands in the header and behind the tag.
pub decode_message_panics :
    (limit a b c d e f g h dtag t : ℕ) (rest : List ℕ)
    → 0 < limit
    → dtag ≢ 3
    → 5 < t
    → is_known t ≡ false
    → decode_message limit (a ∷ b ∷ c ∷ d ∷ e ∷ f ∷ g ∷ h ∷ dtag ∷ t ∷ rest) ≡ panics
unfolding decode_message read_message new_decoder
decode_message_panics zero a b c d e f g h dtag t rest l differs k u = absurd (omega arith)
decode_message_panics (suc limit) a b c d e f g h dtag t rest l differs k u =
    let behind : List ℕ = dtag ∷ t ∷ rest in
    let raw : Decode = new_decoder (a ∷ b ∷ c ∷ d ∷ e ∷ f ∷ g ∷ h ∷ behind) in
    ap result_of (
      byte_then raw (b ∷ c ∷ d ∷ e ∷ f ∷ g ∷ h ∷ behind) a _ (refl, omega arith)
        (λ k1. byte_then (advance 1 raw) (c ∷ d ∷ e ∷ f ∷ g ∷ h ∷ behind) b _ k1 (λ k2.
          bind_returns int16 _ (advance 2 raw) (int16_inside (advance 2 raw) (omega arith))
          ∙ bind_returns int32 _ (advance 4 raw) (int32_inside (advance 4 raw) (omega arith))
          ∙ byte_then (advance 8 raw) (t ∷ rest) dtag _ (refl, omega arith)
              (λ k3. bind_panics (groups_loop (suc limit) (suc limit) dtag) _ (advance 9 raw) (
                groups_panic (suc limit) limit dtag (advance 9 raw) (ground arith)
                  (group_panics limit dtag t (advance 9 raw) rest k u refl k3))))))
