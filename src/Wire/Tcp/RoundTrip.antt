-- ===== src/Wire/Tcp/RoundTrip.antt =====
-- What `Unmarshal` of tcp.go reads from the bytes that `Marshal` wrote.
use Prim.Native.Nat.{bit_or}
use honeytrap.Base.{
  ℕ, zero, suc, ◌+◌, ◌-◌, ◌*◌, ◌/◌, ◌%◌, ◌≤◌, ◌<◌, ◌≡◌, refl, arith, true, List, [], ◌∷◌, ◌++◌,
  length, length-append, from, from_suffix, slice_middle, ◌==◌, ==_iff, none, ok, if◌then◌else◌,
  length-replicate, ◌∙◌, ap, ap₂,
}
use honeytrap.Base.Bits.{all_below, all_below_sound}
use honeytrap.Base.Bytes.{IsU16, IsU32, All, u8, put_uint16, put_uint32, uint16-put, uint32-put}
use honeytrap.Base.Buffer.{zeros, copy_at, copy_at-zeros, copy_at-zeros_all, zeros-add}
use honeytrap.Wire.Tcp.Defs.{
  TcpOption, Header, Parsed, one_byte, option_step, option_loop, check_offset, unmarshal,
}
use honeytrap.Wire.Tcp.Marshal.{option_length, write_options, padding_for, marshal}
use honeytrap.Wire.Tcp.Options.{
  IsWellFormed, behind, encode_options, length-encode_options, option_loop-encode_options,
  write_options-encode,
}
use mathlib.Core.List.{append_assoc}

pub record IsValid (hdr : Header) : Type 0 where
  pub source_fits : IsU16 hdr.source
  pub destination_fits : IsU16 hdr.destination
  pub seq_fits : IsU32 hdr.seq_num
  pub ack_fits : IsU32 hdr.ack_num
  pub reserved_zero : hdr.reserved ≡ 0
  pub ecn_fits : hdr.ecn < 4
  pub ctrl_fits : hdr.ctrl < 64
  pub window_fits : IsU16 hdr.window
  pub urgent_fits : IsU16 hdr.urgent
  pub options_formed : All IsWellFormed hdr.options
  pub options_fit : option_length hdr.options ≤ 40
  pub padding_none : hdr.padding ≡ []

-- The number of bytes that fill the options up to whole words.
abbrev pub fill : ℕ → ℕ
fill size = if size % 4 == 0 then 0 else 4 - size % 4

-- What the loop makes of the filling: an end-of-list option and the rest of the filling.
abbrev pub end_options : ℕ → List TcpOption
end_options zero = []
end_options (suc k) = one_byte 0 ∷ []

flags_table : all_below 256 (λ x. bit_or (u8 (x / 64 * 64)) (x % 64) == x) ≡ true
unfolding all_below
flags_table = refl

flags_byte : (e c : ℕ) → e < 4 → c < 64 → bit_or (u8 (e * 64)) c ≡ e * 64 + c
flags_byte e c h k = ground (
  arith,
  ==_iff (bit_or (u8 (x / 64 * 64)) (x % 64)) x,
  all_below_sound 256 (λ x. bit_or (u8 (x / 64 * 64)) (x % 64) == x) x (omega arith) flags_table,
  hi,
  lo,
)
  where
    x : ℕ
    x = e * 64 + c

    hi : x / 64 ≡ e
    hi = omega arith

    lo : x % 64 ≡ c
    lo = omega arith

option_loop-zeros :
    (k : ℕ)
    → option_loop 0 (zeros k)
      ≡ ok (record { options = end_options k; padding = zeros (k - 1); error = none })
unfolding option_loop option_step
option_loop-zeros zero = refl
option_loop-zeros (suc k) = ground arith

-- The buffer with the payload at its end.
body_buffer :
    (m k : ℕ) (payload : List ℕ)
    → copy_at (20 + m + k) payload (zeros (20 + m + k + length payload))
      ≡ zeros 20 ++ (zeros m ++ (zeros k ++ payload))
body_buffer m k payload = rw (zeros-add (20 + m + k) (length payload)) (
    behind (zeros (20 + m + k)) 0 payload (zeros (length payload)) {i = 20 + m + k} counted
    ∙ rw (copy_at-zeros_all payload, zeros-add (20 + m) k, zeros-add 20 m) (simp append_assoc))
  where
    counted : 20 + m + k ≡ length (zeros (20 + m + k)) + 0
    counted = omega (arith, length-replicate {A = ℕ} (20 + m + k) 0)

check_offset_ok :
    (hdr : Header) (pre area payload : List ℕ) (p : Parsed)
    → length pre ≡ 20
    → hdr.data_offset * 4 ≡ 20 + length area
    → option_loop 0 area ≡ ok p
    → check_offset hdr (pre ++ (area ++ payload))
      ≡ ok (record hdr { options = p.options; padding = p.padding; payload = payload }, p.error)
unfolding check_offset
check_offset_ok hdr pre area payload p h k e = ground (
  arith,
  length-append pre (area ++ payload),
  length-append area payload,
  slice_middle 20 (hdr.data_offset * 4) pre area payload (omega arith) (omega arith),
  past,
)
  where
    past : from (hdr.data_offset * 4) (pre ++ (area ++ payload)) ≡ ok payload
    past = rw (← append_assoc pre area payload) (
        from_suffix (hdr.data_offset * 4) (pre ++ area) payload
          (omega (arith, length-append pre area)))

-- RFC 793: the 20 bytes in front of the options, without the checksum.
abbrev pub fixed : Header → ℕ → List ℕ
fixed hdr offset =
    put_uint16 hdr.source
    ++ put_uint16 hdr.destination
    ++ put_uint32 hdr.seq_num
    ++ put_uint32 hdr.ack_num
    ++ ((offset * 16) ∷ (hdr.ecn * 64 + hdr.ctrl) ∷ [])
    ++ put_uint16 hdr.window
    ++ (0 ∷ 0 ∷ [])
    ++ put_uint16 hdr.urgent

abbrev pub words : Header → ℕ
words hdr = (fill (option_length hdr.options) + option_length hdr.options + 20) / 4

abbrev pub layout : Header → List ℕ
layout hdr =
    fixed hdr (words hdr)
    ++ (encode_options hdr.options ++ (zeros (fill (option_length hdr.options)) ++ hdr.payload))

padding_lem :
    (size : ℕ) (padding : List ℕ) → padding ≡ [] → padding_for size padding ≡ zeros (fill size)
padding_lem size padding e = ground arith

-- The filling is written over as many zeros.
tail_buffer :
    (os : List TcpOption) (pre : List ℕ) (k : ℕ) (payload : List ℕ)
    → All IsWellFormed os
    → let s =
        write_options os (pre ++ (zeros (option_length os) ++ (zeros k ++ payload)), length pre) in
      copy_at s.1 (zeros k) s.0 ≡ pre ++ (encode_options os ++ (zeros k ++ payload))
tail_buffer os pre k payload w = rw (
  write_options-encode os pre (zeros k ++ payload) w,
  ← append_assoc pre (encode_options os) (zeros k ++ payload),
  behind (pre ++ encode_options os) 0 (zeros k) (zeros k ++ payload)
      {i = length pre + option_length os} start,
  same,
)
  where
    start : length pre + option_length os ≡ length (pre ++ encode_options os) + 0
    start = omega (arith, length-append pre (encode_options os), length-encode_options os)

    full : zeros k ++ payload ≡ zeros (length (zeros k)) ++ payload
    full = rw (length-replicate {A = ℕ} k 0)

    same : copy_at 0 (zeros k) (zeros k ++ payload) ≡ zeros k ++ payload
    same = ap (copy_at 0 (zeros k)) full ∙ copy_at-zeros (zeros k) payload

-- The first 20 bytes as `marshal` computes them, from a data offset and a byte of flags.
abbrev raw_fixed : Header → ℕ → ℕ → List ℕ
raw_fixed hdr offset flags =
    put_uint16 hdr.source
    ++ put_uint16 hdr.destination
    ++ put_uint32 hdr.seq_num
    ++ put_uint32 hdr.ack_num
    ++ (offset ∷ flags ∷ [])
    ++ put_uint16 hdr.window
    ++ (0 ∷ 0 ∷ [])
    ++ put_uint16 hdr.urgent

marshal-layout : (hdr : Header) → IsValid hdr → (marshal hdr).0 ≡ layout hdr
unfolding marshal
marshal-layout hdr v =
    rw
      (
        padding_lem size hdr.padding v.padding_none,
        length-replicate {A = ℕ} (fill size) 0,
        body_buffer size (fill size) hdr.payload,
      )
      (tail_buffer hdr.options
          (raw_fixed hdr (u8 (u8 (words hdr) * 16)) (bit_or (u8 (hdr.ecn * 64)) hdr.ctrl))
          (fill size) hdr.payload v.options_formed
        ∙ ap₂
            (λ (a b : ℕ).
              raw_fixed hdr a b
              ++ (encode_options hdr.options ++ (zeros (fill size) ++ hdr.payload)))
            offset (flags_byte hdr.ecn hdr.ctrl v.ecn_fits v.ctrl_fits))
  where
    size : ℕ
    size = option_length hdr.options

    offset : u8 (u8 (words hdr) * 16) ≡ words hdr * 16
    offset = ground arith

unmarshal-fixed :
    (hdr : Header) (offset : ℕ) (rest : List ℕ)
    → IsValid hdr
    → offset < 16
    → unmarshal (fixed hdr offset ++ rest)
      ≡ check_offset
          (record hdr {
            data_offset = offset;
            checksum = 0;
            options = [];
            padding = [];
            payload = [];
          })
          (fixed hdr offset ++ rest)
unfolding unmarshal
unmarshal-fixed hdr offset rest v h = ground (
  arith,
  uint16-put hdr.source,
  uint16-put hdr.destination,
  uint32-put hdr.seq_num,
  uint32-put hdr.ack_num,
  uint16-put hdr.window,
  uint16-put hdr.urgent,
)

option_area-length :
    (os : List TcpOption)
    → length (encode_options os ++ zeros (fill (option_length os)))
      ≡ option_length os + fill (option_length os)
option_area-length os = omega (
  arith,
  length-append (encode_options os) (zeros (fill (option_length os))),
  length-encode_options os,
  length-replicate {A = ℕ} (fill (option_length os)) 0,
)

-- What `marshal` writes for a valid header, `unmarshal` reads back without an error: every field that
-- `marshal` writes is the same, the data offset counts the words of the header, the checksum is zero,
-- and filling behind the options becomes an end-of-list option and its padding.
pub segment_round_trip :
    (hdr : Header)
    → IsValid hdr
    → unmarshal (marshal hdr).0
      ≡ ok (
        record hdr {
          data_offset = words hdr;
          checksum = 0;
          options = hdr.options ++ end_options (fill (option_length hdr.options));
          padding = zeros (fill (option_length hdr.options) - 1);
        },
        none,
      )
segment_round_trip hdr v =
    rw
      (
        marshal-layout hdr v,
        unmarshal-fixed hdr (words hdr) (encode_options hdr.options ++ (zeros k ++ hdr.payload)) v
            small,
        ← append_assoc (encode_options hdr.options) (zeros k) hdr.payload,
      )
      (check_offset_ok _ (fixed hdr (words hdr)) area hdr.payload _ refl counted options)
  where
    k : ℕ
    k = fill (option_length hdr.options)

    area : List ℕ
    area = encode_options hdr.options ++ zeros k

    small : words hdr < 16
    small = ground arith

    counted : words hdr * 4 ≡ 20 + length area
    counted = ground (arith, option_area-length hdr.options)

    options :
        option_loop 0 area
        ≡ ok (record {
          options = hdr.options ++ end_options k;
          padding = zeros (k - 1);
          error = none;
        })
    options =
        option_loop-encode_options hdr.options (zeros k) _ v.options_formed (option_loop-zeros k)
