-- ===== src/Wire/Udp.antt =====
-- listener/canary/udp/udp.go: `Unmarshal` and `Marshal` of UDP headers.
use honeytrap.Base.{
  ℕ, ◌+◌, ◌≡◌, arith, not, List, ◌++◌, length, ltb, ◌==◌, Outcome, ok, panic, ◌>>=◌, ◌>>◌, fail_if,
  slice, from, header_too_short, bad_length, ◌≢◌,
}
use honeytrap.Base.Bytes.{All, IsByte, IsU16, uint16, put_uint16, uint16-put}
use honeytrap.Base.Buffer.{zeros, copy_at, zeros-add, copy_at-zeros_all}

pub record Header : Type 0 where
  pub source : ℕ
  pub destination : ℕ
  pub len : ℕ
  pub checksum : ℕ
  pub payload : List ℕ

unfoldable pub unmarshal : List ℕ → Outcome Header
unmarshal input = do
  fail_if (ltb (length input) 8) header_too_short
  source ← uint16 (← slice 0 2 input)
  destination ← uint16 (← slice 2 4 input)
  len ← uint16 (← slice 4 6 input)
  checksum ← uint16 (← slice 6 8 input)
  payload ← from 8 input
  fail_if (not (length input == len)) bad_length
  ok (record {
    source = source;
    destination = destination;
    len = len;
    checksum = checksum;
    payload = payload;
  })

unfoldable pub marshal : Header → List ℕ
marshal hdr =
    let buf0 = zeros (8 + length hdr.payload) in
    let buf1 = copy_at 0 (put_uint16 hdr.source) buf0 in
    let buf2 = copy_at 2 (put_uint16 hdr.destination) buf1 in
    let buf3 = copy_at 4 (put_uint16 hdr.len) buf2 in
    let buf4 = copy_at 6 (put_uint16 hdr.checksum) buf3 in copy_at 8 hdr.payload buf4

-- The bytes of a header, in the order in which they go out.
layout : Header → List ℕ
layout hdr =
    put_uint16 hdr.source
    ++ put_uint16 hdr.destination
    ++ put_uint16 hdr.len
    ++ put_uint16 hdr.checksum
    ++ hdr.payload

marshal-layout : (hdr : Header) → marshal hdr ≡ layout hdr
unfolding marshal layout
marshal-layout hdr = rw (zeros-add, copy_at-zeros_all)

pub record IsValid (hdr : Header) : Type 0 where
  pub source_fits : IsU16 hdr.source
  pub destination_fits : IsU16 hdr.destination
  pub len_fits : IsU16 hdr.len
  pub checksum_fits : IsU16 hdr.checksum
  pub len_counts : hdr.len ≡ 8 + length hdr.payload

-- A valid header, whose length counts its payload, is read back from the bytes it is written as.
pub datagram_round_trip : (hdr : Header) → IsValid hdr → unmarshal (marshal hdr) ≡ ok hdr
unfolding unmarshal layout
datagram_round_trip hdr v = rw marshal-layout (ground (arith, uint16-put hdr.source))

-- Every input gives a header or an error.
pub datagram-ne-panic : (input : List ℕ) → unmarshal input ≢ panic
unfolding unmarshal
datagram-ne-panic input = ground arith

-- An input of bytes that is read as a header is what `marshal` writes for that header.
pub datagram_sound :
    (input : List ℕ) (hdr : Header)
    → All IsByte input
    → unmarshal input ≡ ok hdr
    → marshal hdr ≡ input
unfolding unmarshal layout
datagram_sound input hdr h e = rw marshal-layout (ground arith)
