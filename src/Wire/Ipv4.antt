-- ===== src/Wire/Ipv4.antt =====
-- listener/canary/ipv4/ipv4.go: `Marshal` and `Unmarshal` of IPv4 headers, on Linux, where
-- runtime.GOOS selects the big-endian branch of both switches. The integer fields of the
-- source are signed; the headers that the program builds and reads hold no negative numbers.
pub mod Laws
use Prim.Native.Nat.{bit_or}
use honeytrap.Base.{
  ℕ, ◌+◌, ◌-◌, ◌*◌, ◌/◌, ◌%◌, ◌^◌, ◌≤◌, ◌<◌, ◌≡◌, refl, arith, Bool, true, false, List, [], ◌∷◌,
  ◌++◌, length, take, ltb, if◌then◌else◌, Option, none, some, Outcome, ok, err, panic, ◌>>=◌, ◌>>◌,
  fail_if, slice, at, from, Error, header_too_short, buffer_too_short, missing_address, bad_length,
}
use honeytrap.Base.Bytes.{u8, u16, uint16, put_uint16}
use honeytrap.Base.Buffer.{zeros, copy_at, store_at}
use honeytrap.Net.Ip.{IpAddress, ipv4, to4}

abbrev pub header_len : ℕ
header_len = 20

pub record Header : Type 0 where
  pub version : ℕ
  pub len : ℕ
  pub tos : ℕ
  pub total_len : ℕ
  pub id : ℕ
  pub flags : ℕ
  pub frag_off : ℕ
  pub ttl : ℕ
  pub protocol : ℕ
  pub checksum : ℕ
  pub src : IpAddress
  pub dst : IpAddress
  pub options : List ℕ
  pub payload : List ℕ

-- `copy(b[12:16], ip[:net.IPv4len])` where `To4` gives an address.
copy_address : ℕ → Option (List ℕ) → List ℕ → List ℕ
copy_address i none b = b
copy_address i (some ip) b = copy_at i (take 4 ip) b

-- The destination is required, the source is not.
copy_destination : Option (List ℕ) → List ℕ → Outcome (List ℕ)
copy_destination none b = err missing_address
copy_destination (some ip) b = ok (copy_at 16 (take 4 ip) b)

-- `b[20:]` is written where there are options.
unfoldable pub marshal : Header → Outcome (List ℕ)
unfolding copy_address copy_destination
marshal h = do
  fail_if (ltb h.len header_len) header_too_short
  let hdrlen = header_len + length h.options
  let b0 = zeros hdrlen
  let b1 = store_at 0 (u8 (64 + hdrlen / 4 % 16)) b0
  let b2 = store_at 1 (u8 h.tos) b1
  let flags_and_frag_off = bit_or (h.frag_off % 8192) (h.flags * 2 ^ 13)
  let b3 = copy_at 2 (put_uint16 (u16 h.total_len)) b2
  let b4 = copy_at 6 (put_uint16 (u16 flags_and_frag_off)) b3
  let b5 = copy_at 4 (put_uint16 (u16 h.id)) b4
  let b6 = store_at 8 (u8 h.ttl) b5
  let b7 = store_at 9 (u8 h.protocol) b6
  let b8 = copy_at 10 (put_uint16 (u16 h.checksum)) b7
  let b9 = copy_address 12 (to4 h.src) b8
  b10 ← copy_destination (to4 h.dst) b9
  ok (copy_at header_len h.options b10)

-- What `Unmarshal` leaves in an incomplete header beside an error is not kept: `Parse` is only
-- called where an error discards the header.
unfoldable pub unmarshal : List ℕ → Outcome Header
unmarshal b = do
  fail_if (ltb (length b) header_len) header_too_short
  b0 ← at b 0
  let hdrlen = b0 % 16 * 4
  fail_if (ltb (length b) hdrlen) buffer_too_short
  tos ← at b 1
  id ← uint16 (← slice 4 6 b)
  ttl ← at b 8
  protocol ← at b 9
  checksum ← uint16 (← slice 10 12 b)
  s0 ← at b 12
  s1 ← at b 13
  s2 ← at b 14
  s3 ← at b 15
  d0 ← at b 16
  d1 ← at b 17
  d2 ← at b 18
  d3 ← at b 19
  total_len ← uint16 (← slice 2 4 b)
  frag_off ← uint16 (← slice 6 8 b)
  after ← from header_len b
  fail_if (ltb (length b) total_len) bad_length
  payload ← slice 20 total_len b
  ok (record {
    version = b0 / 16;
    len = hdrlen;
    tos = tos;
    total_len = total_len;
    id = id;
    flags = frag_off / 8192 % 8;
    frag_off = frag_off % 8192;
    ttl = ttl;
    protocol = protocol;
    checksum = checksum;
    src = ipv4 s0 s1 s2 s3;
    dst = ipv4 d0 d1 d2 d3;
    options = if ltb header_len hdrlen then copy_at 0 after (zeros (hdrlen - header_len)) else [];
    payload = payload;
  })
