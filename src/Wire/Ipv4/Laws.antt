-- ===== src/Wire/Ipv4/Laws.antt =====
-- What IPv4 headers keep between `marshal` and `unmarshal`, and where `unmarshal` panics.
use honeytrap.Base.{
  ℕ, ◌+◌, ◌-◌, ◌*◌, ◌/◌, ◌%◌, ◌≤◌, ◌<◌, ◌≡◌, arith, List, [], ◌∷◌, ◌++◌, length, ltb, if◌then◌else◌,
  ok, panic, upto, upto-length, upto-take, length-append, ◌↔◌, ap,
}
use honeytrap.Base.Bits.{bit_or_disjoint}
use honeytrap.Base.Bytes.{IsByte, IsU16, put_uint16}
use honeytrap.Base.Buffer.{zeros, copy_at, zeros-add, copy_at-zeros_prefix, copy_at-zeros_all}
use honeytrap.Net.Ip.{IpAddress, ipv4, to4-ipv4}
use honeytrap.Wire.Ipv4.{Header, marshal, unmarshal}

-- The header length and the total length that a packet claims.
abbrev pub claimed_header : List ℕ → ℕ
claimed_header [] = 0
claimed_header (b0 ∷ r) = b0 % 16 * 4

abbrev pub claimed_total : List ℕ → ℕ
claimed_total (b0 ∷ b1 ∷ b2 ∷ b3 ∷ r) = b2 * 256 + b3
claimed_total _ = 0

-- `unmarshal` panics exactly on the packets of at least 20 bytes that hold the header length which
-- they claim and claim a total length below 20.
pub packet_panics :
    (b : List ℕ)
    → (unmarshal b ≡ panic)
      ↔ ((20 ≤ length b) × (claimed_header b ≤ length b) × (claimed_total b < 20))
unfolding unmarshal
packet_panics
      (b0 ∷ b1 ∷ b2 ∷ b3 ∷ b4 ∷ b5 ∷ b6 ∷ b7 ∷ b8 ∷ b9 ∷ b10 ∷ b11 ∷ b12 ∷ b13 ∷ b14 ∷ b15 ∷ b16
        ∷ b17 ∷ b18 ∷ b19 ∷ rest) =
    (λ h. ground (arith, upto-take (b2 * 256 + b3 - 20) rest), λ h. ground arith)
packet_panics b = (λ h. ground arith, λ h. absurd (omega arith))

abbrev layout : Header → List ℕ → List ℕ → List ℕ
layout h src dst =
    (64 + (20 + length h.options) / 4 % 16)
    ∷ h.tos
    ∷ (put_uint16 h.total_len
        ++ put_uint16 h.id
        ++ put_uint16 (h.frag_off + h.flags * 8192)
        ++ (h.ttl ∷ h.protocol ∷ put_uint16 h.checksum)
        ++ src
        ++ dst
        ++ h.options)

abbrev pub IsV4 : IpAddress → Type 0
IsV4 ip = (a b c d : ℕ) × (ip ≡ ipv4 a b c d)

pub record IsValid (h : Header) (body : List ℕ) : Type 0 where
  pub version_four : h.version ≡ 4
  pub len_counts : h.len ≡ 20 + length h.options
  pub total_counts : h.total_len ≡ 20 + length h.options + length body
  pub options_words : length h.options % 4 ≡ 0
  pub options_fit : length h.options ≤ 40
  pub tos_fits : IsByte h.tos
  pub total_fits : IsU16 h.total_len
  pub id_fits : IsU16 h.id
  pub flags_fit : h.flags < 8
  pub frag_off_fits : h.frag_off < 8192
  pub ttl_fits : IsByte h.ttl
  pub protocol_fits : IsByte h.protocol
  pub checksum_fits : IsU16 h.checksum

marshal-layout :
    (h : Header) (body : List ℕ) (a b c d a' b' c' d' : ℕ)
    → IsValid h body
    → h.src ≡ ipv4 a b c d
    → h.dst ≡ ipv4 a' b' c' d'
    → marshal h ≡ ok (layout h (a ∷ b ∷ c ∷ d ∷ []) (a' ∷ b' ∷ c' ∷ d' ∷ []))
unfolding marshal
marshal-layout h body a b c d a' b' c' d' v s t =
    simp (s, t, to4-ipv4, zeros-add, copy_at-zeros_all)
      (ground (arith, bit_or_disjoint 13 h.frag_off h.flags))

read_options :
    (opts body : List ℕ) (n : ℕ)
    → n ≡ 20 + length opts
    → (if ltb 20 n then copy_at 0 (opts ++ body) (zeros (n - 20)) else []) ≡ opts
read_options [] body n e = ground arith
read_options (x ∷ xs) body n e = ground (arith, room, copy_at-zeros_prefix (x ∷ xs) body)
  where
    room : zeros (n - 20) ≡ zeros (length (x ∷ xs))
    room = let e : n - 20 ≡ length (x ∷ xs) = omega arith in ap zeros e

read_payload :
    (opts body : List ℕ) (n : ℕ)
    → n ≡ 20 + length opts + length body
    → upto (n - 20) (opts ++ body) ≡ ok (opts ++ body)
read_payload opts body n e = rw counted (upto-length (opts ++ body))
  where
    counted : n - 20 ≡ length (opts ++ body)
    counted = omega (arith, length-append opts body)

-- `marshal` of a valid header succeeds. `unmarshal` of the result followed by a body gives the
-- header back, with the options in front of the body as its payload.
pub packet_round_trip :
    (h : Header) (body : List ℕ)
    → IsValid h body
    → IsV4 h.src
    → IsV4 h.dst
    → (bs : List ℕ) × (marshal h ≡ ok bs)
      × (unmarshal (bs ++ body) ≡ ok (record h { payload = h.options ++ body }))
unfolding unmarshal
packet_round_trip h body v (a, b, c, d, s) (a', b', c', d', t) = (
  layout h (a ∷ b ∷ c ∷ d ∷ []) (a' ∷ b' ∷ c' ∷ d' ∷ []),
  marshal-layout h body a b c d a' b' c' d' v s t,
  ground (
    arith,
    read_options h.options body ((64 + (20 + length h.options) / 4 % 16) % 16 * 4),
    read_payload h.options body h.total_len,
    length-append h.options body,
  ),
)
