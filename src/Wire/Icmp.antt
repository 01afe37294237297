-- ===== src/Wire/Icmp.antt =====
-- listener/canary/icmp/icmp.go: the type and code of a message, and `Parse`.
use honeytrap.Base.{
  ℕ, ◌/◌, ◌≤◌, ◌<◌, ◌≡◌, arith, List, [], ◌∷◌, ◌++◌, length, ltb, drop, Outcome, ok, err, ◌>>=◌,
  ◌>>◌, fail_if, slice, at, returns, header_too_short,
}
use honeytrap.Base.Bytes.{All, IsByte, u8, uint16, put_uint16}

-- ICMPv4TypeCode is a uint16.
abbrev pub TypeCode : Type 0
TypeCode = ℕ

unfoldable pub type_of : TypeCode → ℕ
type_of a = u8 (a / 256)

unfoldable pub code_of : TypeCode → ℕ
code_of a = u8 a

-- `SerializeTo`: what is written at the front of the buffer.
unfoldable pub serialize : TypeCode → List ℕ
serialize a = put_uint16 a

unfoldable pub create_type_code : ℕ → ℕ → Outcome TypeCode
create_type_code typ code = uint16 (typ ∷ code ∷ [])

pub record Message : Type 0 where
  pub type_code : TypeCode
  pub checksum : ℕ
  pub id : ℕ
  pub seq : ℕ

unfoldable pub parse : List ℕ → Outcome Message
unfolding create_type_code
parse input = do
  fail_if (ltb (length input) 8) header_too_short
  typ ← at input 0
  code ← at input 1
  type_code ← create_type_code typ code
  checksum ← uint16 (← slice 2 4 input)
  id ← uint16 (← slice 4 6 input)
  seq ← uint16 (← slice 6 8 input)
  ok (record { type_code = type_code; checksum = checksum; id = id; seq = seq })

-- A message that is read has the first byte for its type and the second for its code, and
-- writing its type code, checksum, identifier and sequence number gives the first eight bytes.
pub icmp_sound :
    (input : List ℕ) (m : Message)
    → All IsByte input
    → parse input ≡ ok m
    → (type_of m.type_code ∷ code_of m.type_code ∷ drop 2 input ≡ input)
      × (serialize m.type_code
            ++ put_uint16 m.checksum
            ++ put_uint16 m.id
            ++ put_uint16 m.seq
            ++ drop 8 input
          ≡ input)
unfolding parse type_of code_of serialize
icmp_sound input m h e = (ground arith, ground arith)

parse_long : (input : List ℕ) → 8 ≤ length input → (m : Message) × (parse input ≡ ok m)
unfolding parse
parse_long (b0 ∷ b1 ∷ b2 ∷ b3 ∷ b4 ∷ b5 ∷ b6 ∷ b7 ∷ rest) h =
    returns (parse (b0 ∷ b1 ∷ b2 ∷ b3 ∷ b4 ∷ b5 ∷ b6 ∷ b7 ∷ rest)) (ground arith)
      (λ e. ground arith)
parse_long _ h = absurd (omega arith)

-- Inputs of at least eight bytes are accepted; all others are too short.
pub icmp_cases :
    (input : List ℕ)
    → (8 ≤ length input → (m : Message) × (parse input ≡ ok m))
      × (length input < 8 → parse input ≡ err header_too_short)
unfolding parse
icmp_cases input = (parse_long input, λ h. ground arith)
