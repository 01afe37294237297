-- ===== src/Wire/Arp.antt =====
-- listener/canary/arp/arp.go: `Unmarshal` of ARP frames.
use honeytrap.Base.{
  ℕ, ◌≤◌, ◌<◌, ◌≡◌, arith, List, [], ◌∷◌, ◌++◌, length, ltb, drop, Outcome, ok, err, ◌>>=◌, ◌>>◌,
  fail_if, slice, at, returns, header_too_short,
}
use honeytrap.Base.Bytes.{All, IsByte, uint16, put_uint16}
use honeytrap.Base.Buffer.{zeros, copy_at}

pub record Frame : Type 0 where
  pub hardware_type : ℕ
  pub protocol_type : ℕ
  pub hardware_size : ℕ
  pub protocol_size : ℕ
  pub opcode : ℕ
  pub sender_mac : List ℕ
  pub sender_ip : List ℕ
  pub target_mac : List ℕ
  pub target_ip : List ℕ

unfoldable pub unmarshal : List ℕ → Outcome Frame
unmarshal input = do
  fail_if (ltb (length input) 28) header_too_short
  hardware_type ← uint16 (← slice 0 2 input)
  protocol_type ← uint16 (← slice 2 4 input)
  hardware_size ← at input 4
  protocol_size ← at input 5
  opcode ← uint16 (← slice 6 8 input)
  sender_mac ← slice 8 14 input
  sender_ip ← slice 14 18 input
  target_mac ← slice 18 24 input
  target_ip ← slice 24 28 input
  ok (record {
    hardware_type = hardware_type;
    protocol_type = protocol_type;
    hardware_size = hardware_size;
    protocol_size = protocol_size;
    opcode = opcode;
    sender_mac = copy_at 0 sender_mac (zeros 6);
    sender_ip = copy_at 0 sender_ip (zeros 4);
    target_mac = copy_at 0 target_mac (zeros 6);
    target_ip = copy_at 0 target_ip (zeros 4);
  })

-- RFC 826: the fields of a frame, one after the other.
abbrev pub layout : Frame → List ℕ
layout f =
    put_uint16 f.hardware_type
    ++ put_uint16 f.protocol_type
    ++ (f.hardware_size ∷ f.protocol_size ∷ [])
    ++ put_uint16 f.opcode
    ++ f.sender_mac
    ++ f.sender_ip
    ++ f.target_mac
    ++ f.target_ip

-- Every frame that is read occupies the first 28 bytes, field by field.
pub arp_sound :
    (input : List ℕ) (f : Frame)
    → All IsByte input
    → unmarshal input ≡ ok f
    → layout f ++ drop 28 input ≡ input
unfolding unmarshal
arp_sound input f h e = ground arith

unmarshal_long : (input : List ℕ) → 28 ≤ length input → (f : Frame) × (unmarshal input ≡ ok f)
unfolding unmarshal
unmarshal_long
      (b0 ∷ b1 ∷ b2 ∷ b3 ∷ b4 ∷ b5 ∷ b6 ∷ b7 ∷ b8 ∷ b9 ∷ b10 ∷ b11 ∷ b12 ∷ b13 ∷ b14 ∷ b15 ∷ b16
        ∷ b17 ∷ b18 ∷ b19 ∷ b20 ∷ b21 ∷ b22 ∷ b23 ∷ b24 ∷ b25 ∷ b26 ∷ b27 ∷ rest)
      h =
    returns
      (unmarshal (
        b0 ∷ b1 ∷ b2 ∷ b3 ∷ b4 ∷ b5 ∷ b6 ∷ b7 ∷ b8 ∷ b9 ∷ b10 ∷ b11 ∷ b12 ∷ b13 ∷ b14 ∷ b15 ∷ b16
        ∷ b17 ∷ b18 ∷ b19 ∷ b20 ∷ b21 ∷ b22 ∷ b23 ∷ b24 ∷ b25 ∷ b26 ∷ b27 ∷ rest))
      (ground arith) (λ e. ground arith)
unmarshal_long _ h = absurd (omega arith)

-- An input of at least 28 bytes is accepted, and any other is reported as too short.
pub arp_cases :
    (input : List ℕ)
    → (28 ≤ length input → (f : Frame) × (unmarshal input ≡ ok f))
      × (length input < 28 → unmarshal input ≡ err header_too_short)
unfolding unmarshal
arp_cases input = (unmarshal_long input, λ h. ground arith)
