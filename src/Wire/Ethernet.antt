-- ===== src/Wire/Ethernet.antt =====
-- listener/canary/ethernet/ethernet.go: `Parse` and `Marshal` of Ethernet frames.
use honeytrap.Base.{
  ℕ, ◌/◌, ◌%◌, ◌<◌, ◌≡◌, refl, arith, List, [], ◌∷◌, ◌++◌, length, Outcome, ok, panic, ◌>>=◌, slice,
  from, ◌↔◌,
}
use honeytrap.Base.Bytes.{IsU16, uint16}
use honeytrap.Base.Buffer.{zeros, copy_at, store_at}

pub record Frame : Type 0 where
  pub source : List ℕ
  pub destination : List ℕ
  pub ether_type : ℕ
  pub payload : List ℕ

-- `Parse` makes the addresses and calls `Unmarshal`, which has no check of the length.
unfoldable pub parse : List ℕ → Outcome Frame
parse input = do
  destination ← slice 0 6 input
  source ← slice 6 12 input
  ether_type ← uint16 (← slice 12 14 input)
  payload ← from 14 input
  ok (record {
    source = copy_at 0 source (zeros 6);
    destination = copy_at 0 destination (zeros 6);
    ether_type = ether_type;
    payload = payload;
  })

-- The 14 bytes of the header; the payload is not written.
unfoldable pub marshal : Frame → List ℕ
marshal f =
    let data0 = zeros 14 in
    let data1 = copy_at 0 (copy_at 0 f.destination (zeros 6)) data0 in
    let data2 = copy_at 6 (copy_at 0 f.source (zeros 6)) data1 in
    let data3 = store_at 12 (f.ether_type / 256 % 256) data2 in
    store_at 13 (f.ether_type % 256) data3

pub record IsValid (f : Frame) : Type 0 where
  pub source_six : length f.source ≡ 6
  pub destination_six : length f.destination ≡ 6
  pub type_fits : IsU16 f.ether_type

six_bytes : (xs : List ℕ) → length xs ≡ 6 → (a b c d e f : ℕ) × (xs ≡ a ∷ b ∷ c ∷ d ∷ e ∷ f ∷ [])
six_bytes (a ∷ b ∷ c ∷ d ∷ e ∷ f ∷ []) h = (a, b, c, d, e, f, refl)
six_bytes _ h = absurd (omega arith)

-- A written header, followed by the payload, is read back.
pub frame_round_trip : (f : Frame) → IsValid f → parse (marshal f ++ f.payload) ≡ ok f
unfolding parse marshal
frame_round_trip f v =
    ground (arith, six_bytes f.source v.source_six, six_bytes f.destination v.destination_six)

-- `parse` has no error path: it panics on every input shorter than a header.
pub frame_panics : (input : List ℕ) → (parse input ≡ panic) ↔ (length input < 14)
unfolding parse
frame_panics input = (λ h. ground arith, λ h. ground arith)
