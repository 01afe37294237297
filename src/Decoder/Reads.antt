-- ===== src/Decoder/Reads.antt =====
-- Chains of reads, one rule for each method: what is read stands ahead, and the rest goes on from there.
use honeytrap.Base.{
  ℕ, suc, ◌+◌, ◌-◌, ◌≤◌, ◌≡◌, refl, false, List, [], ◌∷◌, ◌++◌, length, ap, ◌∙◌, sym,
}
use honeytrap.Base.Bytes.{IsU16, IsU32}
use honeytrap.Base.Int.{negsuc}
use honeytrap.Base.Run.{Run, returns, panics, starves}
use honeytrap.Decoder.{
  Decode, Read, ◌>>=◌, and_then, advance, byte, int16, int32, read_data, seek, write_uint16,
  write_uint32, write_data,
}
use honeytrap.Decoder.Ahead.{
  Ahead, IsShort, advance-Ahead, byte_ahead, int16_ahead, int32_ahead, data_ahead, bind_returns,
  after_data, seek_back,
}

pub and_then_assoc :
    {A B C : Type 0} (m : Run (A × Decode)) (f : A → Read B) (g : B → Read C)
    → and_then (and_then m f) g ≡ and_then m (λ a. f a >>= g)
and_then_assoc (returns (a, d)) f g = refl
and_then_assoc panics f g = refl
and_then_assoc starves f g = refl

-- Two calls that return, and what is done with their result.
pub bind_both :
    {A B C : Type 0} (m : Read A) (f : A → Read B) (g : B → Read C) (d : Decode) {b : B}
    {d' : Decode}
    → (m >>= f) d ≡ returns (b, d')
    → (m >>= (λ a. f a >>= g)) d ≡ g b d'
bind_both m f g d h = sym (and_then_assoc (m d) f g) ∙ bind_returns (m >>= f) g d h

-- A call that does not return is all that happens.
pub bind_starves :
    {A B : Type 0} (m : Read A) (f : A → Read B) (d : Decode)
    → m d ≡ starves
    → (m >>= f) d ≡ starves
bind_starves m f d h = ap (λ r. and_then r f) h

pub bind_panics :
    {A B : Type 0} (m : Read A) (f : A → Read B) (d : Decode) → m d ≡ panics → (m >>= f) d ≡ panics
bind_panics m f d h = ap (λ r. and_then r f) h

module _ {B : Type 0} (d : Decode) (rest : List ℕ) {r : Run (B × Decode)} where
  pub byte_then :
      (x : ℕ) (f : ℕ → Read B)
      → Ahead d (x ∷ rest)
      → (Ahead (advance 1 d) rest → f x (advance 1 d) ≡ r)
      → (byte >>= f) d ≡ r
  byte_then x f h k =
      bind_returns byte f d (byte_ahead d x rest h) ∙ k (advance-Ahead d (x ∷ []) rest h)

  pub int16_then :
      (v : ℕ) (f : ℕ → Read B)
      → IsU16 v
      → Ahead d (write_uint16 v ++ rest)
      → (Ahead (advance 2 d) rest → f v (advance 2 d) ≡ r)
      → (int16 >>= f) d ≡ r
  int16_then v f u h k =
      bind_returns int16 f d (int16_ahead d v rest u h)
      ∙ k (unfold write_uint16 in advance-Ahead d (write_uint16 v) rest h)

  pub int32_then :
      (v : ℕ) (f : ℕ → Read B)
      → IsU32 v
      → Ahead d (write_uint32 v ++ rest)
      → (Ahead (advance 4 d) rest → f v (advance 4 d) ≡ r)
      → (int32 >>= f) d ≡ r
  int32_then v f u h k =
      bind_returns int32 f d (int32_ahead d v rest u h)
      ∙ k (unfold write_uint32 in advance-Ahead d (write_uint32 v) rest h)

  pub data_then :
      (v : List ℕ) (f : List ℕ → Read B)
      → IsShort v
      → Ahead d (write_data v false ++ rest)
      → (Ahead (advance (2 + length v) d) rest → f v (advance (2 + length v) d) ≡ r)
      → (read_data >>= f) d ≡ r
  data_then v f u h k =
      bind_returns read_data f d (data_ahead d v rest u h) ∙ k (after_data d v rest h)

  pub seek_then :
      (n : ℕ) (f : Unit {0} → Read B)
      → suc n ≤ d.offset
      → Ahead d rest
      → f tt (record d { offset = d.offset - suc n }) ≡ r
      → (seek (negsuc n) >>= f) d ≡ r
  seek_then n f k h e = bind_returns (seek (negsuc n)) f d (seek_back d n k h.1) ∙ e
