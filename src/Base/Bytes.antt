-- ===== src/Base/Bytes.antt =====
-- Bytes, words, and the big-endian numbers of encoding/binary.
use Prim.Native.Nat.{ℕ, ◌+◌, ◌*◌, ◌/◌, ◌%◌, ◌<◌}
use mathlib.Core.Path.{◌≡◌}
use mathlib.Core.List.{List, [], ◌∷◌, ◌++◌}
use native.Mathlib.Omega.{arith}
use honeytrap.Base.Results.{Outcome, ok, panic}

abbrev pub All {ℓ κ} : {A : Type ℓ} → (A → Type κ) → List A → Type κ
All P [] = Unit
All P (x ∷ xs) = P x × All P xs

abbrev pub IsByte : ℕ → Type 0
IsByte b = b < 256

abbrev pub IsU16 : ℕ → Type 0
IsU16 v = v < 65536

abbrev pub IsU32 : ℕ → Type 0
IsU32 v = v < 4294967296

-- The conversions uint8(v), uint16(v) and uint32(v).
abbrev pub u8 : ℕ → ℕ
u8 v = v % 256

abbrev pub u16 : ℕ → ℕ
u16 v = v % 65536

abbrev pub u32 : ℕ → ℕ
u32 v = v % 4294967296

-- binary.BigEndian.Uint16 and Uint32: too few bytes are a panic.
abbrev pub uint16 : List ℕ → Outcome ℕ
uint16 (a ∷ b ∷ r) = ok (a * 256 + b)
uint16 _ = panic

abbrev pub uint32 : List ℕ → Outcome ℕ
uint32 (a ∷ b ∷ c ∷ d ∷ r) = ok (((a * 256 + b) * 256 + c) * 256 + d)
uint32 _ = panic

-- What binary.BigEndian.PutUint16 and PutUint32 write.
abbrev pub put_uint16 : ℕ → List ℕ
put_uint16 v = (v / 256 % 256) ∷ (v % 256) ∷ []

abbrev pub put_uint32 : ℕ → List ℕ
put_uint32 v = (v / 16777216 % 256) ∷ (v / 65536 % 256) ∷ (v / 256 % 256) ∷ (v % 256) ∷ []

pub uint16-put : (v : ℕ) → IsU16 v → v / 256 % 256 * 256 + v % 256 ≡ v
uint16-put v h = omega arith

pub uint32-put :
    (v : ℕ)
    → IsU32 v
    → ((v / 16777216 % 256 * 256 + v / 65536 % 256) * 256 + v / 256 % 256) * 256 + v % 256 ≡ v
uint32-put v h = omega arith

pub All-append {ℓ κ} :
    {A : Type ℓ} (P : A → Type κ) (xs ys : List A) → All P xs → All P ys → All P (xs ++ ys)
All-append P [] ys h k = k
All-append P (x ∷ xs) ys h k = (h.0, All-append P xs ys h.1 k)
