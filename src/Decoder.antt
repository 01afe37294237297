-- ===== src/Decoder.antt =====
-- services/decoder: the reader of binary requests. A call that reads behind the end keeps the error,
-- returns zero and leaves the offset alone. `Copy` of a negative size that stays in front of the end
-- passes the check and panics in `make`.
pub mod Ahead
pub mod Bounds
pub mod Reads
mod Examples
use honeytrap.Base.{
  ℕ, zero, suc, ◌+◌, ◌-◌, ◌*◌, ◌/◌, ◌%◌, ◌≤◌, ◌<◌, ◌≡◌, refl, arith, Bool, true, false, List, [],
  ◌∷◌, ◌++◌, length, take, drop, get_or, leb, ltb, if◌then◌else◌, Option, none, some,
}
use honeytrap.Base.Int.{ℤ, pos, negsuc, signed16}
use honeytrap.Base.Run.{Run, returns, panics, starves}

-- `ErrOutOfBounds`; its minimum is always 0.
pub record OutOfBounds : Type 0 where
  pub max : ℕ
  pub got : ℤ

pub record Decode : Type 0 where
  pub offset : ℕ
  pub bytes : List ℕ
  pub lasterror : Option OutOfBounds

unfoldable pub new_decoder : List ℕ → Decode
new_decoder bytes = record { offset = 0; bytes = bytes; lasterror = none }

-- What a method does: it may panic, and gives a result beside the new state.
abbrev pub Read : Type 0 → Type 0
Read A = Decode → Run (A × Decode)

abbrev pub pure : {A : Type 0} → A → Read A
pure a d = returns (a, d)

abbrev pub and_then : {A B : Type 0} → Run (A × Decode) → (A → Read B) → Run (B × Decode)
and_then (returns (a, d)) f = f a d
and_then panics f = panics
and_then starves f = starves

infixl 5 ◌>>=◌ ◌>>◌
abbrev pub ◌>>=◌ : {A B : Type 0} → Read A → (A → Read B) → Read B
◌>>=◌ m f d = and_then (m d) f

abbrev pub ◌>>◌ : {B : Type 0} → Read (Unit {0}) → Read B → Read B
m >> k = m >>= λ _. k

-- `d.offset + size`.
abbrev pub add_size : ℕ → ℤ → ℤ
add_size offset (pos n) = pos (offset + n)
add_size offset (negsuc n) = if ltb n offset then pos (offset - suc n) else negsuc (n - offset)

abbrev pub in_bounds : ℕ → ℤ → Bool
in_bounds size (pos n) = leb n size
in_bounds size (negsuc n) = false

-- `HasBytes`.
abbrev pub has_bytes : ℤ → Decode → Option OutOfBounds
has_bytes size d =
    let at' = add_size d.offset size in
    if in_bounds (length d.bytes) at'
    then none
    else some (record { max = length d.bytes; got = at' })

abbrev pub with_error : OutOfBounds → Decode → Decode
with_error e d = record d { lasterror = some e }

abbrev pub advance : ℕ → Decode → Decode
advance n d = record d { offset = d.offset + n }

abbrev pub byte_at : ℕ → Decode → ℕ
byte_at i d = get_or d.bytes (d.offset + i) 0

-- `Available`.
abbrev pub available : Decode → ℕ
available d = length d.bytes - d.offset

unfoldable pub byte : Read ℕ
byte d = elim (has_bytes (pos 1) d) [
  | some e ↦ returns (0, with_error e d)
  | none ↦ returns (byte_at 0 d, advance 1 d)
]

-- `Int16`, as its 16 bits.
unfoldable pub int16 : Read ℕ
int16 d = elim (has_bytes (pos 2) d) [
  | some e ↦ returns (0, with_error e d)
  | none ↦ returns (byte_at 0 d * 256 + byte_at 1 d, advance 2 d)
]

-- `Int32` and `Uint32`, as 32 bits.
unfoldable pub int32 : Read ℕ
int32 d = elim (has_bytes (pos 4) d) [
  | some e ↦ returns (0, with_error e d)
  | none ↦
      returns
        (((byte_at 0 d * 256 + byte_at 1 d) * 256 + byte_at 2 d) * 256 + byte_at 3 d, advance 4 d)
]

-- `PeekByte` and `PeekInt16`.
unfoldable pub peek_byte : Read ℕ
peek_byte d = elim (has_bytes (pos 1) d) [
  | some e ↦ returns (0, with_error e d)
  | none ↦ returns (byte_at 0 d, d)
]

unfoldable pub peek_int16 : Read ℕ
peek_int16 d = elim (has_bytes (pos 2) d) [
  | some e ↦ returns (0, with_error e d)
  | none ↦ returns (byte_at 0 d * 256 + byte_at 1 d, d)
]

-- Behind the check: `make` of a negative size panics.
abbrev pub copy_bytes : ℤ → Read (List ℕ)
copy_bytes (pos n) d = returns (take n (drop d.offset d.bytes), advance n d)
copy_bytes (negsuc n) d = panics

-- `Copy`.
unfoldable pub copy : ℤ → Read (List ℕ)
copy size d = elim (has_bytes size d) [
  | some e ↦ returns ([], with_error e d)
  | none ↦ copy_bytes size d
]

-- `Data`: a length of 16 bits, which is signed, and as many bytes.
unfoldable pub read_data : Read (List ℕ)
unfolding int16 copy
read_data = do l ← int16; copy (signed16 l)

abbrev pub moved : ℤ → Decode → Decode
moved (pos n) d = advance n d
moved (negsuc n) d = record d { offset = d.offset - suc n }

-- `Seek`, from the current offset.
unfoldable pub seek : ℤ → Read (Unit {0})
seek by d = elim (has_bytes by d) [
  | some e ↦ returns (tt, with_error e d)
  | none ↦ returns (tt, moved by d)
]

-- services/decoder/encoder.go: what `WriteData` appends.
unfoldable pub write_uint16 : ℕ → List ℕ
write_uint16 v = v / 256 % 256 ∷ v % 256 ∷ []

unfoldable pub write_uint32 : ℕ → List ℕ
write_uint32 v = v / 16777216 % 256 ∷ v / 65536 % 256 ∷ v / 256 % 256 ∷ v % 256 ∷ []

unfoldable pub write_data : List ℕ → Bool → List ℕ
unfolding write_uint16
write_data v true = write_uint16 0
write_data v false = write_uint16 (length v % 65536) ++ v
