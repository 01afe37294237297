-- ===== src/Decoder/Ahead.antt =====
-- Reading what stands ahead of the offset: the methods that write and those that read fit together.
use native.Mathlib.Nat.{suc-add, zero-add}
use honeytrap.Base.{
  ℕ, zero, suc, ◌+◌, ◌-◌, ◌%◌, ◌≤◌, ◌<◌, ◌≡◌, refl, arith, false, List, [], ◌∷◌, ◌++◌, length,
  length-drop, length-append, take, drop, get_or, ap, ◌∙◌, sym, subst,
}
use honeytrap.Base.Bytes.{IsU16, IsU32}
use honeytrap.Base.Int.{pos, negsuc, signed16}
use honeytrap.Base.Run.{returns}
use honeytrap.Decoder.{
  Decode, Read, ◌>>=◌, and_then, advance, byte, int16, int32, copy, read_data, seek, write_uint16,
  write_uint32, write_data,
}

module _ {ℓ} {A : Type ℓ} where
  drop_nil : (i : ℕ) → drop {A = A} i [] ≡ []
  drop_nil zero = refl
  drop_nil (suc i) = refl

  pub drop-add : (n k : ℕ) (xs : List A) → drop (n + k) xs ≡ drop k (drop n xs)
  drop-add zero k xs = ap (λ (i : ℕ). drop i xs) (zero-add k)
  drop-add (suc n) k [] = drop_nil (suc n + k) ∙ sym (drop_nil k)
  drop-add (suc n) k (x ∷ xs) = rw suc-add (drop-add n k xs)

  pub get_or-drop : (n k : ℕ) (xs : List A) (v : A) → get_or xs (n + k) v ≡ get_or (drop n xs) k v
  get_or-drop zero k xs v = ap (λ (i : ℕ). get_or xs i v) (zero-add k)
  get_or-drop (suc n) k [] v = refl
  get_or-drop (suc n) k (x ∷ xs) v = rw suc-add (get_or-drop n k xs v)

  pub drop-append : (xs ys : List A) → drop (length xs) (xs ++ ys) ≡ ys
  drop-append [] ys = refl
  drop-append (x ∷ xs) ys = drop-append xs ys

  pub take-append : (xs ys : List A) → take (length xs) (xs ++ ys) ≡ xs
  take-append [] ys = refl
  take-append (x ∷ xs) ys = ap (λ (t : List A). x ∷ t) (take-append xs ys)

-- The bytes behind the offset.
abbrev pub Ahead : Decode → List ℕ → Type 0
Ahead d rest = (drop d.offset d.bytes ≡ rest) × (d.offset ≤ length d.bytes)

pub fits : (d : Decode) (rest : List ℕ) → Ahead d rest → d.offset + length rest ≡ length d.bytes
fits d rest h = omega (arith, length-drop d.offset d.bytes, ap (λ (t : List ℕ). length t) h.0)

pub advance-Ahead :
    (d : Decode) (read rest : List ℕ)
    → Ahead d (read ++ rest)
    → Ahead (advance (length read) d) rest
advance-Ahead d read rest h = (
  drop-add d.offset (length read) d.bytes
      ∙ ap (λ (t : List ℕ). drop (length read) t) h.0
      ∙ drop-append read rest,
  omega (arith, fits d (read ++ rest) h, length-append read rest),
)

pub byte_ahead :
    (d : Decode) (x : ℕ) (rest : List ℕ) → Ahead d (x ∷ rest) → byte d ≡ returns (x, advance 1 d)
unfolding byte
byte_ahead d x rest h = ground (arith, fits d (x ∷ rest) h, get_or-drop d.offset 0 d.bytes 0)

pub int16_ahead :
    (d : Decode) (v : ℕ) (rest : List ℕ)
    → IsU16 v
    → Ahead d (write_uint16 v ++ rest)
    → int16 d ≡ returns (v, advance 2 d)
unfolding int16 write_uint16
int16_ahead d v rest u h = ground (
  arith,
  fits d (write_uint16 v ++ rest) h,
  get_or-drop d.offset 0 d.bytes 0,
  get_or-drop d.offset 1 d.bytes 0,
)

pub int32_ahead :
    (d : Decode) (v : ℕ) (rest : List ℕ)
    → IsU32 v
    → Ahead d (write_uint32 v ++ rest)
    → int32 d ≡ returns (v, advance 4 d)
unfolding int32 write_uint32
int32_ahead d v rest u h = ground (
  arith,
  fits d (write_uint32 v ++ rest) h,
  get_or-drop d.offset 0 d.bytes 0,
  get_or-drop d.offset 1 d.bytes 0,
  get_or-drop d.offset 2 d.bytes 0,
  get_or-drop d.offset 3 d.bytes 0,
)

copy_ahead :
    (d : Decode) (v rest : List ℕ)
    → Ahead d (v ++ rest)
    → copy (pos (length v)) d ≡ returns (v, advance (length v) d)
unfolding copy
copy_ahead d v rest h = ground (
  arith,
  fits d (v ++ rest) h,
  length-append v rest,
  take-append v rest,
  ap (λ (t : List ℕ). take (length v) t) (h.0),
)

abbrev pub IsShort : List ℕ → Type 0
IsShort v = length v < 32768

-- A call that returns goes on.
pub bind_returns :
    {A B : Type 0} (m : Read A) (f : A → Read B) (d : Decode) {a : A} {d' : Decode}
    → m d ≡ returns (a, d')
    → (m >>= f) d ≡ f a d'
bind_returns m f d h = ap (λ r. and_then r f) h

read_data-bind :
    (d : Decode) (size : ℕ)
    → int16 d ≡ returns (size, advance 2 d)
    → read_data d ≡ copy (signed16 size) (advance 2 d)
unfolding read_data
read_data-bind d size h = bind_returns int16 (λ l. copy (signed16 l)) d h

signed_size :
    (d : Decode) (v rest : List ℕ)
    → IsShort v
    → Ahead d (v ++ rest)
    → copy (signed16 (length v % 65536)) d ≡ returns (v, advance (length v) d)
signed_size d v rest u h =
    let size : signed16 (length v % 65536) ≡ pos (length v) = ground arith in
    rw size (copy_ahead d v rest h)

-- What `WriteData` writes is read back.
pub data_ahead :
    (d : Decode) (v rest : List ℕ)
    → IsShort v
    → Ahead d (write_data v false ++ rest)
    → read_data d ≡ returns (v, advance (2 + length v) d)
unfolding write_data
data_ahead d v rest u h =
    let size : ℕ = length v % 65536 in
    let sized = int16_ahead d size (v ++ rest) (omega arith) (unfold write_uint16 in h) in
    let passed : Ahead (advance 2 d) (v ++ rest) =
      advance-Ahead d (write_uint16 size) (v ++ rest) (unfold write_uint16 in h) in
    read_data-bind d size sized ∙ signed_size (advance 2 d) v rest u passed ∙ ground arith

pub after_data :
    (d : Decode) (v rest : List ℕ)
    → Ahead d (write_data v false ++ rest)
    → Ahead (advance (2 + length v) d) rest
unfolding write_data write_uint16
after_data d v rest h =
    let read : List ℕ = write_data v false in
    let shift : length read ≡ 2 + length v = ground arith in
    subst (λ (n : ℕ). Ahead (advance n d) rest) shift (advance-Ahead d read rest h)

-- Back over bytes that were read.
pub seek_back :
    (d : Decode) (n : ℕ)
    → suc n ≤ d.offset
    → d.offset ≤ length d.bytes
    → seek (negsuc n) d ≡ returns (tt, record d { offset = d.offset - suc n })
unfolding seek
seek_back d n h k = ground arith
