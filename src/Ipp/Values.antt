-- ===== src/Ipp/Values.antt =====
-- services/ipp/values.go: the attributes, how they are written and how they are read. The loops of the
-- reader run on fuel. The error that a `decode` returns is dropped by its caller, and left out.
use honeytrap.Base.{ℕ, zero, suc, Bool, true, false, List, [], ◌∷◌, ◌++◌, ◌==◌, if◌then◌else◌}
use honeytrap.Base.Text.{Text}
use honeytrap.Base.Int.{negsuc}
use honeytrap.Base.Run.{starves}
use honeytrap.Decoder.{
  Read, pure, ◌>>=◌, ◌>>◌, byte, int16, int32, read_data, seek, write_uint16, write_uint32,
  write_data,
}

-- `ValueType`: a tag, a name, and the values.
pub data Value : Type 0 where
  val_int : ℕ → Text → List ℕ → Value
  val_str : ℕ → Text → List Text → Value
  val_bool : ℕ → Text → List Bool → Value
  val_range_int : ℕ → Text → ℕ → ℕ → Value

abbrev pub tag_of : Value → ℕ
tag_of (val_int tag name val) = tag
tag_of (val_str tag name val) = tag
tag_of (val_bool tag name val) = tag
tag_of (val_range_int tag name low high) = tag

-- `z` is set behind the first value, and writes an empty name.
unfoldable pub encode_ints : ℕ → Text → Bool → List ℕ → List ℕ
encode_ints tag name z [] = []
encode_ints tag name z (v ∷ vs) =
    tag
    ∷ (write_data name z ++ (write_uint16 4 ++ (write_uint32 v ++ encode_ints tag name true vs)))

unfoldable pub encode_strs : ℕ → Text → Bool → List Text → List ℕ
encode_strs tag name z [] = []
encode_strs tag name z (v ∷ vs) =
    tag ∷ (write_data name z ++ (write_data v false ++ encode_strs tag name true vs))

abbrev pub bit_of : Bool → ℕ
bit_of true = 1
bit_of false = 0

unfoldable pub encode_bools : ℕ → Text → Bool → List Bool → List ℕ
encode_bools tag name z [] = []
encode_bools tag name z (v ∷ vs) =
    tag ∷ (write_data name z ++ (write_uint16 1 ++ (bit_of v ∷ encode_bools tag name true vs)))

unfoldable pub encode_value : Value → List ℕ
unfolding encode_ints encode_strs encode_bools
encode_value (val_int tag name val) = encode_ints tag name false val
encode_value (val_str tag name val) = encode_strs tag name false val
encode_value (val_bool tag name val) = encode_bools tag name false val
encode_value (val_range_int tag name low high) =
    tag ∷ (write_data name false ++ (write_uint16 8 ++ (write_uint32 low ++ write_uint32 high)))

-- The check for one more value of `valInt.decode`: there is no loop.
unfoldable pub second_int : ℕ → ℕ → Read (List ℕ)
second_int tag vtag =
    let again = (do size ← int16; v ← int32; pure (v ∷ [])) in
    let checked = (do l ← int16; if l == 0 then again else seek (negsuc 2) >> pure []) in
    if vtag == tag then checked else seek (negsuc 0) >> pure []

unfoldable pub decode_int : ℕ → Read Value
unfolding second_int
decode_int tag = do
  name ← read_data
  size ← int16
  v ← int32
  vtag ← byte
  more ← second_int tag vtag
  pure (val_int tag name (v ∷ more))

-- `for vtag == v.tag` of `valStr.decode`.
unfoldable pub str_loop : ℕ → ℕ → ℕ → Read (List Text)
str_loop zero tag vtag d = starves
str_loop (suc fuel) tag vtag d =
    let again = (do v ← read_data; next ← byte; more ← str_loop fuel tag next; pure (v ∷ more)) in
    let checked = (do l ← int16; if l == 0 then again else seek (negsuc 1) >> pure []) in
    if vtag == tag then checked d else pure [] d

unfoldable pub decode_str : ℕ → ℕ → Read Value
unfolding str_loop
decode_str fuel tag = do
  name ← read_data
  v ← read_data
  vtag ← byte
  more ← str_loop fuel tag vtag
  seek (negsuc 0)
  pure (val_str tag name (v ∷ more))

-- `for vtag != v.tag` of `valBool.decode`.
unfoldable pub bool_loop : ℕ → ℕ → ℕ → Read (List Bool)
bool_loop zero tag vtag d = starves
bool_loop (suc fuel) tag vtag d =
    let again = (do
      b ← byte
      next ← byte
      more ← bool_loop fuel tag next
      pure ((b == 1) ∷ more)) in
    let checked = (do l ← int16; if l == 0 then again else seek (negsuc 1) >> pure []) in
    if vtag == tag then pure [] d else checked d

-- The length takes one byte here, and two in `encode_bools`.
unfoldable pub decode_bool : ℕ → ℕ → Read Value
unfolding bool_loop
decode_bool fuel tag = do
  name ← read_data
  size ← byte
  b ← byte
  vtag ← byte
  more ← bool_loop fuel tag vtag
  seek (negsuc 0)
  pure (val_bool tag name ((b == 1) ∷ more))

unfoldable pub decode_range_int : ℕ → Read Value
decode_range_int tag = do
  name ← read_data
  size ← int16
  low ← int32
  high ← int32
  pure (val_range_int tag name low high)
