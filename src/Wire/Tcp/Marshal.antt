-- ===== src/Wire/Tcp/Marshal.antt =====
-- `Marshal` of tcp.go.
use Prim.Native.Nat.{bit_or}
use honeytrap.Base.{
  ℕ, ◌+◌, ◌-◌, ◌*◌, ◌/◌, ◌%◌, Bool, List, [], ◌∷◌, length, leb, ◌==◌, if◌then◌else◌,
}
use honeytrap.Base.Bytes.{u8, put_uint16, put_uint32}
use honeytrap.Base.Buffer.{zeros, copy_at, store_at}
use honeytrap.Wire.Tcp.Defs.{TcpOption, Header}

-- `case 0, 1` of both switches.
abbrev pub is_short : TcpOption → Bool
is_short o = leb o.option_type 1

abbrev pub option_size : TcpOption → ℕ
option_size o = if is_short o then 1 else 2 + length o.option_data

-- The first loop.
unfoldable pub option_length : List TcpOption → ℕ
option_length [] = 0
option_length (o ∷ os) = option_size o + option_length os

-- The body of the second loop: the new buffer and the new `start`. The length byte is a uint8, and
-- `start` advances by that byte.
unfoldable pub write_option : TcpOption → List ℕ × ℕ → List ℕ × ℕ
write_option o (bytes, start) =
    let kinded = store_at start (u8 o.option_type) bytes in
    if is_short o
    then (kinded, start + 1)
    else let len = u8 (length o.option_data + 2) in
      (copy_at (start + 2) o.option_data (store_at (start + 1) len kinded), start + len)

unfoldable pub write_options : List TcpOption → List ℕ × ℕ → List ℕ × ℕ
write_options [] s = s
write_options (o ∷ os) s = write_options os (write_option o s)

-- The padding of a header whose options take `size` bytes.
abbrev pub padding_for : ℕ → List ℕ → List ℕ
padding_for size padding = if size % 4 == 0 then padding else zeros (4 - size % 4)

-- The bytes, and the header with the padding and the data offset that `Marshal` sets. The bytes of
-- the checksum stay zero.
unfoldable pub marshal : Header → List ℕ × Header
unfolding option_length write_option write_options
marshal hdr =
    let size = option_length hdr.options in
    let padding = padding_for size hdr.padding in
    let data_offset = u8 ((length padding + size + 20) / 4) in
    let bytes0 = zeros (20 + size + length padding + length hdr.payload) in
    let bytes1 = copy_at (20 + size + length padding) hdr.payload bytes0 in
    let bytes2 = copy_at 0 (put_uint16 hdr.source) bytes1 in
    let bytes3 = copy_at 2 (put_uint16 hdr.destination) bytes2 in
    let bytes4 = copy_at 4 (put_uint32 hdr.seq_num) bytes3 in
    let bytes5 = copy_at 8 (put_uint32 hdr.ack_num) bytes4 in
    let bytes6 = store_at 12 (u8 (data_offset * 16)) bytes5 in
    let bytes7 = store_at 13 (bit_or (u8 (hdr.ecn * 64)) hdr.ctrl) bytes6 in
    let bytes8 = copy_at 14 (put_uint16 hdr.window) bytes7 in
    let bytes9 = copy_at 18 (put_uint16 hdr.urgent) bytes8 in
    let (bytes10, start) = write_options hdr.options (bytes9, 20) in
    (copy_at start padding bytes10, record hdr { padding = padding; data_offset = data_offset })
