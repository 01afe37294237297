-- ===== src/Wire/Tcp/Defs.antt =====
-- The types of tcp.go, and `Unmarshal` with its loop over the options.
use Prim.Native.Nat.{bit_and}
use honeytrap.Base.{
  ℕ, zero, suc, ◌-◌, ◌*◌, ◌/◌, ◌%◌, Bool, List, [], ◌∷◌, length, ltb, ◌==◌, if◌then◌else◌, Option,
  none, some, Outcome, ok, ◌>>=◌, slice, at, from, Error, bad_offset, buffer_too_short, bad_option,
}
use honeytrap.Base.Bytes.{uint16, uint32}

-- The control bits.
abbrev pub fin : ℕ
fin = 1

abbrev pub syn : ℕ
syn = 2

abbrev pub rst : ℕ
rst = 4

abbrev pub psh : ℕ
psh = 8

abbrev pub ack : ℕ
ack = 16

abbrev pub urg : ℕ
urg = 32

abbrev pub option_kind_end_list : ℕ
option_kind_end_list = 0

abbrev pub option_kind_nop : ℕ
option_kind_nop = 1

pub record TcpOption : Type 0 where
  pub option_type : ℕ
  pub option_length : ℕ
  pub option_data : List ℕ

pub record Header : Type 0 where
  pub source : ℕ
  pub destination : ℕ
  pub seq_num : ℕ
  pub ack_num : ℕ
  pub data_offset : ℕ
  pub reserved : ℕ
  pub ecn : ℕ
  pub ctrl : ℕ
  pub window : ℕ
  pub checksum : ℕ
  pub urgent : ℕ
  pub options : List TcpOption
  pub padding : List ℕ
  pub payload : List ℕ

-- The loop's result: the options read so far, the padding, and the error that ended it.
pub record Parsed : Type 0 where
  pub options : List TcpOption
  pub padding : List ℕ
  pub error : Option Error

abbrev pub prepend : TcpOption → Parsed → Parsed
prepend o p = record p { options = o ∷ p.options }

abbrev pub one_byte : ℕ → TcpOption
one_byte kind = record { option_type = kind; option_length = 1; option_data = [] }

-- The cases of the switch behind an option's kind and its length byte `len`; `size` is the number
-- of bytes that are left, `body` those behind the length byte. `continue` is the rest of the loop.
long_option : ℕ → ℕ → ℕ → List ℕ → (ℕ → Outcome Parsed) → Outcome Parsed
long_option kind len size body continue =
    let bare : TcpOption = record { option_type = kind; option_length = len; option_data = [] } in
    let failed = ok (record { options = bare ∷ []; padding = []; error = some bad_option }) in
    if ltb len 2 then failed else if ltb size len then failed else (do
      chunk ← slice 0 (len - 2) body
      rest ← continue (len - 1)
      ok (prepend (record bare { option_data = chunk }) rest))

-- One round of `Loop:` of `Unmarshal`, on an option kind and the bytes behind it. An option kind with
-- no byte behind it makes `data[1]` panic.
unfoldable pub option_step : ℕ → List ℕ → (ℕ → Outcome Parsed) → Outcome Parsed
unfolding long_option
option_step kind xs continue =
    if kind == option_kind_end_list
    then ok (record { options = one_byte kind ∷ []; padding = xs; error = none })
    else if kind == option_kind_nop
    then (do rest ← continue 0; ok (prepend (one_byte kind) rest))
    else (do len ← at xs 0; body ← from 1 xs; long_option kind len (suc (length xs)) body continue)

-- The loop. `data = data[opt.OptionLength:]` is taken byte by byte: `skip` is how many bytes of the
-- current option are still to be dropped.
unfoldable pub option_loop : ℕ → List ℕ → Outcome Parsed
option_loop skip [] = ok (record { options = []; padding = []; error = none })
option_loop (suc skip) (x ∷ xs) = option_loop skip xs
option_loop zero (kind ∷ xs) = option_step kind xs (λ skip. option_loop skip xs)

-- The checks of the data offset, then the options and the payload.
unfoldable pub check_offset : Header → List ℕ → Outcome (Header × Option Error)
check_offset hdr input =
    let data_start = hdr.data_offset * 4 in
    if ltb hdr.data_offset 5
    then ok (hdr, some bad_offset)
    else if ltb (length input) data_start
    then ok (hdr, some buffer_too_short)
    else (do
      payload ← from data_start input
      parsed ← option_loop 0 (← slice 20 data_start input)
      ok (
        record hdr { options = parsed.options; padding = parsed.padding; payload = payload },
        parsed.error,
      ))

-- The fixed part of the header, which no check guards, and the rest. Beside an error the header
-- stays filled as far as it was read.
unfoldable pub unmarshal : List ℕ → Outcome (Header × Option Error)
unfolding check_offset
unmarshal input = do
  source ← uint16 (← slice 0 2 input)
  destination ← uint16 (← slice 2 4 input)
  seq_num ← uint32 (← slice 4 8 input)
  ack_num ← uint32 (← slice 8 12 input)
  b12 ← at input 12
  b13 ← at input 13
  window ← uint16 (← slice 14 16 input)
  checksum ← uint16 (← slice 16 18 input)
  urgent ← uint16 (← slice 18 20 input)
  let hdr : Header = record {
    source = source;
    destination = destination;
    seq_num = seq_num;
    ack_num = ack_num;
    data_offset = b12 / 16;
    reserved = 0;
    ecn = b13 / 64 % 8;
    ctrl = b13 % 64;
    window = window;
    checksum = checksum;
    urgent = urgent;
    options = [];
    padding = [];
    payload = [];
  }
  check_offset hdr input

-- `HasFlag`.
abbrev pub has_flag : Header → ℕ → Bool
has_flag hdr flag = bit_and hdr.ctrl flag == flag
