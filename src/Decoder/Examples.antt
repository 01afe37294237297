-- ===== src/Decoder/Examples.antt =====
-- The theorems on the decoder, at six bytes.
use honeytrap.Base.{arith, List, [], ◌∷◌, none}
use honeytrap.Base.Int.{negsuc}
use honeytrap.Decoder.{Decode}
use honeytrap.Decoder.Bounds.{
  Call, byte_call, int16_call, seek_call, data_call, perform_all, StaysAt, perform_all-StaysAt,
}

abbrev six : Decode
six = record { offset = 2; bytes = 1 ∷ 2 ∷ 0 ∷ 1 ∷ 65 ∷ 66 ∷ []; lasterror = none }

abbrev calls : List Call
calls =
    data_call
    ∷ (seek_call (negsuc 2) ∷ (int16_call ∷ (byte_call ∷ (byte_call ∷ (int16_call ∷ [])))))

perform_all-StaysAt_example : StaysAt six.bytes (perform_all calls six)
perform_all-StaysAt_example = perform_all-StaysAt calls six (omega arith)
