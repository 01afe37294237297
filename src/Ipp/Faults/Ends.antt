-- ===== src/Ipp/Faults/Ends.antt =====
-- services/ipp: the reader behind the last byte.
use honeytrap.Base.{
  ℕ, zero, suc, ◌+◌, ◌-◌, ◌<◌, ◌≡◌, refl, arith, false, [], length, get_or, ◌==◌, Option, some, ◌∙◌,
}
use honeytrap.Base.Int.{pos}
use honeytrap.Base.Run.{returns, starves}
use honeytrap.Decoder.{Decode, OutOfBounds, with_error, byte, int16, seek}
use honeytrap.Decoder.Ahead.{bind_returns}
use honeytrap.Decoder.Reads.{bind_starves}
use honeytrap.Ipp.Message.{group_loop, decode_group, groups_loop}

abbrev pub too_far : ℕ → Decode → OutOfBounds
too_far n d = record { max = length d.bytes; got = pos (d.offset + n) }

-- Where all bytes are read, `Byte` gives zero and keeps the error.
pub byte_at_end :
    (d : Decode) → d.offset ≡ length d.bytes → byte d ≡ returns (0, with_error (too_far 1 d) d)
unfolding byte
byte_at_end d h = ground arith

pub int16_at_end :
    (d : Decode) → length d.bytes < d.offset + 2 → int16 d ≡ returns (0, with_error (too_far 2 d) d)
unfolding int16
int16_at_end d h = ground arith

-- One byte back, as `Seek(-1)` does.
abbrev rewound : Decode → Decode
rewound d = record d { offset = d.offset - 1; lasterror = some (too_far 1 d) }

empty_group :
    (limit tag : ℕ) (d : Decode)
    → d.offset ≡ length d.bytes
    → 0 < d.offset
    → decode_group (suc limit) tag d ≡ returns (some (record { tag = tag; val = [] }), rewound d)
unfolding decode_group group_loop seek
empty_group limit tag d h p = bind_returns byte _ d (byte_at_end d h) ∙ ground arith

byte_again :
    (d : Decode) (e : Option OutOfBounds)
    → d.offset ≡ length d.bytes
    → 0 < d.offset
    → byte (record d { offset = d.offset - 1; lasterror = e })
      ≡ returns (get_or d.bytes (d.offset - 1) 0, record d { lasterror = e })
unfolding byte
byte_again d e h p = ground arith

no_rounds : (tag : ℕ) (d : Decode) → d.offset ≡ length d.bytes → decode_group 0 tag d ≡ starves
unfolding decode_group group_loop
no_rounds tag d h = bind_returns byte _ d (byte_at_end d h)

pub group_starves :
    (limit fuel dtag : ℕ) (d : Decode)
    → (dtag == 3) ≡ false
    → decode_group limit dtag d ≡ starves
    → groups_loop limit (suc fuel) dtag d ≡ starves
unfolding groups_loop
group_starves limit fuel dtag d c h = rw c (bind_starves (decode_group limit dtag) _ d h)

-- A round that reads an empty group, and the rest of the loop.
round_starves :
    (limit fuel dtag : ℕ) (d : Decode)
    → d.offset ≡ length d.bytes
    → 0 < d.offset
    → (dtag == 3) ≡ false
    → groups_loop (suc limit) fuel (get_or d.bytes (d.offset - 1) 0) (with_error (too_far 1 d) d)
      ≡ starves
    → groups_loop (suc limit) (suc fuel) dtag d ≡ starves
unfolding groups_loop
round_starves limit fuel dtag d h p c ih = rw c (
    bind_returns (decode_group (suc limit) dtag) _ d (empty_group limit dtag d h p)
    ∙ bind_returns byte _ (rewound d) (byte_again d (some (too_far 1 d)) h p)
    ∙ bind_starves (groups_loop (suc limit) fuel (get_or d.bytes (d.offset - 1) 0)) _
        (with_error (too_far 1 d) d) ih)

-- Each round of the loop over the groups adds an empty one.
pub stuck :
    (limit fuel dtag : ℕ) (d : Decode)
    → d.offset ≡ length d.bytes
    → 0 < d.offset
    → (dtag == 3) ≡ false
    → (get_or d.bytes (d.offset - 1) 0 == 3) ≡ false
    → groups_loop limit fuel dtag d ≡ starves
stuck limit zero dtag d h p c e = unfold groups_loop in refl
stuck zero (suc fuel) dtag d h p c e = group_starves 0 fuel dtag d c (no_rounds dtag d h)
stuck (suc limit) (suc fuel) dtag d h p c e =
    round_starves limit fuel dtag d h p c
      (stuck (suc limit) fuel _ (with_error (too_far 1 d) d) h p e e)
