-- ===== src/Decoder/Bounds.antt =====
-- What every method of the decoder keeps, and where `Copy` and `Data` panic.
use honeytrap.Base.{ℕ, ◌≤◌, ◌<◌, ◌≡◌, ◌↔◌, refl, arith, List, [], ◌∷◌, length, ◌∙◌, subst}
use honeytrap.Base.Int.{ℤ, pos, negsuc, signed16}
use honeytrap.Base.Run.{Run, returns, panics, starves}
use honeytrap.Decoder.{
  Decode, and_then, byte, int16, int32, peek_byte, peek_int16, copy, read_data, seek,
}

abbrev pub IsInside : Decode → Type 0
IsInside d = d.offset ≤ length d.bytes

-- Whatever the call returns, the bytes are the same and the offset is not behind them.
abbrev pub Stays : {A : Type 0} → Decode → Run (A × Decode) → Type 0
Stays d (returns (a, d')) = (d'.bytes ≡ d.bytes) × IsInside d'
Stays d panics = Unit
Stays d starves = ⊥

copy-Stays : (size : ℤ) (d : Decode) → IsInside d → Stays d (copy size d)
unfolding copy
copy-Stays (pos n) d h = ground arith
copy-Stays (negsuc n) d h = ground arith

seek-Stays : (by : ℤ) (d : Decode) → IsInside d → Stays d (seek by d)
unfolding seek
seek-Stays (pos n) d h = ground arith
seek-Stays (negsuc n) d h = ground arith

int16-Stays : (d : Decode) → IsInside d → Stays d (int16 d)
unfolding int16
int16-Stays d h = ground arith

data-Stays : (l : ℕ) (d d' : Decode) → Stays d (returns (l, d')) → Stays d (copy (signed16 l) d')
data-Stays l d d' s = rebased (copy (signed16 l) d') (copy-Stays (signed16 l) d' s.1)
  where
    rebased : (r : Run (List ℕ × Decode)) → Stays d' r → Stays d r
    rebased (returns (a, e)) (b, i) = (b ∙ s.0, i)
    rebased panics b = tt
    rebased starves b = b

read_data-Stays : (d : Decode) → IsInside d → Stays d (read_data d)
unfolding read_data
read_data-Stays d h = after (int16 d) (int16-Stays d h)
  where
    after : (r : Run (ℕ × Decode)) → Stays d r → Stays d (and_then r (λ l. copy (signed16 l)))
    after (returns (l, d')) s = data-Stays l d d' s
    after panics s = tt
    after starves s = s

-- One call of a method.
pub data Call : Type 0 where
  byte_call int16_call int32_call peek_byte_call peek_int16_call data_call : Call
  copy_call seek_call : ℤ → Call

abbrev forget : {A : Type 0} → Run (A × Decode) → Run Decode
forget (returns (a, d)) = returns d
forget panics = panics
forget starves = starves

unfoldable pub perform : Call → Decode → Run Decode
perform byte_call d = forget (byte d)
perform int16_call d = forget (int16 d)
perform int32_call d = forget (int32 d)
perform peek_byte_call d = forget (peek_byte d)
perform peek_int16_call d = forget (peek_int16 d)
perform data_call d = forget (read_data d)
perform (copy_call size) d = forget (copy size d)
perform (seek_call by) d = forget (seek by d)

-- Calls one after another.
unfoldable pub perform_all : List Call → Decode → Run Decode
unfolding perform
perform_all [] d = returns d
perform_all (c ∷ cs) d = elim (perform c d) [
  | returns d' ↦ perform_all cs d'
  | panics ↦ panics
  | starves ↦ starves
]

abbrev pub StaysAt : List ℕ → Run Decode → Type 0
StaysAt bytes (returns d) = (d.bytes ≡ bytes) × IsInside d
StaysAt bytes panics = Unit
StaysAt bytes starves = ⊥

forget-StaysAt :
    {A : Type 0} (d : Decode) (r : Run (A × Decode)) → Stays d r → StaysAt d.bytes (forget r)
forget-StaysAt d (returns (a, d')) s = s
forget-StaysAt d panics s = tt
forget-StaysAt d starves s = s

perform-StaysAt : (c : Call) (d : Decode) → IsInside d → StaysAt d.bytes (perform c d)
unfolding perform
perform-StaysAt byte_call d h = forget-StaysAt d (byte d) (unfold byte in ground arith)
perform-StaysAt int16_call d h = forget-StaysAt d (int16 d) (int16-Stays d h)
perform-StaysAt int32_call d h = forget-StaysAt d (int32 d) (unfold int32 in ground arith)
perform-StaysAt peek_byte_call d h =
    forget-StaysAt d (peek_byte d) (unfold peek_byte in ground arith)
perform-StaysAt peek_int16_call d h =
    forget-StaysAt d (peek_int16 d) (unfold peek_int16 in ground arith)
perform-StaysAt data_call d h = forget-StaysAt d (read_data d) (read_data-Stays d h)
perform-StaysAt (copy_call size) d h = forget-StaysAt d (copy size d) (copy-Stays size d h)
perform-StaysAt (seek_call by) d h = forget-StaysAt d (seek by d) (seek-Stays by d h)

-- Any sequence of calls on a decoder whose offset is not behind its bytes either panics or ends with the same bytes and an offset that
-- is not behind them.
pub perform_all-StaysAt :
    (calls : List Call) (d : Decode) → IsInside d → StaysAt d.bytes (perform_all calls d)
unfolding perform_all
perform_all-StaysAt [] d h = (refl, h)
perform_all-StaysAt (c ∷ cs) d h =
    next (perform c d) (perform-StaysAt c d h) (λ d' k. perform_all-StaysAt cs d' k)
  where
    next :
        (r : Run Decode)
        → StaysAt d.bytes r
        → ((d' : Decode) → IsInside d' → StaysAt d'.bytes (perform_all cs d'))
        → StaysAt d.bytes
            (elim r [ returns d' ↦ perform_all cs d' | panics ↦ panics | starves ↦ starves ])
    next (returns d') (same, inside) ih =
        subst (λ (b : List ℕ). StaysAt b (perform_all cs d')) same (ih d' inside)
    next panics s ih = tt
    next starves s ih = s

-- Within the bytes `copy` panics exactly at the negative sizes that do not reach in front of them.
pub copy_panics :
    (size : ℤ) (d : Decode)
    → IsInside d
    → (copy size d ≡ panics) ↔ ((n : ℕ) × (size ≡ negsuc n) × (n < d.offset))
unfolding copy
copy_panics (pos n) d h = (λ e. absurd (ground arith), λ s. absurd (cc (s.1)))
copy_panics (negsuc n) d h = (λ e. (n, refl, ground arith), λ s. ground arith)
