-- ===== src/Wire/Tcp/Panics.antt =====
-- Where `Unmarshal` of tcp.go panics: it has no check of the length, nor of a last option's.
use honeytrap.Base.{
  Bool-cases, ltb, from, from-drop, sym, ◌∙◌, ◌==◌, slice_lem, ℕ, zero, suc, ◌+◌, ◌-◌, ◌*◌, ◌/◌,
  ◌≤◌, ◌<◌, ◌≡◌, ◌≢◌, ◌↔◌, refl, arith, List, [], ◌∷◌, length, take, upto-take, get_or, Outcome, ok,
  err, panic, slice, Error, drop, inl, inr, ◌⊎◌,
}
use honeytrap.Wire.Tcp.Defs.{Parsed, option_step, option_loop, check_offset, unmarshal, Header}

-- The number of header bytes that a segment's data offset claims.
abbrev pub claimed_header : List ℕ → ℕ
claimed_header input = get_or input 12 0 / 16 * 4

option_step-ne-err :
    (kind : ℕ) (xs : List ℕ) (continue : ℕ → Outcome Parsed) (e : Error)
    → ((skip : ℕ) → continue skip ≢ err e)
    → option_step kind xs continue ≢ err e
unfolding option_step
option_step-ne-err kind [] continue e h = ground (arith, h 0)
option_step-ne-err kind (len ∷ body) continue e h =
    ground (arith, h 0, h (len - 1), upto-take (len - 2) body)

-- The loop over the options returns no error of its own.
option_loop-ne-err : (skip : ℕ) (xs : List ℕ) (e : Error) → option_loop skip xs ≢ err e
unfolding option_loop
option_loop-ne-err skip [] e = ground arith
option_loop-ne-err (suc skip) (x ∷ xs) e = option_loop-ne-err skip xs e
option_loop-ne-err zero (kind ∷ xs) e =
    option_step-ne-err kind xs (λ skip. option_loop skip xs) e
      (λ skip. option_loop-ne-err skip xs e)

-- Option bytes, of which `skip` are still to be dropped, that end behind an option kind other than
-- the two of one byte.
pub data IsCut : ℕ → List ℕ → Type 0 where
  last : {kind : ℕ} → 2 ≤ kind → IsCut zero (kind ∷ [])
  dropped : {skip x : ℕ} {xs : List ℕ} → IsCut skip xs → IsCut (suc skip) (x ∷ xs)
  nop : {kind : ℕ} {xs : List ℕ} → kind ≡ 1 → IsCut zero xs → IsCut zero (kind ∷ xs)
  long :
      {kind len : ℕ} {body : List ℕ}
      → 2 ≤ kind
      → 2 ≤ len
      → len ≤ 2 + length body
      → IsCut (len - 1) (len ∷ body)
      → IsCut zero (kind ∷ len ∷ body)

option_step-IsCut :
    (kind : ℕ) (xs : List ℕ) (continue : ℕ → Outcome Parsed)
    → ((skip : ℕ) → continue skip ≡ panic → IsCut skip xs)
    → option_step kind xs continue ≡ panic
    → IsCut zero (kind ∷ xs)
unfolding option_step
option_step-IsCut kind [] continue h e = elim (Bool-cases (ltb kind 2)) [
  | inl low ↦ nop (ground arith) (h 0 (ground arith))
  | inr high ↦ last (ground arith)
]
option_step-IsCut kind (len ∷ body) continue h e = elim (Bool-cases (kind == 1)) [
  | inl one ↦ nop (ground arith) (h 0 (ground arith))
  | inr more ↦
      long (ground arith) (ground arith) (ground arith)
        (h (len - 1) (ground (arith, upto-take (len - 2) body)))
]

pub option_loop-IsCut : (skip : ℕ) (xs : List ℕ) → option_loop skip xs ≡ panic → IsCut skip xs
unfolding option_loop
option_loop-IsCut skip [] e = absurd (ground arith)
option_loop-IsCut (suc skip) (x ∷ xs) e = dropped (option_loop-IsCut skip xs e)
option_loop-IsCut zero (kind ∷ xs) e =
    option_step-IsCut kind xs (λ skip. option_loop skip xs) (λ skip. option_loop-IsCut skip xs) e

pub IsCut-panics : {skip : ℕ} {xs : List ℕ} → IsCut skip xs → option_loop skip xs ≡ panic
unfolding option_loop option_step
IsCut-panics (last h) = ground arith
IsCut-panics (dropped c) = IsCut-panics c
IsCut-panics (nop e c) = ground (arith, IsCut-panics c)
IsCut-panics (long {len = len} {body = body} h k l c) =
    ground (arith, IsCut-panics c, upto-take (len - 2) body)

-- The bytes that the data offset sets aside for options.
abbrev pub option_area : List ℕ → List ℕ
option_area input = take (claimed_header input - 20) (drop 20 input)

abbrev pub HasCutOption : List ℕ → Type 0
HasCutOption input =
    (20 ≤ length input)
    × (20 ≤ claimed_header input)
    × (claimed_header input ≤ length input)
    × IsCut zero (option_area input)

unmarshal_fixed :
    (input : List ℕ)
    → 20 ≤ length input
    → (hdr : Header) × (hdr.data_offset ≡ get_or input 12 0 / 16)
      × (unmarshal input ≡ check_offset hdr input)
unfolding unmarshal
unmarshal_fixed
      (b0 ∷ b1 ∷ b2 ∷ b3 ∷ b4 ∷ b5 ∷ b6 ∷ b7 ∷ b8 ∷ b9 ∷ b10 ∷ b11 ∷ b12 ∷ b13 ∷ b14 ∷ b15 ∷ b16
        ∷ b17 ∷ b18 ∷ b19 ∷ rest)
      h =
    (_, refl, refl)
unmarshal_fixed _ h = absurd (omega arith)

unmarshal_short : (input : List ℕ) → length input < 20 → unmarshal input ≡ panic
unfolding unmarshal
unmarshal_short
      (b0 ∷ b1 ∷ b2 ∷ b3 ∷ b4 ∷ b5 ∷ b6 ∷ b7 ∷ b8 ∷ b9 ∷ b10 ∷ b11 ∷ b12 ∷ b13 ∷ b14 ∷ b15 ∷ b16
        ∷ b17 ∷ b18 ∷ b19 ∷ rest)
      h =
    absurd (omega arith)
unmarshal_short _ h = refl

check_offset_panics :
    (hdr : Header) (input : List ℕ)
    → 20 ≤ length input
    → hdr.data_offset * 4 ≡ claimed_header input
    → (check_offset hdr input ≡ panic) ↔ HasCutOption input
unfolding check_offset
check_offset_panics hdr input h e = (
  λ p. (
    h,
    ground arith,
    ground arith,
    option_loop-IsCut 0 (option_area input) (ground (arith, payload, options)),
  ),
  λ (l, enough, held, cut). ground (arith, payload, options, IsCut-panics cut),
)
  where
    payload :
        hdr.data_offset * 4 ≤ length input
        → from (hdr.data_offset * 4) input ≡ ok (drop (hdr.data_offset * 4) input)
    payload = from-drop (hdr.data_offset * 4) input

    options :
        20 ≤ hdr.data_offset * 4
        → hdr.data_offset * 4 ≤ length input
        → slice 20 (hdr.data_offset * 4) input ≡ ok (option_area input)
    options k l = rw (← e) (slice_lem 20 (hdr.data_offset * 4) input k l)

-- `unmarshal` panics on the segments shorter than 20 bytes and on those whose data offset, where it
-- passes both checks, sets aside option bytes that end behind a kind which wants a length. It
-- panics on no other input.
pub segment_panics :
    (input : List ℕ) → (unmarshal input ≡ panic) ↔ ((length input < 20) ⊎ HasCutOption input)
segment_panics input = elim (Bool-cases (ltb (length input) 20)) [
  | inl short ↦ (λ _. inl (ground arith), λ _. unmarshal_short input (ground arith))
  | inr full ↦
      let (hdr, offset, same) = unmarshal_fixed input (ground arith) in
      let (to_cut, of_cut) = check_offset_panics hdr input (ground arith) (ground arith) in
      (
        λ p. inr (to_cut (sym same ∙ p)),
        λ s. same ∙ of_cut (elim s [ inl l ↦ absurd (ground arith) | inr c ↦ c ]),
      )
]
