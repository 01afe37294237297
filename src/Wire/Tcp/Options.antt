-- ===== src/Wire/Tcp/Options.antt =====
-- The options of a segment: what the second loop of `Marshal` writes, and what `Loop:` of `Unmarshal`
-- reads back from it.
use honeytrap.Base.{
  ℕ, suc, ◌+◌, ◌-◌, ◌≤◌, ◌≡◌, refl, arith, List, [], ◌∷◌, ◌++◌, length, length-append, upto-append,
  upto, Outcome, ok, ◌>>=◌, ◌⊎◌, inl, inr, if◌then◌else◌, ◌∙◌, ap, ap₂,
}
use honeytrap.Base.Bytes.{IsByte, All, u8}
use honeytrap.Base.Buffer.{zeros, copy_at, store_at, copy_at-append, copy_at-zeros, zeros-add}
use honeytrap.Wire.Tcp.Defs.{TcpOption, Parsed, prepend, option_step, option_loop}
use honeytrap.Wire.Tcp.Marshal.{is_short, option_size, option_length, write_option, write_options}
use native.Mathlib.Nat.{add-zero}
use mathlib.Core.List.{append_assoc}

pub behind :
    (pre : List ℕ) (n : ℕ) (src dst : List ℕ) {i : ℕ}
    → i ≡ length pre + n
    → copy_at i src (pre ++ dst) ≡ pre ++ copy_at n src dst
behind pre n src dst e = rw e (copy_at-append pre n src dst)

-- A one-byte NOP, or a longer option whose length byte counts it.
abbrev pub IsWellFormed : TcpOption → Type 0
IsWellFormed o =
    ((o.option_type ≡ 1) × (o.option_length ≡ 1) × (o.option_data ≡ []))
    ⊎ ((2 ≤ o.option_type)
        × IsByte o.option_type
        × (o.option_length ≡ length o.option_data + 2)
        × (length o.option_data ≤ 253))

-- RFC 793: an option's bytes.
unfoldable pub encode_option : TcpOption → List ℕ
encode_option o =
    if is_short o
    then u8 o.option_type ∷ []
    else u8 o.option_type ∷ u8 (length o.option_data + 2) ∷ o.option_data

unfoldable pub encode_options : List TcpOption → List ℕ
encode_options [] = []
encode_options (o ∷ os) = encode_option o ++ encode_options os

length-encode_option : (o : TcpOption) → length (encode_option o) ≡ option_size o
unfolding encode_option
length-encode_option o = ground arith

pub length-encode_options : (os : List TcpOption) → length (encode_options os) ≡ option_length os
unfolding encode_options option_length
length-encode_options [] = refl
length-encode_options (o ∷ os) = omega (
  arith,
  length-append (encode_option o) (encode_options os),
  length-encode_option o,
  length-encode_options os,
)

write_short :
    (k : ℕ) (pre rest : List ℕ)
    → store_at (length pre) k (pre ++ (zeros 1 ++ rest)) ≡ pre ++ (k ∷ rest)
write_short k pre rest = behind pre 0 (k ∷ []) (0 ∷ rest) {i = length pre} (omega arith)

write_long :
    (k l : ℕ) (chunk pre rest : List ℕ)
    → copy_at (length pre + 2) chunk (
        store_at
          (length pre + 1)
          l
          (store_at (length pre) k (pre ++ (zeros (2 + length chunk) ++ rest))))
      ≡ pre ++ (k ∷ l ∷ (chunk ++ rest))
write_long k l chunk pre rest = rw (
  zeros-add 2 (length chunk),
  behind pre 0 (k ∷ []) (0 ∷ 0 ∷ (zeros (length chunk) ++ rest)) {i = length pre} (omega arith),
  copy_at-append pre 1,
  copy_at-append pre 2,
  copy_at-zeros chunk rest,
)

write_option-encode :
    (o : TcpOption) (pre rest : List ℕ)
    → IsWellFormed o
    → write_option o (pre ++ (zeros (option_size o) ++ rest), length pre)
      ≡ (pre ++ (encode_option o ++ rest), length pre + option_size o)
unfolding write_option encode_option
write_option-encode o pre rest w = ground (
  arith,
  write_short (u8 o.option_type) pre rest,
  write_long (u8 o.option_type) (u8 (length o.option_data + 2)) o.option_data pre rest,
)

option_loop_skip : (xs more : List ℕ) → option_loop (length xs) (xs ++ more) ≡ option_loop 0 more
unfolding option_loop
option_loop_skip [] more = refl
option_loop_skip (x ∷ xs) more = option_loop_skip xs more

option_step_long :
    (kind len : ℕ) (chunk more : List ℕ) (continue : ℕ → Outcome Parsed)
    → 2 ≤ kind
    → len ≡ length chunk + 2
    → option_step kind (len ∷ (chunk ++ more)) continue ≡ (
        continue (len - 1) >>= λ p.
        ok (prepend (record { option_type = kind; option_length = len; option_data = chunk }) p))
unfolding option_step
option_step_long kind len chunk more continue h e = ground (arith, rest, length-append chunk more)
  where
    rest : upto (len - 2) (chunk ++ more) ≡ ok chunk
    rest = let e' : len - 2 ≡ length chunk = omega arith in rw e' (upto-append chunk more)

encode_option_long :
    (o : TcpOption)
    → 2 ≤ o.option_type
    → IsByte o.option_type
    → o.option_length ≡ length o.option_data + 2
    → length o.option_data ≤ 253
    → encode_option o ≡ o.option_type ∷ o.option_length ∷ o.option_data
unfolding encode_option
encode_option_long o h k e l = ground arith

option_loop-encode_option :
    (o : TcpOption) (more : List ℕ)
    → IsWellFormed o
    → option_loop 0 (encode_option o ++ more) ≡ (option_loop 0 more >>= λ p. ok (prepend o p))
unfolding option_loop
option_loop-encode_option o more (inl w) = unfold option_step encode_option in ground arith
option_loop-encode_option o more (inr (h, k, e, l)) = rw (encode_option_long o h k e l) (
    option_step_long o.option_type o.option_length o.option_data more rounds h e
    ∙ ap (λ (r : Outcome Parsed). r >>= λ p. ok (prepend o p)) skipped)
  where
    rounds : ℕ → Outcome Parsed
    rounds skip = option_loop skip (o.option_length ∷ (o.option_data ++ more))

    skipped : rounds (o.option_length - 1) ≡ option_loop 0 more
    skipped =
        let n : o.option_length - 1 ≡ suc (length o.option_data) = omega arith in
        rw n (option_loop_skip o.option_data more)

-- The loop of `unmarshal` reads well-formed options back, in front of what it makes of the rest.
pub option_loop-encode_options :
    (os : List TcpOption) (more : List ℕ) (p : Parsed)
    → All IsWellFormed os
    → option_loop 0 more ≡ ok p
    → option_loop 0 (encode_options os ++ more) ≡ ok (record p { options = os ++ p.options })
unfolding encode_options
option_loop-encode_options [] more p w e = e
option_loop-encode_options (o ∷ os) more p w e = rw (
  append_assoc,
  option_loop-encode_option o (encode_options os ++ more) w.0,
  option_loop-encode_options os more p w.1 e,
)

-- The second loop of `marshal` writes the encoded options over as many zeros.
pub write_options-encode :
    (os : List TcpOption) (pre rest : List ℕ)
    → All IsWellFormed os
    → write_options os (pre ++ (zeros (option_length os) ++ rest), length pre)
      ≡ (pre ++ (encode_options os ++ rest), length pre + option_length os)
unfolding write_options encode_options option_length
write_options-encode [] pre rest w = rw add-zero
write_options-encode (o ∷ os) pre rest w =
    ap (write_options os) first
    ∙ write_options-encode os (pre ++ encode_option o) rest w.1
    ∙ ap₂ {C = List ℕ × ℕ} (λ (a : List ℕ) (b : ℕ). (a, b)) joined counted
  where
    more : List ℕ
    more = zeros (option_length os) ++ rest

    first :
        write_option o (pre ++ (zeros (option_size o + option_length os) ++ rest), length pre)
        ≡ ((pre ++ encode_option o) ++ more, length (pre ++ encode_option o))
    first =
        rw
          (
            zeros-add (option_size o) (option_length os),
            append_assoc (zeros (option_size o)) (zeros (option_length os)) rest,
            append_assoc pre (encode_option o) more,
            length-append pre (encode_option o),
            length-encode_option o,
          )
          (write_option-encode o pre more w.0)

    joined :
        (pre ++ encode_option o) ++ (encode_options os ++ rest)
        ≡ pre ++ ((encode_option o ++ encode_options os) ++ rest)
    joined = simp append_assoc

    counted :
        length (pre ++ encode_option o) + option_length os
        ≡ length pre + (option_size o + option_length os)
    counted = omega (arith, length-append pre (encode_option o), length-encode_option o)
