-- ===== src/Canary/Checksum/Laws.antt =====
-- The checksum that `updateTCPChecksum` writes and the one that `UnmarshalWithChecksum` computes.
use honeytrap.Base.{
  ℕ, ◌+◌, ◌-◌, ◌*◌, ◌/◌, ◌%◌, ◌≤◌, ◌<◌, ◌≡◌, refl, arith, List, [], ◌∷◌, length, get_or, at_within,
  ◌==◌, if◌then◌else◌, ok, ap, ◌∙◌,
}
use honeytrap.Base.Bytes.{All, IsByte, IsU16, IsU32, u16, u32}
use honeytrap.Base.Buffer.{copy_at, All-copy_at}
use honeytrap.Net.Ip.{ipv4}
use honeytrap.Wire.Tcp.Checksum.{sum_words, fold_carry, csum}
use honeytrap.Canary.Checksum.{add_words, fold_sum, store_checksum_at, update_tcp_checksum}

-- RFC 1071: the sum of the 16-bit words of the segment, without the checksum's own.
abbrev word_total : ℕ → List ℕ → ℕ
word_total i [] = 0
word_total i (a ∷ []) = a * 256
word_total i (a ∷ b ∷ r) = (if i == 16 then 0 else a * 256 + b) + word_total (i + 2) r

sum_words-total :
    (i acc : ℕ) (input : List ℕ)
    → All IsByte input
    → IsU32 acc
    → sum_words i acc input ≡ u32 (acc + word_total i input)
unfolding sum_words
sum_words-total i acc [] h k = omega arith
sum_words-total i acc (a ∷ []) h k = refl
sum_words-total i acc (a ∷ b ∷ r) h k =
    ground
      (arith, sum_words-total (i + 2) (if i == 16 then acc else u32 (acc + u16 (a * 256 + b))) r)

add_words-total :
    (i acc : ℕ) (input : List ℕ)
    → All IsByte input
    → IsU32 acc
    → add_words i acc input ≡ u32 (acc + word_total i input)
unfolding add_words
add_words-total i acc [] h k = omega arith
add_words-total i acc (a ∷ []) h k = omega arith
add_words-total i acc (a ∷ b ∷ r) h k = ground (
  arith,
  add_words-total (i + 2) (if i == 16 then acc else u32 (u32 (acc + u32 (a * 256)) + b)) r,
)

-- Three rounds end the loop on every uint32: the sum fits 16 bits.
pub fold_carry_done : (c : ℕ) → IsU32 c → fold_carry 3 c < 65536
unfolding fold_carry
fold_carry_done c h = ground arith

fold_sum-carry : (c : ℕ) → IsU32 c → fold_sum 3 c ≡ fold_carry 3 c
unfolding fold_carry fold_sum
fold_sum-carry c h = ground arith

-- The addresses of the pseudo header, summed.
abbrev addresses : ℕ → ℕ → ℕ → ℕ → ℕ → ℕ → ℕ → ℕ → ℕ
addresses a b c d a' b' c' d' = (a * 256 + b) + (c * 256 + d) + (a' * 256 + b') + (c' * 256 + d')

-- With the protocol, the length and the segment.
abbrev plain : ℕ → List ℕ → ℕ
plain pseudo input = pseudo + 6 + length input + word_total 0 input

abbrev checksum_of : ℕ → List ℕ → ℕ
checksum_of pseudo input = 65535 - fold_carry 3 (u32 (plain pseudo input))

csum-checksum_of :
    (a b c d a' b' c' d' : ℕ) (input : List ℕ)
    → All IsByte input
    → csum input (a ∷ b ∷ c ∷ d ∷ []) (a' ∷ b' ∷ c' ∷ d' ∷ [])
      ≡ checksum_of (addresses a b c d a' b' c' d') input
unfolding csum
csum-checksum_of a b c d a' b' c' d' input h =
    rw (sum_words-total 0 start input h (omega arith), total)
      (omega
        (arith, fold_carry_done (u32 (plain (addresses a b c d a' b' c' d') input)) (omega arith)))
  where
    start : ℕ
    start = u32 (
        u32 (
          u32 (
            u32 (u32 (u32 (0 + (a * 256 + b)) + (c * 256 + d)) + (a' * 256 + b')) + (c' * 256 + d'))
          + 6)
        + u32 (length input))

    total : u32 (start + word_total 0 input) ≡ u32 (plain (addresses a b c d a' b' c' d') input)
    total = omega arith

update-checksum_of :
    (a b c d a' b' c' d' : ℕ) (input : List ℕ)
    → All IsByte input
    → 18 ≤ length input
    → IsU16 (length input)
    → update_tcp_checksum (ipv4 a b c d) (ipv4 a' b' c' d') input
      ≡ ok (store_checksum_at (checksum_of (addresses a b c d a' b' c' d') input) input)
unfolding update_tcp_checksum
update-checksum_of a b c d a' b' c' d' input h l u =
    rw
      (
        at_within input 17 l,
        add_words-total 0 start input h (omega arith),
        total,
        fold_sum-carry sum (omega arith),
      )
      (ap (λ (v : ℕ). ok (store_checksum_at v input))
        (omega (arith, fold_carry_done sum (omega arith))))
  where
    sum : ℕ
    sum = u32 (plain (addresses a b c d a' b' c' d') input)

    start : ℕ
    start =
        let pseudo : ℕ =
          u32 (u32 (u32 (u32 ((a + c) * 256) + (b + d)) + u32 ((a' + c') * 256)) + (b' + d')) in
        u32 (u32 (u32 (pseudo + 6) + u32 (length input) % 65536) + u32 (length input) / 65536)

    total : u32 (start + word_total 0 input) ≡ sum
    total = omega arith

-- The bytes of the checksum do not count.
checksum_of-store :
    (pseudo v : ℕ) (input : List ℕ)
    → 18 ≤ length input
    → checksum_of pseudo (store_checksum_at v input) ≡ checksum_of pseudo input
checksum_of-store pseudo v
      (b0 ∷ b1 ∷ b2 ∷ b3 ∷ b4 ∷ b5 ∷ b6 ∷ b7 ∷ b8 ∷ b9 ∷ b10 ∷ b11 ∷ b12 ∷ b13 ∷ b14 ∷ b15 ∷ b16
        ∷ b17 ∷ rest)
      h =
    refl
checksum_of-store _ _ _ h = absurd (omega arith)

stored_word :
    (v : ℕ) (input : List ℕ)
    → 18 ≤ length input
    → get_or (store_checksum_at v input) 16 0 ≡ v / 256 % 256
stored_word v
      (b0 ∷ b1 ∷ b2 ∷ b3 ∷ b4 ∷ b5 ∷ b6 ∷ b7 ∷ b8 ∷ b9 ∷ b10 ∷ b11 ∷ b12 ∷ b13 ∷ b14 ∷ b15 ∷ b16
        ∷ b17 ∷ rest)
      h =
    refl
stored_word _ _ h = absurd (omega arith)

stored_word_low :
    (v : ℕ) (input : List ℕ) → 18 ≤ length input → get_or (store_checksum_at v input) 17 0 ≡ v % 256
stored_word_low v
      (b0 ∷ b1 ∷ b2 ∷ b3 ∷ b4 ∷ b5 ∷ b6 ∷ b7 ∷ b8 ∷ b9 ∷ b10 ∷ b11 ∷ b12 ∷ b13 ∷ b14 ∷ b15 ∷ b16
        ∷ b17 ∷ rest)
      h =
    refl
stored_word_low _ _ h = absurd (omega arith)

stored-IsByte : (v : ℕ) (input : List ℕ) → All IsByte input → All IsByte (store_checksum_at v input)
stored-IsByte v input h =
    All-copy_at IsByte 17 (v % 256 ∷ []) (copy_at 16 (v / 256 % 256 ∷ []) input) (omega arith)
      (All-copy_at IsByte 16 (v / 256 % 256 ∷ []) input (omega arith) h)

-- `update_tcp_checksum` stores a value in the bytes 16 and 17 of a segment, between two IPv4 addresses,
-- of 18 to 65535 bytes. The sum that `UnmarshalWithChecksum` computes over the new segment, with the
-- addresses in either order, is the stored value.
pub csum-update :
    (a b c d a' b' c' d' : ℕ) (input : List ℕ)
    → All IsByte input
    → 18 ≤ length input
    → IsU16 (length input)
    → (v : ℕ) × (update_tcp_checksum (ipv4 a b c d) (ipv4 a' b' c' d') input
        ≡ ok (store_checksum_at v input))
      × (get_or (store_checksum_at v input) 16 0 * 256 + get_or (store_checksum_at v input) 17 0
          ≡ v)
      × (csum (store_checksum_at v input) (a ∷ b ∷ c ∷ d ∷ []) (a' ∷ b' ∷ c' ∷ d' ∷ []) ≡ v)
      × (csum (store_checksum_at v input) (a' ∷ b' ∷ c' ∷ d' ∷ []) (a ∷ b ∷ c ∷ d ∷ []) ≡ v)
csum-update a b c d a' b' c' d' input h l u = (
  v,
  update-checksum_of a b c d a' b' c' d' input h l u,
  omega (arith, stored_word v input l, stored_word_low v input l),
  csum-checksum_of a b c d a' b' c' d' (store_checksum_at v input) (stored-IsByte v input h)
      ∙ checksum_of-store (addresses a b c d a' b' c' d') v input l,
  csum-checksum_of a' b' c' d' a b c d (store_checksum_at v input) (stored-IsByte v input h)
      ∙ checksum_of-store (addresses a' b' c' d' a b c d) v input l
      ∙ ap (λ (n : ℕ). checksum_of n input) (omega arith),
)
  where
    v : ℕ
    v = checksum_of (addresses a b c d a' b' c' d') input
