-- ===== src/Canary/Checksum.antt =====
-- `updateTCPChecksum` of listener/canary/canary_linux.go.
pub mod Laws
use honeytrap.Base.{
  ℕ, zero, suc, ◌+◌, ◌-◌, ◌*◌, ◌/◌, ◌%◌, ◌≤◌, ◌<◌, ◌≡◌, refl, arith, Bool, true, false, not, List,
  [], ◌∷◌, length, leb, ltb, ◌==◌, if◌then◌else◌, Option, none, some, Outcome, ok, err, panic,
  ◌>>=◌, ◌>>◌, at, fail_if,
}
use honeytrap.Base.Bytes.{u8, u16, u32}
use honeytrap.Base.Buffer.{store_at}
use honeytrap.Net.Ip.{IpAddress}

-- The loop over the words of the segment, and the odd last byte.
unfoldable pub add_words : ℕ → ℕ → List ℕ → ℕ
add_words i acc [] = acc
add_words i acc (a ∷ []) = u32 (acc + u32 (a * 256))
add_words i acc (a ∷ b ∷ r) =
    add_words (i + 2) (if i == 16 then acc else u32 (u32 (acc + u32 (a * 256)) + b)) r

-- `for csum > 0xffff`.
unfoldable pub fold_sum : ℕ → ℕ → ℕ
fold_sum zero c = c
fold_sum (suc fuel) c =
    let rest = fold_sum fuel (u32 (c / 65536 + c % 65536)) in if ltb 65535 c then rest else c

-- `data[16] = …; data[17] = …`, within bounds.
abbrev pub store_checksum_at : ℕ → List ℕ → List ℕ
store_checksum_at c input = store_at 17 (c % 256) (store_at 16 (c / 256 % 256) input)

abbrev pub store_checksum : ℕ → List ℕ → Outcome (List ℕ)
store_checksum c input = do present ← at input 17; ok (store_checksum_at c input)

unfoldable pub update_tcp_checksum : IpAddress → IpAddress → List ℕ → Outcome (List ℕ)
unfolding add_words fold_sum
update_tcp_checksum src dst input = do
  s12 ← at src 12
  s13 ← at src 13
  s14 ← at src 14
  s15 ← at src 15
  d12 ← at dst 12
  d13 ← at dst 13
  d14 ← at dst 14
  d15 ← at dst 15
  let sum0 = u32 (u32 ((s12 + s14) * 256) + (s13 + s15))
  let sum1 = u32 (u32 (sum0 + u32 ((d12 + d14) * 256)) + (d13 + d15))
  let sum2 = u32 (sum1 + 6)
  let len = length input
  let sum3 = u32 (u32 (sum2 + u32 len % 65536) + u32 len / 65536)
  let sum4 = add_words 0 sum3 input
  let sum5 = fold_sum 3 sum4
  store_checksum (65535 - u16 (u32 (sum5 + sum5 / 65536))) input
