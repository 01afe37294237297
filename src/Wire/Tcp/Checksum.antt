-- ===== src/Wire/Tcp/Checksum.antt =====
-- `csum`, `UnmarshalWithChecksum` and `MarshalWithChecksum` of tcp.go.
use honeytrap.Base.{
  ℕ, zero, suc, ◌+◌, ◌-◌, ◌*◌, ◌/◌, ◌%◌, List, [], ◌∷◌, length, ltb, ◌==◌, if◌then◌else◌, Option,
  none, some, Outcome, ok, panic, ◌>>=◌, Error, invalid_checksum,
}
use honeytrap.Base.Bytes.{u8, u16, u32}
use honeytrap.Base.Buffer.{store_at}
use honeytrap.Net.Ip.{IpAddress, to4}
use honeytrap.Wire.Tcp.Defs.{Header, unmarshal}
use honeytrap.Wire.Tcp.Marshal.{marshal}

-- `to4byte(ip.String())`: the four bytes of an IPv4 address. Any other address ends the program, by
-- log.Fatalf.
unfoldable pub to4byte : IpAddress → Outcome (List ℕ)
to4byte ip = elim (to4 ip) [ none ↦ panic | some b ↦ ok b ]

-- The loop over the words, without the one at offset 16, and the odd last byte. The sum is a uint32.
unfoldable pub sum_words : ℕ → ℕ → List ℕ → ℕ
sum_words i acc [] = acc
sum_words i acc (a ∷ []) = u32 (acc + a * 256)
sum_words i acc (a ∷ b ∷ r) =
    sum_words (i + 2) (if i == 16 then acc else u32 (acc + u16 (a * 256 + b))) r

-- `for csum>>16 > 0`; the fuel is the number of rounds.
unfoldable pub fold_carry : ℕ → ℕ → ℕ
fold_carry zero c = c
fold_carry (suc fuel) c =
    let rest = fold_carry fuel (u32 (c % 65536 + c / 65536)) in
    if ltb 0 (c / 65536) then rest else c

-- The rounds that the fuel allows.
abbrev pub fold_rounds : ℕ
fold_rounds = 3

-- The pseudo header's addresses; `b` holds four bytes.
abbrev pub address_words : List ℕ → ℕ → ℕ
address_words (a ∷ b ∷ c ∷ d ∷ r) acc = u32 (u32 (acc + (a * 256 + b)) + (c * 256 + d))
address_words _ acc = acc

unfoldable pub csum : List ℕ → List ℕ → List ℕ → ℕ
unfolding sum_words fold_carry
csum input srcip dstip =
    let sum0 = address_words dstip (address_words srcip 0) in
    let sum1 = u32 (sum0 + 6) in
    let sum2 = u32 (sum1 + u32 (length input)) in
    let sum3 = sum_words 0 sum2 input in u16 (4294967295 - fold_carry fold_rounds sum3)

-- The method: a wrong checksum takes the place of any other error.
unfoldable pub unmarshal_checked : List ℕ → IpAddress → IpAddress → Outcome (Header × Option Error)
unmarshal_checked input src dest = do
  (hdr, e) ← unmarshal input
  srcip ← to4byte src
  dstip ← to4byte dest
  let valid = csum input srcip dstip == hdr.checksum
  ok (hdr, if valid then e else some invalid_checksum)

-- The function: beside a wrong checksum the header is returned, beside any other error it is nil.
abbrev pub keep_header : Header → Option Error → Option Header
keep_header hdr none = some hdr
keep_header hdr (some invalid_checksum) = some hdr
keep_header hdr (some _) = none

unfoldable pub unmarshal_with_checksum :
    List ℕ → IpAddress → IpAddress → Outcome (Option Header × Option Error)
unfolding unmarshal_checked
unmarshal_with_checksum input src dest = do
  (hdr, e) ← unmarshal_checked input src dest
  ok (keep_header hdr e, e)

unfoldable pub marshal_with_checksum : Header → IpAddress → IpAddress → Outcome (List ℕ)
marshal_with_checksum hdr src dest = do
  let bytes = (marshal hdr).0
  srcip ← to4byte src
  dstip ← to4byte dest
  let checksum = csum bytes srcip dstip
  ok (store_at 17 (checksum % 256) (store_at 16 (u8 (checksum / 256)) bytes))
