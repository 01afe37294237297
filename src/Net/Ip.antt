-- ===== src/Net/Ip.antt =====
-- net.IP and net.HardwareAddr as byte lists: `IPv4`, `To4` and `Equal` of the standard library.
use honeytrap.Base.{
  ℕ, ◌≡◌, refl, arith, Bool, true, false, ◌&&◌, List, [], ◌∷◌, ◌++◌, length, take, drop, ◌==◌,
  if◌then◌else◌, Option, none, some,
}

abbrev pub IpAddress : Type 0
IpAddress = List ℕ

-- bytes.Equal.
unfoldable pub bytes_eq : List ℕ → List ℕ → Bool
bytes_eq [] [] = true
bytes_eq [] (y ∷ ys) = false
bytes_eq (x ∷ xs) [] = false
bytes_eq (x ∷ xs) (y ∷ ys) = x == y && bytes_eq xs ys

pub bytes_eq_refl : (xs : List ℕ) → bytes_eq xs xs ≡ true
unfolding bytes_eq
bytes_eq_refl [] = refl
bytes_eq_refl (x ∷ xs) = ground (arith, bytes_eq_refl xs)

pub eq_of_bytes_eq : (xs ys : List ℕ) → bytes_eq xs ys ≡ true → xs ≡ ys
unfolding bytes_eq
eq_of_bytes_eq [] [] h = refl
eq_of_bytes_eq [] (y ∷ ys) h = ground arith
eq_of_bytes_eq (x ∷ xs) [] h = ground arith
eq_of_bytes_eq (x ∷ xs) (y ∷ ys) h = ground (arith, eq_of_bytes_eq xs ys)

abbrev v4_prefix : List ℕ
v4_prefix = 0 ∷ 0 ∷ 0 ∷ 0 ∷ 0 ∷ 0 ∷ 0 ∷ 0 ∷ 0 ∷ 0 ∷ 255 ∷ 255 ∷ []

-- net.IPv4(a, b, c, d): the 16-byte form.
abbrev pub ipv4 : ℕ → ℕ → ℕ → ℕ → IpAddress
ipv4 a b c d = v4_prefix ++ (a ∷ b ∷ c ∷ d ∷ [])

-- ip.To4(); `none` is nil.
unfoldable pub to4 : IpAddress → Option (List ℕ)
unfolding bytes_eq
to4 ip =
    if length ip == 4
    then some ip
    else if length ip == 16 && bytes_eq (take 12 ip) v4_prefix
    then some (drop 12 ip)
    else none

-- ip.Equal(x): the 4-byte and the 16-byte form of an address are equal.
unfoldable pub ip_equal : IpAddress → IpAddress → Bool
unfolding bytes_eq
ip_equal ip x =
    if length ip == length x
    then bytes_eq ip x
    else if length ip == 4 && length x == 16
    then bytes_eq (take 12 x) v4_prefix && bytes_eq ip (drop 12 x)
    else if length ip == 16 && length x == 4
    then bytes_eq (take 12 ip) v4_prefix && bytes_eq (drop 12 ip) x
    else false

pub to4-ipv4 : (a b c d : ℕ) → to4 (ipv4 a b c d) ≡ some (a ∷ b ∷ c ∷ d ∷ [])
unfolding to4
to4-ipv4 a b c d = refl

pub ip_equal_refl : (ip : IpAddress) → ip_equal ip ip ≡ true
unfolding ip_equal
ip_equal_refl ip = ground (arith, bytes_eq_refl ip)
