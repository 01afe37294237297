-- ===== src/Base/Bits.antt =====
-- Facts about the bitwise operations at variables.
use Prim.Native.Nat.{ℕ, zero, suc, ◌+◌, ◌*◌, ◌/◌, ◌%◌, ◌^◌, ◌≤◌, ◌<◌, max}
use Prim.Native.Nat.{bit_or, digits, bit_or-bitwise}
use mathlib.Core.Path.{◌≡◌, refl, ap}
use mathlib.Core.Bool.{Bool, true, ◌&&◌}
use native.Mathlib.Omega.{arith}
use native.Mathlib.Nat.{pow-suc}

-- Every value below a bound is checked by evaluation.
unfoldable pub all_below : ℕ → (ℕ → Bool) → Bool
all_below zero p = true
all_below (suc n) p = p n && all_below n p

pub all_below_sound :
    (bound : ℕ) (test : ℕ → Bool) (v : ℕ) → v < bound → all_below bound test ≡ true → test v ≡ true
unfolding all_below
all_below_sound zero test v below h = absurd (omega arith)
all_below_sound (suc bound) test v below h = ground (arith, all_below_sound bound test v)

abbrev or_digits : ℕ → ℕ → ℕ → ℕ
or_digits n a b = digits (λ b. b) max n a b

-- More fuel than digits changes nothing.
or_digits_fuel : (fuel more x y : ℕ) → x ≤ fuel → x ≤ more → or_digits fuel x y ≡ or_digits more x y
or_digits_fuel zero (suc more) (suc x) y p q = absurd (omega arith)
or_digits_fuel (suc fuel) zero (suc x) y p q = absurd (omega arith)
or_digits_fuel (suc fuel) (suc more) (suc x) y p q =
    omega (arith, or_digits_fuel fuel more (suc x / 2) (y / 2) (omega arith) (omega arith))
or_digits_fuel zero zero x y p q = refl
or_digits_fuel zero (suc more) zero y p q = refl
or_digits_fuel (suc fuel) zero zero y p q = refl
or_digits_fuel (suc fuel) (suc more) zero y p q = refl

zero-bit_or : (b : ℕ) → bit_or 0 b ≡ b
zero-bit_or b = bit_or-bitwise 0 b

pub bit_or_step : (a b : ℕ) → bit_or a b ≡ bit_or (a / 2) (b / 2) * 2 + max (a % 2) (b % 2)
bit_or_step zero b = omega (arith, zero-bit_or b, zero-bit_or (b / 2))
bit_or_step (suc a) b = omega (
  arith,
  bit_or-bitwise (suc a) b,
  bit_or-bitwise (suc a / 2) (b / 2),
  or_digits_fuel a (suc a / 2) (suc a / 2) (b / 2) (omega arith) (omega arith),
)

half_double : (h : ℕ) → 2 * h / 2 ≡ h
half_double h = omega arith

bit_or-even : (lo h : ℕ) → bit_or lo (2 * h) ≡ 2 * bit_or (lo / 2) h + lo % 2
bit_or-even lo h = omega (arith, rw half_double at (bit_or_step lo (2 * h)))

pow_double : (k hi : ℕ) → hi * 2 ^ suc k ≡ 2 * (hi * 2 ^ k)
pow_double k hi = omega (arith, ap (λ (t : ℕ). hi * t) (pow-suc 2 k))

-- `lo | hi << k` is a sum when `lo` has at most k digits.
pub bit_or_disjoint : (k lo hi : ℕ) → lo < 2 ^ k → bit_or lo (hi * 2 ^ k) ≡ lo + hi * 2 ^ k
bit_or_disjoint zero lo hi h = omega (arith, no_digits lo hi h)
  where
    no_digits : (lo hi : ℕ) → lo < 1 → bit_or lo (hi * 1) ≡ lo + hi * 1
    no_digits zero hi h = omega (arith, zero-bit_or (hi * 1))
    no_digits (suc lo) hi h = absurd (omega arith)
bit_or_disjoint (suc k) lo hi h = rw pow_double (
    omega (
      arith,
      bit_or-even lo (hi * 2 ^ k),
      bit_or_disjoint k (lo / 2) hi (omega (arith, pow-suc 2 k)),
    ))
