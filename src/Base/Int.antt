-- ===== src/Base/Int.antt =====
-- Signed integers over the native numbers, under the library's names: a Go int that may be negative.
use Prim.Native.Nat.{ℕ, ◌-◌}
use honeytrap.Base.Tests.{ltb, if◌then◌else◌}

-- `negsuc n` is -(n + 1).
pub data ℤ : Type 0 where
  pos : ℕ → ℤ
  negsuc : ℕ → ℤ

-- The int16 with the given 16 bits.
abbrev pub signed16 : ℕ → ℤ
signed16 v = if ltb v 32768 then pos v else negsuc (65535 - v)
