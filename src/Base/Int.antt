-- ===== src/Base/Int.antt =====
-- The integers that `i32` and `i64` values stand for, over the native numbers.
use Prim.Native.Nat.{ℕ, ◌-◌, ◌^◌}
use mathlib.Core.Bool.{Bool}
use scriptorium.Base.Tests.{ltb}

-- `negsuc n` is -(n + 1).
pub data ℤ : Type 0 where
  pos : ℕ → ℤ
  negsuc : ℕ → ℤ

-- Whether a value lies in the range of a signed integer of `w` bits.
abbrev pub fits_signed : ℕ → ℤ → Bool
fits_signed w (pos n) = ltb n (2 ^ (w - 1))
fits_signed w (negsuc n) = ltb n (2 ^ (w - 1))
