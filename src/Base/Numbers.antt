-- ===== src/Base/Numbers.antt =====
-- Python's `int` as an integer over the native numbers, and its `float` as an exact dyadic value.
use Prim.Native.Nat.{ℕ, suc, ◌*◌, ◌^◌, ◌%◌}
use mathlib.Core.Bool.{Bool, true, false, ◌||◌}
use cekat_event_sdk.Base.Tests.{ltb, ◌==◌}

-- `negsuc n` is -(n + 1).
pub data ℤ : Type 0 where
  pos : ℕ → ℤ
  negsuc : ℕ → ℤ

abbrev pub magnitude : ℤ → ℕ
magnitude (pos n) = n
magnitude (negsuc n) = suc n

-- `value < 0` and `value <= 0`.
abbrev pub is_negative : ℤ → Bool
is_negative (pos n) = false
is_negative (negsuc n) = true

abbrev pub is_non_positive : ℤ → Bool
is_non_positive (pos n) = n == 0
is_non_positive (negsuc n) = true

-- A finite double is ± num / 2 ^ shift.
pub data Float : Type 0 where
  nan : Float
  infinite : (negative : Bool) → Float
  finite : (negative : Bool) (num shift : ℕ) → Float

-- math.isfinite
abbrev pub is_finite : Float → Bool
is_finite nan = false
is_finite (infinite s) = false
is_finite (finite s n k) = true

-- float.is_integer
abbrev pub is_integer : Float → Bool
is_integer nan = false
is_integer (infinite s) = false
is_integer (finite s n k) = n % 2 ^ k == 0

-- abs(number) > bound
abbrev pub exceeds : Float → ℕ → Bool
exceeds nan b = false
exceeds (infinite s) b = true
exceeds (finite s n k) b = ltb (b * 2 ^ k) n

-- number <= 0
abbrev pub float_non_positive : Float → Bool
float_non_positive nan = false
float_non_positive (infinite s) = s
float_non_positive (finite s n k) = s || n == 0

abbrev pub pos_part : ℤ → ℕ
pos_part (pos n) = n
pos_part (negsuc n) = 0

abbrev pub neg_part : ℤ → ℕ
neg_part (pos n) = 0
neg_part (negsuc n) = suc n
