-- ===== src/Validation/Config.antt =====
-- The other checks of a client's configuration in python/src/cekat_event_sdk/validation.py.
pub mod Texts
use cekat_event_sdk.Base.{
  ℕ, zero, suc, ◌+◌, ◌*◌, ◌/◌, ◌%◌, ◌^◌, ℤ, pos, negsuc, magnitude, is_non_positive, Float,
  is_finite, float_non_positive, Text, Bool, true, false, ◌&&◌, ◌||◌, not, Option, none, some, ltb,
  leb, ◌==◌, if◌then◌else◌, codes, strip, is_empty,
}
use cekat_event_sdk.Errors.{Reason, Error, Result, ok, raise, ◌>>=◌}
use cekat_event_sdk.Objects.{Value, null, bool, str, int, float}

-- A text that is not blank: `isinstance(value, str) and value.strip()`.
unfoldable pub require_text : Reason → Value → Result Text
require_text reason (str t) = if is_empty (strip t) then raise (Error.validation reason) else ok t
require_text reason null = raise (Error.validation reason)
require_text reason _ = raise (Error.validation reason)

unfoldable pub validate_access_token : Value → Result Text
unfolding require_text
validate_access_token access_token = require_text Reason.access_token access_token

-- The number of bits to drop so that 53 are left.
excess_bits : ℕ → ℕ → ℕ
excess_bits zero n = 0
excess_bits (suc fuel) n =
    let more = excess_bits fuel (n / 2) in if ltb n (2 ^ 53) then 0 else suc more

-- float(n): the nearest double, ties to even; `none` is OverflowError. Dropping 972 bits is
-- enough, since what is left of a larger number does not fit a double.
unfoldable pub float_of_nat : ℕ → Option ℕ
unfolding excess_bits
float_of_nat n =
    let e = excess_bits 972 n in
    let q = n / 2 ^ e in
    let r = n % 2 ^ e in
    let up = ltb (2 ^ e) (2 * r) || 2 * r == 2 ^ e && q % 2 == 1 in
    let rounded = (if up then q + 1 else q) * 2 ^ e in
    if ltb rounded (2 ^ 1024) then some rounded else none

abbrev pub positive_or_refused : Bool → Float → Result Float
positive_or_refused refused f = if refused then raise (Error.validation Reason.timeout) else ok f

unfoldable pub validate_timeout : Value → Result Float
unfolding float_of_nat
validate_timeout (int z) = elim (float_of_nat (magnitude z)) [
  | none ↦ raise (Error.foreign (codes "OverflowError"))
  | some n ↦ positive_or_refused (is_non_positive z) (Float.finite false n 0)
]
validate_timeout (float f) = positive_or_refused (not (is_finite f) || float_non_positive f) f
validate_timeout (bool b) = raise (Error.validation Reason.timeout)
validate_timeout _ = raise (Error.validation Reason.timeout)

unfoldable pub validate_retry_count : Value → Result ℕ
validate_retry_count (int (pos n)) = ok n
validate_retry_count (int (negsuc n)) = raise (Error.validation Reason.retry_count)
validate_retry_count (bool b) = raise (Error.validation Reason.retry_count)
validate_retry_count _ = raise (Error.validation Reason.retry_count)
