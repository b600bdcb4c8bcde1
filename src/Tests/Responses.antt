-- ===== src/Tests/Responses.antt =====
-- Responses and delays at concrete inputs.
use cekat_event_sdk.Base.{
  ℕ, ◌*◌, ◌≤◌, ◌≡◌, ◌↔◌, ◌^◌, min, refl, Text, Bool, true, false, Option, none, some, [], ◌∷◌,
  codes, between, arith, strip, decimal,
}
use cekat_event_sdk.Errors.{Error, ok, raise}
use cekat_event_sdk.Objects.{Moment}
use cekat_event_sdk.Retry.{
  finite, second, maximum_retry_after, jitter_upper_bound, parse_retry_after, or_zero, retry_delay,
}
use cekat_event_sdk.Retry.Delays.{
  IsUniform, jitter_upper_bound_lem, retry_delay_bounds, retry_delay-none_iff, IsTooLong,
}
use cekat_event_sdk.Retry.Digits.{parse_retry_after-decimal}
use cekat_event_sdk.Models.{Acknowledgement}
use cekat_event_sdk.Responses.{ReceivedResponse}
use cekat_event_sdk.Protocol.{decode, decode_error}
use cekat_event_sdk.Protocol.Decoding.{IsAccepted, decode-ok_iff}
use cekat_event_sdk.Protocol.Failures.{Explains, decode-raise}
use cekat_event_sdk.Tests.Clients.{loads, now}

abbrev accepted : ReceivedResponse
accepted = record {
  status_code = 200;
  reason_phrase = codes "OK";
  headers = [];
  body = codes "{}";
  body_truncated = false;
  observed_body_bytes = 2;
  body_read_failure = none;
}

abbrev acknowledged : Acknowledgement
acknowledged = record {
  success = true;
  message = codes "stored";
  event_key = codes "user_login";
  validated_properties = codes "plan" ∷ [];
  raw_body = codes "{}";
}

decode-ok_iff_example :
    (decode loads accepted 1 ≡ ok acknowledged) ↔ IsAccepted loads accepted acknowledged
decode-ok_iff_example = decode-ok_iff loads accepted 1 acknowledged

abbrev cut : ReceivedResponse
cut = record accepted { body_truncated = true }

abbrev cut_error : Error
cut_error = Error.response_decode (record {
  message = codes "response body exceeds 65536 bytes";
  raw_body = codes "{}";
  attempts = 2;
  cause = none;
})

decode-cut : decode loads cut 2 ≡ raise cut_error
unfolding decode decode_error
decode-cut = refl

decode-raise_example : Explains loads cut 2 cut_error
decode-raise_example = decode-raise loads cut 2 cut_error decode-cut

abbrev digit : ℕ → Bool
digit c = between 48 57 c

abbrev no_date : Text → Option Moment
no_date t = none

abbrev most : ℕ → ℕ → ℕ
most lo hi = hi

most-IsUniform : IsUniform most
most-IsUniform lo hi h = (h, omega arith)

asked : parse_retry_after digit no_date (some (codes "2")) now ≡ some (finite 2000000)
unfolding parse_retry_after strip
asked = refl

delayed : retry_delay digit no_date 1 (some (codes "2")) most now ≡ some 2000000
unfolding retry_delay strip
delayed = refl

retry_delay_bounds_example :
    (or_zero (parse_retry_after digit no_date (some (codes "2")) now) ≤ 2000000)
    × (2000000 ≤ maximum_retry_after)
retry_delay_bounds_example =
    retry_delay_bounds digit no_date most now most-IsUniform 1 (some (codes "2")) 2000000 delayed

retry_delay-none_iff_example :
    (retry_delay digit no_date 1 (some (codes "6")) most now ≡ none)
    ↔ IsTooLong (parse_retry_after digit no_date (some (codes "6")) now)
retry_delay-none_iff_example = retry_delay-none_iff digit no_date most now 1 (some (codes "6"))

jitter_upper_bound_lem_example : jitter_upper_bound 3 ≡ min (100000 * 2 ^ 2) second
jitter_upper_bound_lem_example = jitter_upper_bound_lem 2

abbrev padded : Text
padded = codes " 120 "

strip-padded : strip padded ≡ decimal 120
unfolding strip decimal
strip-padded = refl

parse_retry_after-decimal_example :
    parse_retry_after digit no_date (some padded) now ≡ some (finite (120 * second))
parse_retry_after-decimal_example =
    parse_retry_after-decimal digit no_date now padded 120 (omega arith) strip-padded
