-- ===== src/Shared/Creates.antt =====
-- What the settings of a client are made from.
use cekat_event_sdk.Base.{
  ℕ, ◌≡◌, ℤ, pos, magnitude, is_non_positive, Float, is_finite, float_non_positive, Text, Bool,
  true, false, some, ◌++◌, strip, is_empty,
}
use cekat_event_sdk.Objects.{Value}
use cekat_event_sdk.Validation.Origin.Accepted.{IsOriginOf}
use cekat_event_sdk.Validation.Config.{float_of_nat}
use cekat_event_sdk.Shared.{Settings, request_headers, ingest_path}

-- A time-out is a positive int that a double can hold, or a positive and finite float.
pub data IsTimeout : Value → Float → Type 0 where
  whole :
      {z : ℤ} {n : ℕ}
      → is_non_positive z ≡ false
      → float_of_nat (magnitude z) ≡ some n
      → IsTimeout (Value.int z) (Float.finite false n 0)
  fraction :
      {f : Float} → is_finite f ≡ true → float_non_positive f ≡ false → IsTimeout (Value.float f) f

-- The settings come from a token that is not blank, an origin, a time-out and a count.
pub record IsCreated (lower_any : Text → Text) (bracketed_netloc_ok nfkc_ok : Text → Bool)
    (user_agent : Text) (access_token base_url timeout retry_count : Value) (s : Settings)
    : Type 0 where
  pub token : Text
  pub origin : Text
  pub token_text : access_token ≡ Value.str token
  pub not_blank : is_empty (strip token) ≡ false
  pub has_headers : s.headers ≡ request_headers user_agent token
  pub has_origin : IsOriginOf lower_any base_url origin
  pub has_url : s.url ≡ origin ++ ingest_path
  pub has_timeout : IsTimeout timeout s.timeout
  pub has_retries : retry_count ≡ Value.int (pos s.retry_count)
