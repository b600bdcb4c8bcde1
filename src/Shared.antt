-- ===== src/Shared.antt =====
-- python/src/cekat_event_sdk/_shared.py: the settings of a client, and what both clients use.
-- `user_agent` is the SDK's and Python's version, which the installation fixes.
pub mod Creates
use cekat_event_sdk.Base.{
  ℕ, Float, Text, Bool, Option, List, [], ◌∷◌, ◌++◌, ◌==◌, codes, decimal, if◌then◌else◌,
}
use cekat_event_sdk.Errors.{Cause, type_name, Error, TransportError, Result, ok, ◌>>=◌}
use cekat_event_sdk.Objects.{Value}
use cekat_event_sdk.Responses.{Buffer, ReceivedResponse, response}
use cekat_event_sdk.Validation.Origin.{normalize_origin}
use cekat_event_sdk.Validation.Config.{
  validate_access_token, validate_timeout, validate_retry_count,
}

abbrev pub default_base_url : Text
default_base_url = codes "https://t.cekat.ai"

-- 3.0 seconds
abbrev pub default_timeout : Float
default_timeout = Float.finite Bool.false 3 0

abbrev pub default_retry_count : ℕ
default_retry_count = 2

abbrev pub ingest_path : Text
ingest_path = codes "/api/events/ingest"

pub record Settings : Type 0 where
  pub url : Text
  pub headers : List (Text × Text)
  pub timeout : Float
  pub retry_count : ℕ

abbrev pub request_headers : Text → Text → List (Text × Text)
request_headers user_agent token =
    (codes "Authorization", codes "Bearer " ++ token)
    ∷ (codes "Content-Type", codes "application/json")
    ∷ (codes "Accept", codes "application/json")
    ∷ (codes "User-Agent", user_agent)
    ∷ []

unfoldable pub create :
    (lower_any : Text → Text) (bracketed_netloc_ok nfkc_ok : Text → Bool) (user_agent : Text)
    (access_token base_url timeout retry_count : Value)
    → Result Settings
create lower_any bracketed_netloc_ok nfkc_ok user_agent access_token base_url timeout retry_count =
    do
      token ← validate_access_token access_token
      origin ← normalize_origin lower_any bracketed_netloc_ok nfkc_ok base_url
      seconds ← validate_timeout timeout
      retries ← validate_retry_count retry_count
      ok (record {
        url = origin ++ ingest_path;
        headers = request_headers user_agent token;
        timeout = seconds;
        retry_count = retries;
      })

-- received, for the parts of an httpx response.
unfoldable pub received : ℕ → Text → List (Text × Text) → Buffer → Option Cause → ReceivedResponse
received status_code reason_phrase headers buffer failure =
    response buffer status_code reason_phrase headers failure

unfoldable pub transport_error : Cause → ℕ → Error
unfolding decimal type_name
transport_error cause attempts =
    let noun = if attempts == 1 then codes "attempt" else codes "attempts" in
    Error.transport (record {
      message =
          codes "no response from Cekat after "
          ++ (decimal attempts
              ++ (codes " "
                  ++ (noun
                      ++ (codes " ("
                          ++ (type_name cause ++ codes "); the event may have been received")))));
      attempts = attempts;
      cause = cause;
    })
