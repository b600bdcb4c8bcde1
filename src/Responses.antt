-- ===== src/Responses.antt =====
-- ReceivedResponse and BoundedBuffer of python/src/cekat_event_sdk/protocol.py: bounded capture of a
-- response body. Bytes are numbers.
pub mod Capture
use cekat_event_sdk.Base.{
  ℕ, suc, ◌+◌, ◌-◌, Text, Bool, true, false, ◌&&◌, ◌||◌, not, Option, none, some, List, [], ◌∷◌,
  ◌++◌, ltb, leb, ◌==◌, if◌then◌else◌, codes, length, take, text_eq, lower, strip, is_empty,
  nonempty, decimal, map,
}
use cekat_event_sdk.Errors.{Cause}

-- MAX_RESPONSE_BYTES
abbrev pub max_response_bytes : ℕ
max_response_bytes = 65536

pub record ReceivedResponse : Type 0 where
  pub status_code : ℕ
  pub reason_phrase : Text
  pub headers : List (Text × Text)
  pub body : List ℕ
  pub body_truncated : Bool
  pub observed_body_bytes : ℕ
  pub body_read_failure : Option Cause

unfoldable pub find_header : Text → List (Text × Text) → Option Text
find_header name [] = none
find_header name ((key, value) ∷ rest) =
    if text_eq (lower key) (lower name) then some value else find_header name rest

unfoldable pub header : ReceivedResponse → Text → Option Text
unfolding find_header
header r name = find_header name r.headers

-- BoundedBuffer: its one field is the bytes that it keeps.
abbrev pub Buffer : Type 0
Buffer = List ℕ

unfoldable pub append : Buffer → List ℕ → Buffer × Bool
append buffer chunk =
    let room = max_response_bytes + 1 - length buffer in
    let grown = if ltb 0 room then buffer ++ take room chunk else buffer in
    (grown, leb (length grown) max_response_bytes)

unfoldable pub response : Buffer → ℕ → Text → List (Text × Text) → Option Cause → ReceivedResponse
response buffer status_code reason_phrase headers failure =
    let truncated = ltb max_response_bytes (length buffer) in
    record {
      status_code = status_code;
      reason_phrase = reason_phrase;
      headers = headers;
      body = take max_response_bytes buffer;
      body_truncated = truncated;
      observed_body_bytes = length buffer;
      body_read_failure = if truncated then none else failure;
    }
