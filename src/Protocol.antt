-- ===== src/Protocol.antt =====
-- python/src/cekat_event_sdk/protocol.py: decoding of a response.
pub mod Envelopes
pub mod Decoding
pub mod Failures
use cekat_event_sdk.Base.{
  ℕ, suc, ◌+◌, ◌-◌, Text, Bool, true, false, ◌&&◌, ◌||◌, not, Option, none, some, List, [], ◌∷◌,
  ◌++◌, ltb, leb, ◌==◌, if◌then◌else◌, codes, length, take, text_eq, lower, strip, is_empty,
  nonempty, decimal, map,
}
use cekat_event_sdk.Errors.{
  Cause, Error, HttpKind, authentication, event_definition_not_found, api, HttpError,
  ResponseDecodeError, Result, ok, raise, ◌>>=◌,
}
use cekat_event_sdk.Models.{Acknowledgement}
use cekat_event_sdk.Responses.{max_response_bytes, ReceivedResponse}
use cekat_event_sdk.Json.{Json, bool, str, arr, obj, Items, nil, cons, Members, get}

-- _STATUS_TEXT
abbrev pub status_texts : List (ℕ × Text)
status_texts =
    (400, codes "Bad Request")
    ∷ (401, codes "Unauthorized")
    ∷ (403, codes "Forbidden")
    ∷ (404, codes "Not Found")
    ∷ (405, codes "Method Not Allowed")
    ∷ (408, codes "Request Timeout")
    ∷ (409, codes "Conflict")
    ∷ (413, codes "Content Too Large")
    ∷ (415, codes "Unsupported Media Type")
    ∷ (418, codes "I'm a teapot")
    ∷ (422, codes "Unprocessable Content")
    ∷ (429, codes "Too Many Requests")
    ∷ (500, codes "Internal Server Error")
    ∷ (501, codes "Not Implemented")
    ∷ (502, codes "Bad Gateway")
    ∷ (503, codes "Service Unavailable")
    ∷ (504, codes "Gateway Timeout")
    ∷ []

abbrev text_or : Text → ℕ → List (ℕ × Text) → Text
text_or default n [] = default
text_or default n ((m, t) ∷ rest) = if m == n then t else text_or default n rest

unfoldable pub status_text : ℕ → Text
unfolding decimal
status_text status_code = text_or (codes "HTTP " ++ decimal status_code) status_code status_texts

-- What json.loads of the decoded body gives: a document, a UnicodeDecodeError or ValueError, or
-- the RecursionError that it raises for a body that is nested too deeply.
pub data Loaded : Type 0 where
  document : Json → Loaded
  malformed too_deep : Loaded

abbrev pub dict_get : Text → Json → Option Json
dict_get key (obj members) = get key members
dict_get key Json.null = none
dict_get key _ = none

-- A member that is a string; `none` if it is missing or something else.
abbrev as_str : Option Json → Option Text
as_str none = none
as_str (some (str t)) = some t
as_str (some _) = none

abbrev is_bool : Bool → Option Json → Bool
is_bool b none = false
is_bool true (some (bool c)) = c
is_bool false (some (bool c)) = not c
is_bool b (some _) = false

-- `"code" not in envelope or isinstance(envelope["code"], str)`, and then its value.
unfoldable pub code_field : Option Json → Option (Option Text)
code_field none = some none
code_field (some (str t)) = some (some t)
code_field (some _) = none

nonempty_str : Option Json → Option Text
nonempty_str o = elim (as_str o) [ none ↦ none | some t ↦ nonempty t ]

with_code : Text → Option (Option Text) → Option (Text × Option Text)
with_code error none = none
with_code error (some code) = some (error, code)

with_error : Option Text → Json → Option (Text × Option Text)
unfolding with_code code_field
with_error none j = none
with_error (some error) j = with_code error (code_field (dict_get (codes "code") j))

-- The message and the code of an error envelope.
unfoldable pub error_fields : Json → Option (Text × Option Text)
unfolding nonempty_str with_error get
error_fields envelope =
    if is_bool false (dict_get (codes "success") envelope)
    then with_error (nonempty_str (dict_get (codes "error") envelope)) envelope
    else none

unfoldable pub error_kind : ℕ → HttpKind
error_kind status_code =
    if status_code == 401
    then authentication
    else if status_code == 404
    then event_definition_not_found
    else api

abbrev or_fallback : Option Text → Text → Text
or_fallback none t = t
or_fallback (some s) _ = s

fields_or_fallback : Option (Text × Option Text) → ReceivedResponse → Text × Option Text
fields_or_fallback none r =
    (or_fallback (nonempty (strip r.reason_phrase)) (status_text r.status_code), none)
fields_or_fallback (some f) r = f

unfoldable pub http_error : Option (Text × Option Text) → ReceivedResponse → ℕ → Error
unfolding fields_or_fallback error_kind
http_error found r attempts =
    let (message, code) = fields_or_fallback found r in
    Error.http (record {
      kind = error_kind r.status_code;
      message = message;
      status_code = r.status_code;
      code = code;
      raw_body = r.body;
      attempts = attempts;
    })

unfoldable pub decode_error : Text → Option Cause → ReceivedResponse → ℕ → Error
decode_error message cause r attempts =
    Error.response_decode
      (record { message = message; raw_body = r.body; attempts = attempts; cause = cause })

-- `isinstance(properties, list) and all(isinstance(item, str) …)`, and then the tuple of the items.
unfoldable pub all_str : Items → Option (List Text)
all_str nil = some []
all_str (cons (str t) xs) = elim (all_str xs) [ none ↦ none | some ts ↦ some (t ∷ ts) ]
all_str (cons _ xs) = none

unfoldable pub str_list : Option Json → Option (List Text)
unfolding all_str
str_list (some (arr xs)) = all_str xs
str_list none = none
str_list (some _) = none

abbrev pub sub : Option Json → Text → Option Json
sub none key = none
sub (some j) key = dict_get key j

acknowledge : List ℕ → Option Text → Option Text → Option (List Text) → Option Acknowledgement
acknowledge body (some message) (some event_key) (some properties) = some (record {
  success = true;
  message = message;
  event_key = event_key;
  validated_properties = properties;
  raw_body = body;
})
acknowledge body none event_key properties = none
acknowledge body (some message) none properties = none
acknowledge body (some message) (some event_key) none = none

-- The success envelope of a 200 response.
unfoldable pub success_fields : List ℕ → Json → Option Acknowledgement
unfolding nonempty_str str_list acknowledge get
success_fields body envelope =
    let inner = dict_get (codes "data") envelope in
    if is_bool true (dict_get (codes "success") envelope)
      && is_bool true (sub inner (codes "success"))
    then acknowledge body (nonempty_str (sub inner (codes "message")))
        (nonempty_str (sub inner (codes "event_key")))
        (str_list (sub inner (codes "validated_properties")))
    else none

abbrev accept : Option Acknowledgement → ReceivedResponse → ℕ → Result Acknowledgement
accept (some a) r attempts = ok a
accept none r attempts =
    raise (decode_error (codes "response body is not a valid success envelope") none r attempts)

module _ (loads : List ℕ → Loaded) where
  -- _acknowledgement, below its first two tests.
  envelope_acknowledgement : Loaded → ReceivedResponse → ℕ → Result Acknowledgement
  envelope_acknowledgement too_deep r attempts = raise (Error.foreign (codes "RecursionError"))
  envelope_acknowledgement malformed r attempts = accept none r attempts
  envelope_acknowledgement (document envelope) r attempts =
      accept (success_fields r.body envelope) r attempts

  unread_acknowledgement : Option Cause → ReceivedResponse → ℕ → Result Acknowledgement
  unfolding envelope_acknowledgement decimal
  unread_acknowledgement (some cause) r attempts =
      raise (decode_error (codes "response body could not be read") (some cause) r attempts)
  unread_acknowledgement none r attempts =
      if r.body_truncated
      then raise (
          decode_error
            (codes "response body exceeds " ++ (decimal max_response_bytes ++ codes " bytes")) none
            r attempts)
      else envelope_acknowledgement (loads r.body) r attempts

  unfoldable pub acknowledgement : ReceivedResponse → ℕ → Result Acknowledgement
  unfolding unread_acknowledgement
  acknowledgement r attempts = unread_acknowledgement r.body_read_failure r attempts

  refused : Loaded → ReceivedResponse → ℕ → Result Acknowledgement
  refused too_deep r attempts = raise (Error.foreign (codes "RecursionError"))
  refused malformed r attempts = raise (http_error none r attempts)
  refused (document envelope) r attempts = raise (http_error (error_fields envelope) r attempts)

  unfoldable pub decode : ReceivedResponse → ℕ → Result Acknowledgement
  unfolding acknowledgement refused
  decode r attempts =
      if r.status_code == 200 then acknowledgement r attempts else refused (loads r.body) r attempts
