-- ===== src/Tests/Clients.antt =====
-- Runs of a client: a server that is busy once and then accepts the event.
use mathlib.Core.Path.{subst}
use cekat_event_sdk.Base.{
  sym, ℤ, ℕ, zero, suc, ◌+◌, ◌≤◌, ◌≡◌, ◌⊎◌, refl, Float, true, false, none, some, List, [], ◌∷◌,
  codes, text_eq, between, if◌then◌else◌, All, arith, strip, lower, ◌<◌,
}
use cekat_event_sdk.Errors.{Result, ok}
use cekat_event_sdk.Objects.{Moment}
use cekat_event_sdk.Json.{Json, nil, cons, end, member}
use cekat_event_sdk.Retry.{retry_delay, is_retryable_status, over_cap, parse_retry_after}
use cekat_event_sdk.Retry.Delays.{IsUniform}
use cekat_event_sdk.Models.{Acknowledgement}
use cekat_event_sdk.Responses.{append, header, ReceivedResponse}
use cekat_event_sdk.Protocol.Decoding.{IsAccepted, decode-ok_iff}
use cekat_event_sdk.Protocol.{success_fields, Loaded, document, malformed, decode}
use cekat_event_sdk.Shared.{Settings, received}
use cekat_event_sdk.Client.{
  Chunk, complete, Answer, Exchange, answering, Effect, request, opened, closed, sleep,
  Surroundings, Libraries, blocking, asynchronous, track, decide, attempt, attempt_of, response,
}
use cekat_event_sdk.Client.Attempts.{request_count, track_open, IsRequest}
use cekat_event_sdk.Client.Runs.{made}
use cekat_event_sdk.Client.Outcomes.{Reports, IsRetryable, is_unknown, has_no_response}
use cekat_event_sdk.Client.Attempts.{IsInTime}
use cekat_event_sdk.Client.Bodies.{attempt-captures}
use cekat_event_sdk.Client.Delivers.{track-delivers, MayRetry}
use cekat_event_sdk.Client.Tracks.{
  track_total, track-Reports, track-IsRetryable, track-requests, track-agree,
}
use cekat_event_sdk.Client.Waits.{track-gives_up, track-Pauses, Pauses, attempts_made, requested}

abbrev pub envelope : Json
envelope = Json.obj (
    member (codes "success") (Json.bool true) (
      member (codes "data")
        (Json.obj (
          member (codes "success") (Json.bool true) (
            member (codes "message") (Json.str (codes "stored")) (
              member (codes "event_key") (Json.str (codes "user_login")) (
                member (codes "validated_properties")
                  (Json.arr (cons (Json.str (codes "plan")) nil)) end)))))
        end))

-- A loads that knows one document.
abbrev pub loads : List ℕ → Loaded
loads bytes = if text_eq bytes (codes "{}") then document envelope else malformed

abbrev pub lib : Libraries
lib = record {
  unicode_digit = λ c. between 48 57 c;
  parsedate_to_datetime = λ t. none;
  loads = loads;
}

abbrev pub s : Settings
s = record {
  url = codes "https://t.cekat.ai/api/events/ingest";
  headers = (codes "Authorization", codes "Bearer t") ∷ [];
  timeout = Float.finite false 3 0;
  retry_count = 1;
}

abbrev pub busy : Answer
busy = record {
  status_code = 503;
  reason_phrase = codes "";
  headers = (codes "Retry-After", codes "2") ∷ [];
  answered_at = 10;
  chunks = [];
  ending = complete;
  ended_at = 20;
}

abbrev pub chunks : List Chunk
chunks = record { bytes = codes "{"; at = 30 } ∷ record { bytes = codes "}"; at = 40 } ∷ []

abbrev pub accepted : Answer
accepted = record {
  status_code = 200;
  reason_phrase = codes "OK";
  headers = [];
  answered_at = 10;
  chunks = chunks;
  ending = complete;
  ended_at = 50;
}

abbrev pub exchange : ℕ → Exchange
exchange zero = answering busy
exchange (suc zero) = answering busy
exchange (suc (suc n)) = answering accepted

abbrev pub now : Moment
now = record { wall = 0; offset = some (ℤ.pos 0) }

abbrev pub env : Surroundings
env = record { exchange = exchange; now = λ n. now; uniform = λ n lo hi. hi }

abbrev pub body : List ℕ
body = codes "{\"event_key\":\"user_login\"}"

abbrev pub one_send : Effect
one_send = request s.url s.headers body

abbrev pub effects : List Effect
effects = one_send ∷ opened ∷ closed ∷ sleep 2000000 ∷ one_send ∷ opened ∷ closed ∷ []

abbrev pub result : Result Acknowledgement
result = ok (record {
  success = true;
  message = codes "stored";
  event_key = codes "user_login";
  validated_properties = codes "plan" ∷ [];
  raw_body = codes "{}";
})

track_once : track lib s env blocking (ok body) ≡ (effects, some result)
unfolding track attempt decide is_retryable_status received cekat_event_sdk.Responses.response
    retry_delay strip header lower append decode success_fields
track_once = refl

track_total_example :
    (es : List Effect) × (x : Result Acknowledgement) × (track lib s env blocking (ok body)
      ≡ (es, some x))
    × (1 ≤ request_count es)
    × (request_count es ≤ s.retry_count + 1)
track_total_example = track_total lib s env blocking body

track-Reports_example :
    Reports 2 result × (is_unknown result ≡ has_no_response (made lib s env (attempt s body) 2))
track-Reports_example = track-Reports lib s env blocking body effects result track_once

track-IsRetryable_example : IsRetryable (made lib s env (attempt s body) 1)
track-IsRetryable_example =
    track-IsRetryable lib s env blocking body effects result track_once 1 (omega arith)
      (omega arith)

track-requests_example : All (IsRequest s body) effects × (track_open false effects ≡ some false)
track-requests_example = track-requests lib s env blocking body effects result track_once

uniform-IsUniform : (n : ℕ) → IsUniform (env.uniform n)
uniform-IsUniform n lo hi h = (h, omega arith)

track-Pauses_example :
    Pauses lib s env (attempts_made lib s env uniform-IsUniform blocking body) 0 effects
track-Pauses_example =
    track-Pauses lib s env uniform-IsUniform blocking body effects result track_once

-- With no retries, the first response is the last one.
abbrev s_once : Settings
s_once = record s { retry_count = 0 }

abbrev busy_response : ReceivedResponse
busy_response = record {
  status_code = 503;
  reason_phrase = codes "";
  headers = (codes "Retry-After", codes "2") ∷ [];
  body = [];
  body_truncated = false;
  observed_body_bytes = 0;
  body_read_failure = none;
}

abbrev once_effects : List Effect
once_effects = one_send ∷ opened ∷ closed ∷ []

once_result : Result Acknowledgement
unfolding decode
once_result = decode loads busy_response 1

track_once_busy : track lib s_once env blocking (ok body) ≡ (once_effects, some once_result)
unfolding once_result track attempt decide is_retryable_status received
    cekat_event_sdk.Responses.response
track_once_busy = refl

made_busy : made lib s_once env (attempt_of blocking s_once body) 1 ≡ response busy_response
unfolding attempt received cekat_event_sdk.Responses.response
made_busy = refl

is_busy : is_retryable_status 503 ≡ true
unfolding is_retryable_status
is_busy = refl

track-gives_up_example :
    (0 < 1) ⊎ (over_cap (requested lib s_once env 1 (response busy_response)) ≡ true)
track-gives_up_example =
    track-gives_up lib s_once env blocking body once_effects once_result busy_response
      track_once_busy made_busy is_busy

exchange_InTime : (n : ℕ) → IsInTime s.timeout (env.exchange n)
exchange_InTime zero = (refl, tt, refl)
exchange_InTime (suc zero) = (refl, tt, refl)
exchange_InTime (suc (suc n)) = (refl, (refl, (refl, tt)), refl)

track-agree_example : track lib s env asynchronous (ok body) ≡ track lib s env blocking (ok body)
track-agree_example = track-agree lib s env (ok body) exchange_InTime

attempt-captures_example :
    (attempt_of asynchronous s body (answering accepted)).0
    ≡ response (record {
      status_code = 200;
      reason_phrase = codes "OK";
      headers = [];
      body = codes "{}";
      body_truncated = false;
      observed_body_bytes = 2;
      body_read_failure = none;
    })
attempt-captures_example =
    attempt-captures asynchronous s body accepted none refl (refl, (refl, (refl, tt)), refl)

abbrev accepted_response : ReceivedResponse
accepted_response = record {
  status_code = 200;
  reason_phrase = codes "OK";
  headers = [];
  body = codes "{}";
  body_truncated = false;
  observed_body_bytes = 2;
  body_read_failure = none;
}

abbrev stored : Acknowledgement
stored = record {
  success = true;
  message = codes "stored";
  event_key = codes "user_login";
  validated_properties = codes "plan" ∷ [];
  raw_body = codes "{}";
}

accepted_response-IsAccepted : IsAccepted loads accepted_response stored
unfolding decode success_fields
accepted_response-IsAccepted = (decode-ok_iff loads accepted_response 2 stored).0 refl

made_first : made lib s env (attempt_of blocking s body) 1 ≡ response busy_response
unfolding attempt received cekat_event_sdk.Responses.response
made_first = refl

made_second : made lib s env (attempt_of blocking s body) 2 ≡ response accepted_response
unfolding attempt received cekat_event_sdk.Responses.response append
made_second = refl

busy_MayRetry : MayRetry lib s env 1 (response busy_response)
unfolding is_retryable_status parse_retry_after strip header lower over_cap
busy_MayRetry = (refl, refl)

first_MayRetry :
    (m : ℕ) → 0 < m → m ≤ 1 → MayRetry lib s env m (made lib s env (attempt_of blocking s body) m)
first_MayRetry m p le =
    let same : 1 ≡ m = omega arith in
    subst (λ k. MayRetry lib s env k (made lib s env (attempt_of blocking s body) k)) same
      (subst (MayRetry lib s env 1) (sym made_first) busy_MayRetry)

track-delivers_example :
    (es : List Effect) × (track lib s env blocking (ok body) ≡ (es, some (ok stored)))
    × (request_count es ≡ 2)
track-delivers_example =
    track-delivers lib s env blocking body 1 accepted_response stored (omega arith) first_MayRetry
      made_second accepted_response-IsAccepted
