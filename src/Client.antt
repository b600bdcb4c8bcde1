-- ===== src/Client.antt =====
-- python/src/cekat_event_sdk/client.py and async_client.py: one attempt and the retry loop of both
-- clients. What the network does is an argument: for each attempt an exchange, with the times, in
-- microseconds from the start of the attempt, at which its parts come in.
pub mod Attempts
pub mod Bodies
pub mod Runs
pub mod Outcomes
pub mod Sequences
pub mod Tracks
pub mod Waits
pub mod Delivers
use cekat_event_sdk.Base.{
  ℕ, zero, suc, ◌+◌, ◌*◌, ◌^◌, Float, Text, Bool, true, false, ◌&&◌, not, Option, none, some, List,
  [], ◌∷◌, ◌++◌, ltb, leb, if◌then◌else◌, codes,
}
use cekat_event_sdk.Errors.{Cause, read_timeout, header_timeout, Error, Result, ok, raise, ◌>>=◌}
use cekat_event_sdk.Objects.{Moment}
use cekat_event_sdk.Retry.{is_retryable_status, retry_delay}
use cekat_event_sdk.Models.{Acknowledgement}
use cekat_event_sdk.Responses.{ReceivedResponse, Buffer, append, header}
use cekat_event_sdk.Protocol.{Loaded, decode}
use cekat_event_sdk.Shared.{Settings, received, transport_error}

pub record Chunk : Type 0 where
  pub bytes : List ℕ
  pub at : ℕ

-- How the stream of a body ends: normally, by an httpx.HTTPError, or by another exception.
pub data Ending : Type 0 where
  complete : Ending
  broken : Cause → Ending
  crashed : (type_name : Text) → Ending

pub record Answer : Type 0 where
  pub status_code : ℕ
  pub reason_phrase : Text
  pub headers : List (Text × Text)
  pub answered_at : ℕ
  pub chunks : List Chunk
  pub ending : Ending
  pub ended_at : ℕ

-- What `build_request` and `send` do: one of them raises an httpx.TransportError or another
-- exception, or they give a response. Closing that response raises nothing.
pub data Exchange : Type 0 where
  unanswered : Cause → (at : ℕ) → Exchange
  failing : (type_name : Text) → (at : ℕ) → Exchange
  answering : Answer → Exchange

-- `request` is the call of `build_request` with these arguments, and of `send` on the request that
-- it builds; if `build_request` raises, it is the first call alone.
pub data Effect : Type 0 where
  request : (url : Text) (headers : List (Text × Text)) (body : List ℕ) → Effect
  opened closed : Effect
  sleep : (microseconds : ℕ) → Effect

pub data Attempted : Type 0 where
  no_response : Cause → Attempted
  exception : (type_name : Text) → Attempted
  response : ReceivedResponse → Attempted

-- Is the time, in microseconds, later than this number of seconds?
abbrev pub later_than : ℕ → Float → Bool
later_than t Float.nan = false
later_than t (Float.infinite negative) = negative
later_than t (Float.finite true n k) = true
later_than t (Float.finite false n k) = ltb (n * 1000000) (t * 2 ^ k)

-- What the loop over the chunks leaves: the buffer and the failure, or an exception that is raised.
pub data Body : Type 0 where
  read : Buffer → Option Cause → Body
  raised : (type_name : Text) → Body

abbrev pub at_end : Ending → Buffer → Body
at_end complete buffer = read buffer none
at_end (broken cause) buffer = read buffer (some cause)
at_end (crashed name) buffer = raised name

-- `for chunk in response.iter_bytes()` of Client._attempt.
unfoldable pub read_body : Float → Ending → Buffer → List Chunk → Body
read_body timeout ending buffer [] = at_end ending buffer
read_body timeout ending buffer (chunk ∷ chunks) =
    let (grown, room) = append buffer chunk.bytes in
    let rest = read_body timeout ending grown chunks in
    if not room
    then read grown none
    else if later_than chunk.at timeout
    then read grown (some (read_timeout timeout))
    else rest

abbrev pub finish_attempt : Answer → Body → Attempted
finish_attempt a (read buffer failure) =
    response (received a.status_code a.reason_phrase a.headers buffer failure)
finish_attempt a (raised name) = exception name

-- Client._attempt
unfoldable pub attempt : Settings → List ℕ → Exchange → Attempted × List Effect
unfolding read_body
attempt s body (unanswered cause at) = (no_response cause, request s.url s.headers body ∷ [])
attempt s body (failing name at) = (exception name, request s.url s.headers body ∷ [])
attempt s body (answering a) = (
  finish_attempt a (read_body s.timeout a.ending [] a.chunks),
  request s.url s.headers body ∷ opened ∷ closed ∷ [],
)

-- `async for chunk in response.aiter_bytes()` under the cancel scope: a wait past the deadline is
-- cancelled, and the failure is then the time-out.
unfoldable pub async_read_body : Float → Ending → ℕ → Buffer → List Chunk → Body
async_read_body timeout ending ended_at buffer [] =
    if later_than ended_at timeout
    then read buffer (some (read_timeout timeout))
    else at_end ending buffer
async_read_body timeout ending ended_at buffer (chunk ∷ chunks) =
    let (grown, room) = append buffer chunk.bytes in
    let rest = async_read_body timeout ending ended_at grown chunks in
    if later_than chunk.at timeout
    then read buffer (some (read_timeout timeout))
    else if not room
    then read grown none
    else rest

-- AsyncClient._attempt. A send that is cancelled has opened no response.
unfoldable pub async_attempt : Settings → List ℕ → Exchange → Attempted × List Effect
unfolding async_read_body
async_attempt s body (unanswered cause at) = (
  no_response (if later_than at s.timeout then header_timeout s.timeout else cause),
  request s.url s.headers body ∷ [],
)
async_attempt s body (failing name at) = (
  if later_than at s.timeout then no_response (header_timeout s.timeout) else exception name,
  request s.url s.headers body ∷ [],
)
async_attempt s body (answering a) =
    if later_than a.answered_at s.timeout
    then (no_response (header_timeout s.timeout), request s.url s.headers body ∷ [])
    else (
      finish_attempt a (async_read_body s.timeout a.ending a.ended_at [] a.chunks),
      request s.url s.headers body ∷ opened ∷ closed ∷ [],
    )

-- What a client meets: the exchange of each attempt, the clock and the random numbers at each retry.
pub record Surroundings : Type 0 where
  pub exchange : ℕ → Exchange
  pub now : ℕ → Moment
  pub uniform : ℕ → ℕ → ℕ → ℕ

-- One round of the loop ends it, or sleeps and goes on.
pub data Decision : Type 0 where
  finish : Result Acknowledgement → Decision
  again : (delay : ℕ) → Decision

abbrev pub or_no_delay : Option ℕ → ℕ
or_no_delay none = 0
or_no_delay (some d) = d

-- The library functions that the loop is built on.
pub record Libraries : Type 0 where
  pub unicode_digit : ℕ → Bool
  pub parsedate_to_datetime : Text → Option Moment
  pub loads : List ℕ → Loaded

abbrev pub Ran : Type 0
Ran = List Effect × Option (Result Acknowledgement)

-- Leave the loop, or sleep and go on with the rounds that follow.
abbrev pub conclude : Decision → List Effect → Ran → Ran
conclude (finish result) effects rest = (effects, some result)
conclude (again delay) effects rest = (effects ++ sleep delay ∷ rest.0, rest.1)

module _ (lib : Libraries) (s : Settings) (env : Surroundings) where
  unfoldable pub delay_for : ℕ → Option Text → Option ℕ
  delay_for attempts retry_after =
      retry_delay lib.unicode_digit lib.parsedate_to_datetime attempts retry_after
        (env.uniform attempts) (env.now attempts)

  -- The body of `while True` in `_track`, for the attempt of that number.
  unfoldable pub decide : ℕ → Attempted → Decision
  unfolding delay_for
  decide attempts (no_response cause) =
      if ltb s.retry_count attempts
      then finish (raise (transport_error cause attempts))
      else again (or_no_delay (delay_for attempts none))
  decide attempts (exception name) = finish (raise (Error.foreign name))
  decide attempts (response r) =
      if is_retryable_status r.status_code && leb attempts s.retry_count
      then elim (delay_for attempts (header r (codes "Retry-After"))) [
        | some delay ↦ again delay
        | none ↦ finish (decode lib.loads r attempts)
      ]
      else finish (decode lib.loads r attempts)

  -- The loop, over either client's attempt, with fuel; `none` means that the fuel ran out.
  unfoldable pub loop : (Exchange → Attempted × List Effect) → ℕ → ℕ → Ran
  loop attempt_once zero attempts = ([], none)
  loop attempt_once (suc fuel) attempts =
      let rest = loop attempt_once fuel (suc attempts) in
      let once = attempt_once (env.exchange (suc attempts)) in
      conclude (decide (suc attempts) once.0) once.1 rest

-- The two clients: Client and AsyncClient.
pub data Mode : Type 0 where
  blocking asynchronous : Mode

abbrev pub attempt_of : Mode → Settings → List ℕ → Exchange → Attempted × List Effect
attempt_of blocking = attempt
attempt_of asynchronous = async_attempt

-- `_track` of either client, from the body that build_body gives or the error that it raises.
unfoldable pub track : Libraries → Settings → Surroundings → Mode → Result (List ℕ) → Ran
unfolding loop
track lib s env mode (raise e) = ([], some (raise e))
track lib s env mode (ok body) = loop lib s env (attempt_of mode s body) (s.retry_count + 1) 0
