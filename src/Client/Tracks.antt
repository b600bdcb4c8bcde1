-- ===== src/Client/Tracks.antt =====
-- What `_track` of either client guarantees of its attempts, its requests and its result.
use mathlib.Core.Path.{subst}
use cekat_event_sdk.Base.{
  ℕ, zero, suc, ◌+◌, ◌≤◌, ◌<◌, ◌≡◌, refl, ap, sym, ◌∙◌, false, some, List, arith, All,
}
use cekat_event_sdk.Errors.{Result, ok, raise}
use cekat_event_sdk.Models.{Acknowledgement}
use cekat_event_sdk.Shared.{Settings}
use cekat_event_sdk.Client.{
  Exchange, Effect, Attempted, Surroundings, Libraries, loop, Mode, blocking, asynchronous,
  attempt_of, track, Ran,
}
use cekat_event_sdk.Client.Attempts.{request_count, track_open, IsRequest, attempt-agree, IsInTime}
use cekat_event_sdk.Client.Runs.{Runs, made, loop-Runs}
use cekat_event_sdk.Client.Outcomes.{
  Reports, IsRetryable, is_unknown, has_no_response, decide-finish,
}
use cekat_event_sdk.Client.Sequences.{
  Runs-request_count, Runs-lt, Runs-le, Runs-last, Runs-requests, Runs-closes, Runs-IsRetryable,
}

same_result : (a b : Result Acknowledgement) → some a ≡ some b → a ≡ b
same_result a b e = cc

module _ (lib : Libraries) (s : Settings) (env : Surroundings) (mode : Mode) (body : List ℕ) where
  abbrev pub once : Exchange → Attempted × List Effect
  once = attempt_of mode s body

  run_of :
      (es : List Effect) × (x : Result Acknowledgement) × (n : ℕ) × (track lib s env mode (ok body)
        ≡ (es, some x))
      × Runs lib s env once 0 es x n
  unfolding track
  run_of = loop-Runs lib s env once (s.retry_count + 1) 0 (omega arith) (omega arith)

  -- The loop ends: there is a result, after at least one attempt and at most one more than the
  -- number of retries that the client allows.
  pub track_total :
      (es : List Effect) × (x : Result Acknowledgement) × (track lib s env mode (ok body)
        ≡ (es, some x))
      × (1 ≤ request_count es)
      × (request_count es ≤ s.retry_count + 1)
  track_total =
      let (es, x, n, same, run) = run_of in
      let counted = Runs-request_count lib s env mode body run in
      (
        es,
        x,
        same,
        omega (arith, counted, Runs-lt lib s env mode body run),
        omega (arith, counted, Runs-le lib s env mode body run (omega arith)),
      )

  module _ (es : List Effect) (x : Result Acknowledgement)
      (ends : track lib s env mode (ok body) ≡ (es, some x)) where
    pub its_run : Runs lib s env once 0 es x (request_count es)
    its_run =
        let (es', x', n, same, run) = run_of in
        let pair : ◌≡◌ {A = Ran} (es', some x') (es, some x) = sym same ∙ ends in
        let same_es : es' ≡ es = ap (λ (r : Ran). r.0) pair in
        let same_x : x' ≡ x = same_result x' x (ap (λ (r : Ran). r.1) pair) in
        let counted : n ≡ request_count es' =
          omega (arith, Runs-request_count lib s env mode body run) in
        rw (← same_es, ← same_x) (subst (λ m. Runs lib s env once 0 es' x' m) counted run)

    -- An error of the SDK reports as many attempts as requests were sent; and the result is the
    -- error whose outcome is unknown exactly when the last request had no response.
    pub track-Reports :
        Reports (request_count es) x
        × (is_unknown x ≡ has_no_response (made lib s env once (request_count es)))
    track-Reports =
        decide-finish lib s env (request_count es) (made lib s env once (request_count es)) x
          (Runs-last lib s env mode body its_run)

    -- Every attempt before the last one had no response, or a response with a status to retry.
    pub track-IsRetryable :
        (m : ℕ) → 0 < m → m < request_count es → IsRetryable (made lib s env once m)
    track-IsRetryable m = Runs-IsRetryable lib s env mode body its_run m

    -- All requests go to the client's URL with its headers and carry the one body, so also one
    -- event ID; and every response that is opened is closed before the next request or pause, and
    -- none is open at the end.
    pub track-requests : All (IsRequest s body) es × (track_open false es ≡ some false)
    track-requests =
        (Runs-requests lib s env mode body its_run, Runs-closes lib s env mode body its_run)

loop-agree :
    (lib : Libraries) (s : Settings) (env : Surroundings) (body : List ℕ)
    → ((n : ℕ) → IsInTime s.timeout (env.exchange n))
    → (fuel k : ℕ)
    → loop lib s env (attempt_of asynchronous s body) fuel k
      ≡ loop lib s env (attempt_of blocking s body) fuel k
unfolding loop
loop-agree lib s env body h zero k = refl
loop-agree lib s env body h (suc fuel) k = rw (
  loop-agree lib s env body h fuel (suc k),
  attempt-agree s body (env.exchange (suc k)) (h (suc k)),
)

-- If every exchange is in time, the two clients do the same and return or raise the same.
pub track-agree :
    (lib : Libraries) (s : Settings) (env : Surroundings) (body : Result (List ℕ))
    → ((n : ℕ) → IsInTime s.timeout (env.exchange n))
    → track lib s env asynchronous body ≡ track lib s env blocking body
unfolding track
track-agree lib s env (raise e) h = refl
track-agree lib s env (ok body) h = loop-agree lib s env body h (s.retry_count + 1) 0
