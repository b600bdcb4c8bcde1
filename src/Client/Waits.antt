-- ===== src/Client/Waits.antt =====
-- How long `_track` sleeps between attempts, and when it stops retrying.
use mathlib.Core.List.{append-nil}
use cekat_event_sdk.Base.{
  ℕ, suc, ◌≤◌, ◌<◌, ◌≡◌, ◌⊎◌, inl, inr, Text, true, Option, none, some, List, [], ◌∷◌, ◌++◌, codes,
  arith, Bool-cases, Option-cases,
}
use cekat_event_sdk.Errors.{Cause, Result, ok}
use cekat_event_sdk.Retry.{
  is_retryable_status, parse_retry_after, over_cap, or_zero, maximum_retry_after, Seconds,
}
use cekat_event_sdk.Retry.Delays.{IsUniform, retry_delay_bounds, retry_delay-over_cap}
use cekat_event_sdk.Models.{Acknowledgement}
use cekat_event_sdk.Responses.{ReceivedResponse, header}
use cekat_event_sdk.Shared.{Settings}
use cekat_event_sdk.Client.{
  Exchange, Effect, request, opened, closed, sleep, Attempted, no_response, exception, response,
  Surroundings, finish, again, or_no_delay, Libraries, delay_for, decide, Mode, attempt_of, track,
  attempt, async_attempt, unanswered, failing, answering, later_than,
}
use cekat_event_sdk.Client.Attempts.{request_count}
use cekat_event_sdk.Client.Runs.{Runs, last, retry, made, effects_of}
use cekat_event_sdk.Client.Sequences.{Runs-last}
use cekat_event_sdk.Client.Tracks.{its_run}

-- No pause is longer than five seconds.
abbrev pub IsShort : Effect → Type 0
IsShort (sleep d) = d ≤ maximum_retry_after
IsShort (request u h b) = Unit
IsShort opened = Unit
IsShort closed = Unit

module _ (lib : Libraries) (s : Settings) (env : Surroundings) where
  -- What Retry-After asks for in an attempt's response.
  abbrev pub requested : ℕ → Attempted → Option Seconds
  requested n (no_response cause) = none
  requested n (exception name) = none
  requested n (response r) =
      parse_retry_after lib.unicode_digit lib.parsedate_to_datetime (header r (codes "Retry-After"))
        (env.now n)

  -- The pauses of a run: after attempt `k` a pause at least as long as its response asks for, and
  -- at most five seconds.
  abbrev pub Pauses : (made : ℕ → Attempted) → ℕ → List Effect → Type 0
  Pauses made k [] = Unit
  Pauses made k (sleep d ∷ es) =
      ((or_zero (requested k (made k)) ≤ d) × (d ≤ maximum_retry_after)) × Pauses made k es
  Pauses made k (request u h b ∷ es) = Pauses made (suc k) es
  Pauses made k (opened ∷ es) = Pauses made k es
  Pauses made k (closed ∷ es) = Pauses made k es

  finish-response :
      (n : ℕ) (r : ReceivedResponse) (x : Result Acknowledgement)
      → decide lib s env n (response r) ≡ finish x
      → is_retryable_status r.status_code ≡ true
      → (s.retry_count < n) ⊎ (delay_for lib s env n (header r (codes "Retry-After")) ≡ none)
  unfolding decide
  finish-response n r x e h = ground arith

  over-requested :
      (n : ℕ) (r : ReceivedResponse)
      → delay_for lib s env n (header r (codes "Retry-After")) ≡ none
      → over_cap (requested n (response r)) ≡ true
  unfolding delay_for
  over-requested n r e =
      (retry_delay-over_cap lib.unicode_digit lib.parsedate_to_datetime (env.uniform n) (env.now n)
          n (header r (codes "Retry-After"))).0
        e

  gives_up :
      (n : ℕ) (r : ReceivedResponse) (x : Result Acknowledgement)
      → decide lib s env n (response r) ≡ finish x
      → is_retryable_status r.status_code ≡ true
      → (s.retry_count < n) ⊎ (over_cap (requested n (response r)) ≡ true)
  gives_up n r x e h = elim (finish-response n r x e h) [
    | inl used ↦ inl used
    | inr no_delay ↦ inr (over-requested n r no_delay)
  ]

  -- A response with a status to retry is the last one only where the retries are used up, or where
  -- it asks for more than five seconds.
  pub track-gives_up :
      (mode : Mode) (body : List ℕ) (es : List Effect) (x : Result Acknowledgement)
      (r : ReceivedResponse)
      → track lib s env mode (ok body) ≡ (es, some x)
      → made lib s env (attempt_of mode s body) (request_count es) ≡ response r
      → is_retryable_status r.status_code ≡ true
      → (s.retry_count < request_count es)
        ⊎ (over_cap (requested (request_count es) (response r)) ≡ true)
  track-gives_up mode body es x r ends e h =
      gives_up (request_count es) r x
        (rw e at (Runs-last lib s env mode body (its_run lib s env mode body es x ends))) h

module _ (lib : Libraries) (s : Settings) (env : Surroundings)
    (uniform : (n : ℕ) → IsUniform (env.uniform n)) where
  delay_for_bounds :
      (n : ℕ) (h : Option Text) (d : ℕ)
      → delay_for lib s env n h ≡ some d
      → (or_zero (parse_retry_after lib.unicode_digit lib.parsedate_to_datetime h (env.now n)) ≤ d)
        × (d ≤ maximum_retry_after)
  unfolding delay_for
  delay_for_bounds n h d e =
      retry_delay_bounds lib.unicode_digit lib.parsedate_to_datetime (env.uniform n) (env.now n)
        (uniform n) n h d e

  or_no_delay-le :
      (n : ℕ) (h : Option Text) → or_no_delay (delay_for lib s env n h) ≤ maximum_retry_after
  or_no_delay-le n h = elim (Option-cases (delay_for lib s env n h)) [
    | inl no_delay ↦ rw no_delay (omega arith)
    | inr (d, e) ↦ rw e (delay_for_bounds n h d e).1
  ]

  again-no_response :
      (n : ℕ) (c : Cause) (d : ℕ)
      → decide lib s env n (no_response c) ≡ again d
      → or_no_delay (delay_for lib s env n none) ≡ d
  unfolding decide
  again-no_response n c d e = ground arith

  again-response :
      (n : ℕ) (r : ReceivedResponse) (d : ℕ)
      → decide lib s env n (response r) ≡ again d
      → delay_for lib s env n (header r (codes "Retry-After")) ≡ some d
  unfolding decide
  again-response n r d e = ground arith

  -- A decision to go on waits as long as the response asks, and at most five seconds.
  decide-again_bounds :
      (n : ℕ) (a : Attempted) (d : ℕ)
      → decide lib s env n a ≡ again d
      → (or_zero (requested lib s env n a) ≤ d) × (d ≤ maximum_retry_after)
  decide-again_bounds n (no_response cause) d e =
      (unfold or_zero in omega arith, rw (again-no_response n cause d e) at (or_no_delay-le n none))
  decide-again_bounds n (exception name) d e = absurd (unfold decide in cc)
  decide-again_bounds n (response r) d e =
      delay_for_bounds n (header r (codes "Retry-After")) d (again-response n r d e)

  -- The effects of one attempt send one request and make no pause.
  abbrev IsSilent : List Effect → Type 0
  IsSilent es =
      (made : ℕ → Attempted) (k : ℕ) (rest : List Effect)
      → Pauses lib s env made (suc k) rest
      → Pauses lib s env made k (es ++ rest)

  attempt-IsSilent : (body : List ℕ) (x : Exchange) → IsSilent (attempt s body x).1
  unfolding attempt
  attempt-IsSilent body (unanswered c at) f k rest h = h
  attempt-IsSilent body (failing name at) f k rest h = h
  attempt-IsSilent body (answering a) f k rest h = h

  async_attempt-IsSilent : (body : List ℕ) (x : Exchange) → IsSilent (async_attempt s body x).1
  unfolding async_attempt
  async_attempt-IsSilent body (unanswered c at) f k rest h = h
  async_attempt-IsSilent body (failing name at) f k rest h = h
  async_attempt-IsSilent body (answering a) f k rest h =
      elim (Bool-cases (later_than a.answered_at s.timeout)) [
        | inl late ↦ simp late h
        | inr early ↦ simp early h
      ]

  attempt_of-IsSilent :
      (mode : Mode) (body : List ℕ) (x : Exchange) → IsSilent (attempt_of mode s body x).1
  attempt_of-IsSilent Mode.blocking = attempt-IsSilent
  attempt_of-IsSilent Mode.asynchronous = async_attempt-IsSilent

  module _ (mode : Mode) (body : List ℕ) where
    abbrev pub attempts_made : ℕ → Attempted
    attempts_made = made lib s env (attempt_of mode s body)

    Runs-Pauses :
        {k n : ℕ} {es : List Effect} {x : Result Acknowledgement}
        → Runs lib s env (attempt_of mode s body) k es x n
        → Pauses lib s env attempts_made k es
    Runs-Pauses {k} (last e) =
        let only = effects_of lib s env (attempt_of mode s body) (suc k) in
        rw (append-nil only) at
          (attempt_of-IsSilent mode body (env.exchange (suc k)) attempts_made k [] tt)
    Runs-Pauses {k} (retry {d = d} {later = later} e run) =
        attempt_of-IsSilent mode body (env.exchange (suc k)) attempts_made k (sleep d ∷ later)
          (decide-again_bounds (suc k) (attempts_made (suc k)) d e, Runs-Pauses run)

    module _ (es : List Effect) (x : Result Acknowledgement)
        (ends : track lib s env mode (ok body) ≡ (es, some x)) where
      -- Every pause is at least as long as the Retry-After of the response before it asks for, and
      -- at most five seconds, if random.uniform stays between its bounds.
      pub track-Pauses : Pauses lib s env attempts_made 0 es
      track-Pauses = Runs-Pauses (its_run lib s env mode body es x ends)
