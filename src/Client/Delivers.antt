-- ===== src/Client/Delivers.antt =====
-- When `_track` delivers: as soon as one attempt that is still allowed is accepted.
use mathlib.Core.Path.{subst}
use cekat_event_sdk.Base.{
  ℕ, zero, suc, ◌+◌, ◌≤◌, ◌<◌, ◌≡◌, refl, ap, ◌∙◌, Text, true, false, Option, none, some, List, ◌∷◌,
  ◌++◌, codes, arith, Option-cases, inl, inr,
}
use cekat_event_sdk.Errors.{ok}
use cekat_event_sdk.Models.{Acknowledgement}
use cekat_event_sdk.Retry.{is_retryable_status, parse_retry_after, over_cap}
use cekat_event_sdk.Retry.Delays.{retry_delay-over_cap}
use cekat_event_sdk.Responses.{ReceivedResponse, header}
use cekat_event_sdk.Protocol.Decoding.{IsAccepted, decode-ok_iff}
use cekat_event_sdk.Shared.{Settings}
use cekat_event_sdk.Client.{
  Exchange, Effect, sleep, Attempted, no_response, exception, response, Surroundings, finish, again,
  or_no_delay, Libraries, delay_for, decide, loop, Mode, attempt_of, track,
}
use cekat_event_sdk.Client.Attempts.{request_count}
use cekat_event_sdk.Client.Runs.{Runs, last, retry, made, effects_of, loop-finish, loop-again}
use cekat_event_sdk.Client.Sequences.{Runs-request_count}

module _ (lib : Libraries) (s : Settings) (env : Surroundings) where
  -- A failed attempt that a retry may follow: it has no response, or one with a status to retry
  -- that asks for at most five seconds.
  abbrev pub MayRetry : ℕ → Attempted → Type 0
  MayRetry n (no_response cause) = Unit
  MayRetry n (exception name) = ⊥
  MayRetry n (response r) =
      (is_retryable_status r.status_code ≡ true)
      × (over_cap (
            parse_retry_after lib.unicode_digit lib.parsedate_to_datetime
              (header r (codes "Retry-After")) (env.now n))
          ≡ false)

  delay_for-some :
      (n : ℕ) (h : Option Text)
      → over_cap (parse_retry_after lib.unicode_digit lib.parsedate_to_datetime h (env.now n))
        ≡ false
      → (d : ℕ) × (delay_for lib s env n h ≡ some d)
  unfolding delay_for
  delay_for-some n h fits = elim (Option-cases (delay_for lib s env n h)) [
    | inl gone ↦
        let over =
          (retry_delay-over_cap lib.unicode_digit lib.parsedate_to_datetime (env.uniform n)
              (env.now n) n h).0
            gone in
        absurd (cc)
    | inr found ↦ found
  ]

  -- While retries are left, such an attempt is followed by another.
  MayRetry-again :
      (n : ℕ) (a : Attempted)
      → n ≤ s.retry_count
      → MayRetry n a
      → (d : ℕ) × (decide lib s env n a ≡ again d)
  unfolding decide
  MayRetry-again n (no_response cause) le m =
      (or_no_delay (delay_for lib s env n none), ground arith)
  MayRetry-again n (exception name) le m = absurd m
  MayRetry-again n (response r) le (status, fits) =
      let (d, e) = delay_for-some n (header r (codes "Retry-After")) fits in (d, ground arith)

  not_retried : is_retryable_status 200 ≡ false
  unfolding is_retryable_status
  not_retried = refl

  IsAccepted-finish :
      (n : ℕ) (r : ReceivedResponse) (a : Acknowledgement)
      → IsAccepted lib.loads r a
      → decide lib s env n (response r) ≡ finish (ok a)
  unfolding decide
  IsAccepted-finish n r a h =
      let decoded = (decode-ok_iff lib.loads r n a).1 h in
      let status : is_retryable_status r.status_code ≡ false =
        ap is_retryable_status h.status ∙ not_retried in
      rw (status, decoded)

  module _ (attempt_once : Exchange → Attempted × List Effect) (n : ℕ) (r : ReceivedResponse)
      (a : Acknowledgement) (left : n ≤ s.retry_count)
      (retried : (m : ℕ) → 0 < m → m ≤ n → MayRetry m (made lib s env attempt_once m))
      (answered : made lib s env attempt_once (suc n) ≡ response r)
      (accepted : IsAccepted lib.loads r a) where
    delivers_now :
        (fuel : ℕ)
        → (es : List Effect) × (loop lib s env attempt_once (suc fuel) n ≡ (es, some (ok a)))
          × Runs lib s env attempt_once n es (ok a) (suc n)
    delivers_now fuel =
        let e : decide lib s env (suc n) (made lib s env attempt_once (suc n)) ≡ finish (ok a) =
          ap (decide lib s env (suc n)) answered ∙ IsAccepted-finish (suc n) r a accepted in
        (
          effects_of lib s env attempt_once (suc n),
          loop-finish lib s env attempt_once fuel n (ok a) e,
          last e,
        )

    -- From `k` attempts made, with `rest` more that fail.
    loop-delivers :
        (rest k fuel : ℕ)
        → rest + k ≡ n
        → rest < fuel
        → (es : List Effect) × (loop lib s env attempt_once fuel k ≡ (es, some (ok a)))
          × Runs lib s env attempt_once k es (ok a) (suc n)
    loop-delivers rest k zero same f = absurd (omega arith)
    loop-delivers zero k (suc fuel) same f =
        let reached : n ≡ k = omega arith in
        subst
          (λ m.
            (es : List Effect) × (loop lib s env attempt_once (suc fuel) m ≡ (es, some (ok a)))
            × Runs lib s env attempt_once m es (ok a) (suc n))
          reached (delivers_now fuel)
    loop-delivers (suc rest) k (suc fuel) same f =
        let (d, e) =
          MayRetry-again (suc k) (made lib s env attempt_once (suc k)) (omega arith)
            (retried (suc k) (omega arith) (omega arith)) in
        let (es, ends, run) = loop-delivers rest (suc k) fuel (omega arith) (omega arith) in
        (
          effects_of lib s env attempt_once (suc k) ++ sleep d ∷ es,
          loop-again lib s env attempt_once fuel k d es (some (ok a)) e ends,
          retry e run,
        )

-- If an attempt that is still allowed is answered by an acknowledgement, and every attempt before it
-- has no response or one with a status to retry that asks for at most five seconds, the call
-- returns that acknowledgement, after that many requests.
pub track-delivers :
    (lib : Libraries) (s : Settings) (env : Surroundings) (mode : Mode) (body : List ℕ) (n : ℕ)
    (r : ReceivedResponse) (a : Acknowledgement)
    → n ≤ s.retry_count
    → ((m : ℕ) → 0 < m → m ≤ n → MayRetry lib s env m (made lib s env (attempt_of mode s body) m))
    → made lib s env (attempt_of mode s body) (suc n) ≡ response r
    → IsAccepted lib.loads r a
    → (es : List Effect) × (track lib s env mode (ok body) ≡ (es, some (ok a)))
      × (request_count es ≡ suc n)
unfolding track
track-delivers lib s env mode body n r a left retried answered accepted =
    let (es, ends, run) =
      loop-delivers lib s env (attempt_of mode s body) n r a left retried answered accepted n 0
        (s.retry_count + 1) (omega arith) (omega arith) in
    (es, ends, omega (arith, Runs-request_count lib s env mode body run))
