-- ===== src/Client/Sequences.antt =====
-- What every run of the loop of `_track` does, attempt by attempt.
use mathlib.Core.List.{append-nil}
use cekat_event_sdk.Base.{
  ℕ, suc, ◌+◌, ◌≤◌, ◌<◌, ◌≡◌, ap, sym, ◌∙◌, false, some, List, [], ◌∷◌, ◌++◌, arith, inl, inr, ◌⊎◌,
  All, All-append,
}
use cekat_event_sdk.Errors.{Result}
use cekat_event_sdk.Models.{Acknowledgement}
use cekat_event_sdk.Shared.{Settings}
use cekat_event_sdk.Client.{
  Exchange, Effect, request, opened, closed, sleep, Attempted, Surroundings, finish, Libraries,
  decide, Mode, attempt_of,
}
use cekat_event_sdk.Client.Attempts.{request_count, track_open, IsRequest, attempt_of-IsOneAttempt}
use cekat_event_sdk.Client.Runs.{Runs, last, retry, made, effects_of, decide-again-le}
use cekat_event_sdk.Client.Outcomes.{IsRetryable, decide-again-IsRetryable}

request_count-append :
    (xs ys : List Effect) → request_count (xs ++ ys) ≡ request_count xs + request_count ys
request_count-append [] ys = omega arith
request_count-append (request u h b ∷ xs) ys = omega (arith, request_count-append xs ys)
request_count-append (opened ∷ xs) ys = request_count-append xs ys
request_count-append (closed ∷ xs) ys = request_count-append xs ys
request_count-append (sleep d ∷ xs) ys = request_count-append xs ys

module _ (lib : Libraries) (s : Settings) (env : Surroundings) (mode : Mode) (body : List ℕ) where
  abbrev pub once : Exchange → Attempted × List Effect
  once = attempt_of mode s body

  pub Runs-request_count :
      {k n : ℕ} {es : List Effect} {x : Result Acknowledgement}
      → Runs lib s env once k es x n
      → request_count es + k ≡ n
  Runs-request_count {k} (last e) =
      omega (arith, (attempt_of-IsOneAttempt mode s body (env.exchange (suc k))).one)
  Runs-request_count {k} (retry {d = d} {later = later} e run) = omega (
    arith,
    request_count-append (effects_of lib s env once (suc k)) (sleep d ∷ later),
    (attempt_of-IsOneAttempt mode s body (env.exchange (suc k))).one,
    Runs-request_count run,
  )

  pub Runs-le :
      {k n : ℕ} {es : List Effect} {x : Result Acknowledgement}
      → Runs lib s env once k es x n
      → k ≤ s.retry_count
      → n ≤ s.retry_count + 1
  Runs-le (last e) h = omega arith
  Runs-le {k} (retry {d = d} e run) h =
      Runs-le run (decide-again-le lib s env once (suc k) (made lib s env once (suc k)) d e)

  pub Runs-last :
      {k n : ℕ} {es : List Effect} {x : Result Acknowledgement}
      → Runs lib s env once k es x n
      → decide lib s env n (made lib s env once n) ≡ finish x
  Runs-last (last e) = e
  Runs-last (retry e run) = Runs-last run

  pub Runs-requests :
      {k n : ℕ} {es : List Effect} {x : Result Acknowledgement}
      → Runs lib s env once k es x n
      → All (IsRequest s body) es
  Runs-requests {k} (last e) = (attempt_of-IsOneAttempt mode s body (env.exchange (suc k))).requests
  Runs-requests {k} (retry e run) =
      All-append (IsRequest s body) _ _
        (attempt_of-IsOneAttempt mode s body (env.exchange (suc k))).requests
        (tt, Runs-requests run)

  pub Runs-closes :
      {k n : ℕ} {es : List Effect} {x : Result Acknowledgement}
      → Runs lib s env once k es x n
      → track_open false es ≡ some false
  Runs-closes {k} (last e) =
      (let only = effects_of lib s env once (suc k) in
        ap (track_open false) (sym (append-nil only)))
      ∙ (attempt_of-IsOneAttempt mode s body (env.exchange (suc k))).closes []
  Runs-closes {k} (retry {d = d} {later = later} e run) =
      (attempt_of-IsOneAttempt mode s body (env.exchange (suc k))).closes (sleep d ∷ later)
      ∙ Runs-closes run

  pub Runs-IsRetryable :
      {k n : ℕ} {es : List Effect} {x : Result Acknowledgement}
      → Runs lib s env once k es x n
      → (m : ℕ) → k < m
      → m < n
      → IsRetryable (made lib s env once m)
  Runs-IsRetryable (last e) m h l = absurd (omega arith)
  Runs-IsRetryable {k} (retry {d = d} e run) m h l = elim (split_lt k m h) [
    | inl same ↦
        rw same (decide-again-IsRetryable lib s env (suc k) (made lib s env once (suc k)) d e)
    | inr later ↦ Runs-IsRetryable run m later l
  ]
    where
      split_lt : (k m : ℕ) → k < m → (m ≡ suc k) ⊎ (suc k < m)
      split_lt k m h = grind arith

  pub Runs-lt :
      {k n : ℕ} {es : List Effect} {x : Result Acknowledgement}
      → Runs lib s env once k es x n
      → k < n
  Runs-lt (last e) = omega arith
  Runs-lt (retry e run) = omega (arith, Runs-lt run)
