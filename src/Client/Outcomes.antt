-- ===== src/Client/Outcomes.antt =====
-- What `_track` of either client guarantees of its attempts, its requests and its result.
use cekat_event_sdk.Base.{ℕ, ◌≡◌, refl, Bool, true, false, List, arith}
use cekat_event_sdk.Errors.{Cause, Error, Result, ok, raise, delivery_outcome_unknown}
use cekat_event_sdk.Retry.{is_retryable_status}
use cekat_event_sdk.Models.{Acknowledgement}
use cekat_event_sdk.Responses.{ReceivedResponse}
use cekat_event_sdk.Protocol.{decode, Loaded}
use cekat_event_sdk.Protocol.Failures.{Explains, decode-raise}
use cekat_event_sdk.Shared.{Settings, transport_error}
use cekat_event_sdk.Client.{
  Attempted, no_response, exception, response, Surroundings, finish, again, Libraries, decide,
}

-- The number of attempts that an error of the SDK reports.
abbrev pub Reports : ℕ → Result Acknowledgement → Type 0
Reports n (ok a) = Unit
Reports n (raise (Error.validation reason)) = ⊥
Reports n (raise (Error.http e)) = e.attempts ≡ n
Reports n (raise (Error.transport e)) = e.attempts ≡ n
Reports n (raise (Error.response_decode e)) = e.attempts ≡ n
Reports n (raise (Error.foreign name)) = Unit

-- An attempt after which the loop may go on.
abbrev pub IsRetryable : Attempted → Type 0
IsRetryable (no_response cause) = Unit
IsRetryable (exception name) = ⊥
IsRetryable (response r) = is_retryable_status r.status_code ≡ true

-- The result says that the outcome is unknown exactly when the last attempt had no response.
abbrev pub is_unknown : Result Acknowledgement → Bool
is_unknown (ok a) = false
is_unknown (raise e) = delivery_outcome_unknown e

abbrev pub has_no_response : Attempted → Bool
has_no_response (no_response cause) = true
has_no_response _ = false

explained-Reports :
    (loads : List ℕ → Loaded) (r : ReceivedResponse) (n : ℕ) (x : Result Acknowledgement)
    → ((e : Error) → x ≡ raise e → Explains loads r n e)
    → Reports n x × (is_unknown x ≡ false)
unfolding delivery_outcome_unknown
explained-Reports loads r n (ok a) h = (tt, refl)
explained-Reports loads r n (raise (Error.validation reason)) h =
    absurd (h (Error.validation reason) refl)
explained-Reports loads r n (raise (Error.http e)) h = ((h (Error.http e) refl).5, refl)
explained-Reports loads r n (raise (Error.transport e)) h = absurd (h (Error.transport e) refl)
explained-Reports loads r n (raise (Error.response_decode e)) h =
    ((h (Error.response_decode e) refl).2, refl)
explained-Reports loads r n (raise (Error.foreign name)) h = (tt, refl)

module _ (lib : Libraries) (s : Settings) (env : Surroundings) where
  decided :
      (n : ℕ) (r : ReceivedResponse)
      → Reports n (decode lib.loads r n) × (is_unknown (decode lib.loads r n) ≡ false)
  decided n r = explained-Reports lib.loads r n (decode lib.loads r n) (decode-raise lib.loads r n)

  transport-Reports :
      (c : Cause) (n : ℕ)
      → Reports n (raise (transport_error c n)) × (is_unknown (raise (transport_error c n)) ≡ true)
  unfolding transport_error delivery_outcome_unknown
  transport-Reports c n = (refl, refl)

  -- The result that a decision to end the loop gives.
  abbrev Result_of : ℕ → Attempted → Result Acknowledgement
  Result_of n (no_response cause) = raise (transport_error cause n)
  Result_of n (exception name) = raise (Error.foreign name)
  Result_of n (response r) = decode lib.loads r n

  decide-Result_of :
      (n : ℕ) (a : Attempted) (x : Result Acknowledgement)
      → decide lib s env n a ≡ finish x
      → Result_of n a ≡ x
  unfolding decide
  decide-Result_of n (no_response cause) x e = ground arith
  decide-Result_of n (exception name) x e = ground arith
  decide-Result_of n (response r) x e = ground arith

  Result_of-Reports :
      (n : ℕ) (a : Attempted)
      → Reports n (Result_of n a) × (is_unknown (Result_of n a) ≡ has_no_response a)
  unfolding delivery_outcome_unknown
  Result_of-Reports n (no_response cause) = transport-Reports cause n
  Result_of-Reports n (exception name) = (tt, refl)
  Result_of-Reports n (response r) = decided n r

  pub decide-finish :
      (n : ℕ) (a : Attempted) (x : Result Acknowledgement)
      → decide lib s env n a ≡ finish x
      → Reports n x × (is_unknown x ≡ has_no_response a)
  decide-finish n a x e = rw (decide-Result_of n a x e) at (Result_of-Reports n a)

  pub decide-again-IsRetryable :
      (n : ℕ) (a : Attempted) (d : ℕ) → decide lib s env n a ≡ again d → IsRetryable a
  unfolding decide
  decide-again-IsRetryable n (no_response cause) d e = tt
  decide-again-IsRetryable n (exception name) d e = cc
  decide-again-IsRetryable n (response r) d e = ground arith
