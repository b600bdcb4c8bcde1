-- ===== src/Client/Runs.antt =====
-- The loop of `_track` as a relation: the runs that it can make, and that it makes one of them.
use cekat_event_sdk.Base.{
  ℕ, zero, suc, ◌+◌, ◌≤◌, ◌<◌, ◌≡◌, refl, Option, some, List, ◌∷◌, ◌++◌, arith, inl, inr, ◌⊎◌,
}
use cekat_event_sdk.Errors.{Result}
use cekat_event_sdk.Models.{Acknowledgement}
use cekat_event_sdk.Shared.{Settings}
use cekat_event_sdk.Client.{
  Exchange, Effect, sleep, Attempted, no_response, exception, response, Surroundings, Decision,
  finish, again, Libraries, decide, loop,
}

module _ (lib : Libraries) (s : Settings) (env : Surroundings)
    (attempt_once : Exchange → Attempted × List Effect) where
  abbrev pub made : ℕ → Attempted
  made n = (attempt_once (env.exchange n)).0

  abbrev pub effects_of : ℕ → List Effect
  effects_of n = (attempt_once (env.exchange n)).1

  -- From `k` attempts made, the loop has these effects and ends with this result at attempt `n`.
  pub data Runs : ℕ → List Effect → Result Acknowledgement → ℕ → Type 0 where
    last :
        {k : ℕ} {r : Result Acknowledgement}
        → decide lib s env (suc k) (made (suc k)) ≡ finish r
        → Runs k (effects_of (suc k)) r (suc k)
    retry :
        {k n d : ℕ} {later : List Effect} {r : Result Acknowledgement}
        → decide lib s env (suc k) (made (suc k)) ≡ again d
        → Runs (suc k) later r n
        → Runs k (effects_of (suc k) ++ sleep d ∷ later) r n

  -- The loop goes on only while retries are left.
  pub decide-again-le :
      (n : ℕ) (a : Attempted) (d : ℕ) → decide lib s env n a ≡ again d → n ≤ s.retry_count
  unfolding decide
  decide-again-le n (no_response cause) d e = ground arith
  decide-again-le n (exception name) d e = cc
  decide-again-le n (response r) d e = ground arith

  Decision-cases :
      (x : Decision) → ((r : Result Acknowledgement) × (x ≡ finish r)) ⊎ ((d : ℕ) × (x ≡ again d))
  Decision-cases (finish r) = inl (r, refl)
  Decision-cases (again d) = inr (d, refl)

  -- One round of the loop, by its decision.
  pub loop-finish :
      (fuel k : ℕ) (r : Result Acknowledgement)
      → decide lib s env (suc k) (made (suc k)) ≡ finish r
      → loop lib s env attempt_once (suc fuel) k ≡ (effects_of (suc k), some r)
  unfolding loop
  loop-finish fuel k r e = rw e

  pub loop-again :
      (fuel k d : ℕ) (later : List Effect) (r : Option (Result Acknowledgement))
      → decide lib s env (suc k) (made (suc k)) ≡ again d
      → loop lib s env attempt_once fuel (suc k) ≡ (later, r)
      → loop lib s env attempt_once (suc fuel) k ≡ (effects_of (suc k) ++ sleep d ∷ later, r)
  unfolding loop
  loop-again fuel k d later r e h = rw (e, h)

  -- With fuel for one attempt more than the retries that are left, the loop ends.
  pub loop-Runs :
      (fuel k : ℕ)
      → s.retry_count < fuel + k
      → 0 < fuel
      → (es : List Effect) × (r : Result Acknowledgement) × (n : ℕ) × (loop lib s env attempt_once
            fuel k
          ≡ (es, some r))
        × Runs k es r n
  loop-Runs zero k h p = absurd (omega arith)
  loop-Runs (suc fuel) k h p = elim (Decision-cases (decide lib s env (suc k) (made (suc k)))) [
    | inl (r, e) ↦ (effects_of (suc k), r, suc k, loop-finish fuel k r e, last e)
    | inr (d, e) ↦
        let left = decide-again-le (suc k) (made (suc k)) d e in
        let (es, r, n, same, run) = loop-Runs fuel (suc k) (omega arith) (omega arith) in
        (
          effects_of (suc k) ++ sleep d ∷ es,
          r,
          n,
          loop-again fuel k d es (some r) e same,
          retry e run,
        )
  ]
