-- ===== src/Api/Calls.antt =====
-- What a call of a method does with its event, and what closing a client does.
use mathlib.Core.Path.{subst}
use cekat_event_sdk.Base.{
  ℕ, ◌+◌, ◌≤◌, ◌≡◌, refl, Float, Text, Bool, false, some, List, [], All, inl, inr, ◌⊎◌,
}
use cekat_event_sdk.Errors.{Error, Result, ok, raise, >>=-eq-ok, refuse_if}
use cekat_event_sdk.Objects.{Value}
use cekat_event_sdk.Validation.Properties.{Conversion}
use cekat_event_sdk.Models.{Acknowledgement}
use cekat_event_sdk.Shared.{Settings, create}
use cekat_event_sdk.Client.{Libraries, Surroundings, Mode, Effect, track}
use cekat_event_sdk.Client.Attempts.{request_count, IsRequest}
use cekat_event_sdk.Client.Tracks.{track_total, track-requests}
use cekat_event_sdk.Api.Bodies.{IsBodyOf, request_body-IsBodyOf}
use cekat_event_sdk.Api.{
  Call, Moments, request_body, submit, HttpClient, is_wrong, is_not_given, http_client_reason,
  Handle, init, close, aclose,
}

Result-cases {ℓ} :
    {A : Type ℓ} (r : Result A) → ((e : Error) × (r ≡ raise e)) ⊎ ((a : A) × (r ≡ ok a))
Result-cases (ok a) = inr (a, refl)
Result-cases (raise e) = inl (e, refl)

-- A call either fails its checks: it raises that error and has no effect at all. Or its event has a
-- body, which is the payload of the event that the call asks for, under the name of the method as a
-- common event or under the caller's key as a custom one, and with the amount and the currency for
-- an order: the call then ends, after one request at least and at most one more than the retries
-- allowed, and every request that it sends carries that body.
pub submit_total :
    (to_float : Conversion) (float_repr : Float → Text) (at : Moments) (lib : Libraries)
    (s : Settings) (env : Surroundings) (mode : Mode) (call : Call)
    → ((e : Error) × (request_body to_float float_repr at call ≡ raise e)
        × (submit to_float float_repr at lib s env mode call ≡ ([], some (raise e))))
      ⊎ ((body : List ℕ) × (es : List Effect) × (x : Result Acknowledgement) × (request_body
              to_float float_repr at call
            ≡ ok body)
          × IsBodyOf to_float float_repr at call body
          × (submit to_float float_repr at lib s env mode call ≡ (es, some x))
          × (1 ≤ request_count es)
          × (request_count es ≤ s.retry_count + 1)
          × All (IsRequest s body) es)
unfolding submit track
submit_total to_float float_repr at lib s env mode call =
    elim (Result-cases (request_body to_float float_repr at call)) [
      | inl (e, failed) ↦ inl (e, failed, rw failed)
      | inr (body, made) ↦
          let (es, x, ends, at_least, at_most) = track_total lib s env mode body in
          inr (
            body,
            es,
            x,
            made,
            request_body-IsBodyOf to_float float_repr at call body made,
            rw made ends,
            at_least,
            at_most,
            (track-requests lib s env mode body es x ends).0,
          )
    ]

IsClosedBy : HttpClient → Handle → Type 0
IsClosedBy c h =
    (h.http_closed ≡ false)
    × ((close h).http_closed ≡ is_not_given c)
    × (close (close h) ≡ close h)
    × (aclose h ≡ close h)

new-IsClosedBy :
    (s : Settings) (c : HttpClient)
    → IsClosedBy c (record { settings = s; owns_http = is_not_given c; http_closed = false })
unfolding close aclose IsClosedBy
new-IsClosedBy s HttpClient.not_given = (refl, refl, refl, refl)
new-IsClosedBy s HttpClient.injected = (refl, refl, refl, refl)
new-IsClosedBy s HttpClient.wrong_type = (refl, refl, refl, refl)

-- Closing a client that has been made closes its HTTP client exactly when none was given to it,
-- closing it again changes nothing, and the asynchronous client is closed in the same way.
pub init-close :
    (mode : Mode) (lower_any : Text → Text) (bracketed_netloc_ok nfkc_ok : Text → Bool)
    (user_agent : Text) (access_token base_url timeout retry_count : Value)
    (http_client : HttpClient) (h : Handle)
    → init mode lower_any bracketed_netloc_ok nfkc_ok user_agent access_token base_url timeout
        retry_count http_client
      ≡ ok h
    → (h.http_closed ≡ false)
      × ((close h).http_closed ≡ is_not_given http_client)
      × (close (close h) ≡ close h)
      × (aclose h ≡ close h)
unfolding init close aclose IsClosedBy
init-close mode lower_any brackets nfkc user_agent access_token base_url timeout retry_count
      http_client h made =
    let (s, _, h1) =
      >>=-eq-ok
        (create lower_any brackets nfkc user_agent access_token base_url timeout retry_count) _
        made in
    let (_, _, h2) = >>=-eq-ok (refuse_if (is_wrong http_client) (http_client_reason mode)) _ h1 in
    subst (IsClosedBy http_client) (of_ok _ h h2) (new-IsClosedBy s http_client)
  where
    of_ok : (a b : Handle) → ok a ≡ ok b → a ≡ b
    of_ok a b e = cc
