-- ===== src/Protocol/Decoding.antt =====
-- When a response is an acknowledgement.
use cekat_event_sdk.Base.{
  ℕ, ◌≡◌, ◌≢◌, ◌↔◌, refl, false, Option, none, some, List, ◌==◌, ==_iff, arith, Bool-cases, inl,
  inr,
}
use cekat_event_sdk.Errors.{Cause, ok}
use cekat_event_sdk.Json.{Json}
use cekat_event_sdk.Models.{Acknowledgement}
use cekat_event_sdk.Responses.{ReceivedResponse}
use cekat_event_sdk.Protocol.{
  Loaded, document, malformed, too_deep, success_fields, accept, unread_acknowledgement,
  envelope_acknowledgement, refused, decode,
}
use cekat_event_sdk.Protocol.Envelopes.{
  SuccessEnvelope, success_fields_sound, success_fields_complete,
}

-- What `decode` takes for an acknowledgement.
pub record IsAccepted (loads : List ℕ → Loaded) (r : ReceivedResponse) (a : Acknowledgement)
    : Type 0 where
  pub status : r.status_code ≡ 200
  pub was_read : r.body_read_failure ≡ none
  pub is_whole : r.body_truncated ≡ false
  pub envelope : Json
  pub loaded : loads r.body ≡ document envelope
  pub is_success : SuccessEnvelope envelope r.body a

module _ (loads : List ℕ → Loaded) (r : ReceivedResponse) (attempts : ℕ) where
  accept-ok :
      (o : Option Acknowledgement) (a : Acknowledgement) → accept o r attempts ≡ ok a → o ≡ some a
  accept-ok none a e = cc
  accept-ok (some b) a e = ground arith

  envelope-ok :
      (l : Loaded) (a : Acknowledgement)
      → envelope_acknowledgement loads l r attempts ≡ ok a
      → (j : Json) × (l ≡ document j) × SuccessEnvelope j r.body a
  unfolding envelope_acknowledgement
  envelope-ok too_deep a e = cc
  envelope-ok malformed a e = cc
  envelope-ok (document j) a e =
      (j, refl, success_fields_sound r.body j a (accept-ok (success_fields r.body j) a e))

  unread-ok :
      (f : Option Cause) (a : Acknowledgement)
      → unread_acknowledgement loads f r attempts ≡ ok a
      → (f ≡ none)
        × (r.body_truncated ≡ false)
        × (envelope_acknowledgement loads (loads r.body) r attempts ≡ ok a)
  unfolding unread_acknowledgement
  unread-ok (some c) a e = cc
  unread-ok none a e = ground arith

  decode_sound : (a : Acknowledgement) → decode loads r attempts ≡ ok a → IsAccepted loads r a
  unfolding decode
  decode_sound a e = elim (Bool-cases (r.status_code == 200)) [
    | inl is_200 ↦
        let (was_read, is_whole, e') = unread-ok r.body_read_failure a (rw is_200 at e) in
        let (j, loaded, success) = envelope-ok (loads r.body) a e' in
        record {
          status = (==_iff r.status_code 200).0 is_200;
          was_read = was_read;
          is_whole = is_whole;
          envelope = j;
          loaded = loaded;
          is_success = success;
        }
    | inr other ↦ absurd (never (loads r.body) (rw other at e))
  ]
    where
      never : (l : Loaded) → refused loads l r attempts ≢ ok a
      never too_deep h = unfold refused in cc
      never malformed h = unfold refused in cc
      never (document j) h = unfold refused in cc

  decode_complete : (a : Acknowledgement) → IsAccepted loads r a → decode loads r attempts ≡ ok a
  unfolding decode
  decode_complete a h = simp (
    h.status,
    h.was_read,
    h.is_whole,
    h.loaded,
    success_fields_complete r.body h.envelope a h.is_success,
  )

  -- A response is an acknowledgement exactly when its status is 200, its body was read to the end
  -- and is not cut, and the body is a success envelope; its parts are those of the envelope.
  pub decode-ok_iff :
      (a : Acknowledgement) → (decode loads r attempts ≡ ok a) ↔ IsAccepted loads r a
  decode-ok_iff a = (decode_sound a, decode_complete a)
