-- ===== src/Validation/Config/Texts.antt =====
-- What an accepted text of a configuration or an event is.
use cekat_event_sdk.Base.{◌≡◌, ap, Text, false, Bool-cases, inl, inr, strip, is_empty}
use cekat_event_sdk.Errors.{Reason, Error, ok, raise}
use cekat_event_sdk.Objects.{Value}
use cekat_event_sdk.Validation.Config.{require_text}

pub require_text-ok :
    (r : Reason) (v : Value) (t : Text)
    → require_text r v ≡ ok t
    → (v ≡ Value.str t) × (is_empty (strip t) ≡ false)
unfolding require_text
require_text-ok r (Value.str u) t e = elim (Bool-cases (is_empty (strip u))) [
  | inl blank ↦ absurd (let e' : raise (Error.validation r) ≡ ok t = rw blank at e in cc)
  | inr full ↦
      let e' : ok u ≡ ok t = rw full at e in
      let same : u ≡ t = cc in (ap Value.str same, rw (← same) full)
]
require_text-ok r Value.null t e = cc
require_text-ok r _ t e = cc
