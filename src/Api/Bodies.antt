-- ===== src/Api/Bodies.antt =====
-- The body of a call of a public method in python/src/cekat_event_sdk/client.py and async_client.py.
use mathlib.Core.Path.{subst}
use cekat_event_sdk.Base.{
  ℕ, ◌≡◌, Float, Text, String, Bool, true, false, Option, none, some, List, codes, encode,
}
use cekat_event_sdk.Errors.{ok, >>=-eq-ok}
use cekat_event_sdk.Objects.{Value, Heap}
use cekat_event_sdk.Models.{Event}
use cekat_event_sdk.Json.{Json, Members}
use cekat_event_sdk.Json.Dumps.{dumps}
use cekat_event_sdk.Validation.Properties.{Conversion}
use cekat_event_sdk.Validation.Order.{Placed, with_order_paid_properties}
use cekat_event_sdk.Validation.Order.Laws.{IsOrder, with_order_paid_properties-IsOrder}
use cekat_event_sdk.Validation.Body.{build_payload, encoded, build_body}
use cekat_event_sdk.Validation.Body.Payloads.{IsPayload, build_payload-IsPayload}
use cekat_event_sdk.Api.{
  Call, user_registration, user_login, form_submitted, order_created, order_paid, custom_event,
  Moments, Prepared, common, order, prepare, request_body,
}

-- What a call asks for: the key, whether it is a common event, the event, and the heap it is read
-- from. The five named methods send common events under their own names; the two order methods send
-- an event to which the amount and the currency were added; custom_event sends the caller's key.
pub data IsAsked (at : Moments)
    : Call
      → (event_key : Value) (is_common : Bool) (event : Option Event) (heap : Heap) → Type 0 where
  registration :
      {event : Option Event}
      → IsAsked at
          (user_registration event)
          (Value.str (codes "user_registration"))
          true
          event
          at.heap
  login :
      {event : Option Event}
      → IsAsked at (user_login event) (Value.str (codes "user_login")) true event at.heap
  form :
      {event : Option Event}
      → IsAsked at (form_submitted event) (Value.str (codes "form_submitted")) true event at.heap
  creation :
      {amount currency : Value} {event : Option Event} {placed : Placed}
      → IsOrder at.heap at.fresh amount currency event placed
      → IsAsked at
          (order_created amount currency event)
          (Value.str (codes "order_created"))
          true
          (some placed.event)
          placed.heap
  payment :
      {amount currency : Value} {event : Option Event} {placed : Placed}
      → IsOrder at.heap at.fresh amount currency event placed
      → IsAsked at
          (order_paid amount currency event)
          (Value.str (codes "order_paid"))
          true
          (some placed.event)
          placed.heap
  custom :
      {event_key : Value} {event : Option Event}
      → IsAsked at (custom_event event_key event) event_key false event at.heap

same_prepared : (p q : Prepared) → ok p ≡ ok q → p ≡ q
same_prepared p q e = cc

-- That what was prepared is what a call asks for.
abbrev Fits : Moments → Call → Prepared → Type 0
Fits at call p = IsAsked at call p.event_key p.is_common p.event p.heap

module _ (to_float : Conversion) (float_repr : Float → Text) (at : Moments) where
  order-placed :
      (key : String) (amount currency : Value) (event : Option Event) (p : Prepared)
      → order to_float float_repr at key amount currency event ≡ ok p
      → (placed : Placed) × IsOrder at.heap at.fresh amount currency event placed
        × (common key (some placed.event) placed.heap ≡ p)
  unfolding order
  order-placed key amount currency event p h =
      let (placed, placed_ok, h1) =
        >>=-eq-ok (with_order_paid_properties to_float at.heap at.fresh amount currency event) _
          h in
      (
        placed,
        with_order_paid_properties-IsOrder to_float at.heap at.fresh amount currency event placed
            placed_ok,
        same_prepared _ p h1,
      )

  prepare-Fits :
      (call : Call) (p : Prepared) → prepare to_float float_repr at call ≡ ok p → Fits at call p
  unfolding prepare
  prepare-Fits (user_registration event) p h =
      subst (Fits at (user_registration event)) (same_prepared _ p h) registration
  prepare-Fits (user_login event) p h =
      subst (Fits at (user_login event)) (same_prepared _ p h) login
  prepare-Fits (form_submitted event) p h =
      subst (Fits at (form_submitted event)) (same_prepared _ p h) form
  prepare-Fits (order_created amount currency event) p h =
      let (placed, placed_ok, same) = order-placed "order_created" amount currency event p h in
      subst (Fits at (order_created amount currency event)) same (creation placed_ok)
  prepare-Fits (order_paid amount currency event) p h =
      let (placed, placed_ok, same) = order-placed "order_paid" amount currency event p h in
      subst (Fits at (order_paid amount currency event)) same (payment placed_ok)
  prepare-Fits (custom_event event_key event) p h =
      subst (Fits at (custom_event event_key event)) (same_prepared _ p h) custom

  -- The body of a call: the UTF-8 bytes of the document whose members are the payload of the event
  -- that the call asks for.
  pub record IsBodyOf (call : Call) (body : List ℕ) : Type 0 where
    pub event_key : Value
    pub is_common : Bool
    pub event : Option Event
    pub heap : Heap
    pub asked : IsAsked at call event_key is_common event heap
    pub members : Members
    pub payload :
        IsPayload to_float heap event_key is_common event at.visitor at.clock at.new_event_id
          members
    pub printed : encode (dumps float_repr (Json.obj members)) ≡ some body

encoded-some :
    (to_float : Conversion) (heap : Heap) (o : Option (List ℕ)) (body : List ℕ)
    → encoded to_float heap o ≡ ok body
    → o ≡ some body
encoded-some to_float heap (some bytes) body h = cc
encoded-some to_float heap none body h = cc

module _ (to_float : Conversion) (float_repr : Float → Text) (at : Moments) where
  pub request_body-IsBodyOf :
      (call : Call) (body : List ℕ)
      → request_body to_float float_repr at call ≡ ok body
      → IsBodyOf to_float float_repr at call body
  unfolding request_body build_body
  request_body-IsBodyOf call body h =
      let (p, prepared, h1) = >>=-eq-ok (prepare to_float float_repr at call) _ h in
      let (members, built, h2) =
        >>=-eq-ok
          (build_payload to_float p.heap p.event_key p.is_common p.event at.visitor at.clock
            at.new_event_id)
          _ h1 in
      record {
        event_key = p.event_key;
        is_common = p.is_common;
        event = p.event;
        heap = p.heap;
        asked = prepare-Fits to_float float_repr at call p prepared;
        members = members;
        payload =
            build_payload-IsPayload to_float p.heap p.event_key p.is_common at.visitor at.clock
              at.new_event_id members p.event built;
        printed =
            encoded-some to_float p.heap (encode (dumps float_repr (Json.obj members))) body h2;
      }
