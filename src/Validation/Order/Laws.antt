-- ===== src/Validation/Order/Laws.antt =====
-- What an order adds to the properties of an event.
use cekat_event_sdk.Base.{
  ℕ, ◌≡◌, ◌≢◌, refl, ap, sym, ◌∙◌, Text, Bool, true, false, Option, none, some, List, [], ◌∷◌, ◌++◌,
  ==_refl, codes, strip, is_empty, arith,
}
use cekat_event_sdk.Errors.{Reason, ok, >>=-eq-ok, refuse_if, reserved_property}
use cekat_event_sdk.Objects.{Value, Node, mapping, Heap}
use cekat_event_sdk.Models.{Event}
use cekat_event_sdk.Validation.Config.{require_text}
use cekat_event_sdk.Validation.Config.Texts.{require_text-ok}
use cekat_event_sdk.Validation.Properties.{Conversion}
use cekat_event_sdk.Validation.Order.{
  check_amount, has_key, property_items, require_event, refused, store, Placed,
  with_order_paid_properties,
}

refuse_if-ok : (b : Bool) (r : Reason) → refuse_if b r ≡ ok tt → b ≡ false
refuse_if-ok true r e = cc
refuse_if-ok false r e = refl

store-other : (heap : Heap) (fresh a : ℕ) (n : Node) → a ≢ fresh → store heap fresh n a ≡ heap a
store-other heap fresh a n differs = ground arith

require_event-ok : (o : Option Event) (e : Event) → require_event o ≡ ok e → o ≡ some e
unfolding require_event refused
require_event-ok none e h = cc
require_event-ok (some d) e h = let same : d ≡ e = cc in ap some same

-- The event of an order: the caller's event with new properties, on a heap where nothing of the
-- caller's has changed.
pub record IsOrder (heap : Heap) (fresh : ℕ) (amount currency : Value) (event : Option Event)
    (placed : Placed) : Type 0 where
  pub original : Event
  pub items : List (Value × Value)
  pub text : Text
  pub given : event ≡ some original
  pub has_items : property_items heap original.properties ≡ ok items
  pub no_amount : has_key (codes "amount") items ≡ false
  pub no_currency : has_key (codes "currency") items ≡ false
  pub currency_text : currency ≡ Value.str text
  pub not_blank : is_empty (strip text) ≡ false
  pub same_event : placed.event ≡ record original { properties = Value.object fresh }
  pub added :
      placed.heap fresh
      ≡ mapping (
          items
          ++ ((Value.str (codes "amount"), amount)
              ∷ (Value.str (codes "currency"), Value.str text)
              ∷ []))
  pub unchanged : (a : ℕ) → a ≢ fresh → placed.heap a ≡ heap a

-- If an order is accepted, its event has the properties of the caller's event, in their order, and
-- then the amount and the currency; the caller's properties named neither, all other fields are the
-- caller's, and no object of the caller has changed.
pub with_order_paid_properties-IsOrder :
    (to_float : Conversion) (heap : Heap) (fresh : ℕ) (amount currency : Value)
    (event : Option Event) (placed : Placed)
    → with_order_paid_properties to_float heap fresh amount currency event ≡ ok placed
    → IsOrder heap fresh amount currency event placed
unfolding with_order_paid_properties
with_order_paid_properties-IsOrder to_float heap fresh amount currency event placed h =
    let (_, amount_ok, h1) = >>=-eq-ok (check_amount to_float amount) _ h in
    let (text, text_ok, h2) = >>=-eq-ok (require_text Reason.currency currency) _ h1 in
    let (e, event_ok, h3) = >>=-eq-ok (require_event event) _ h2 in
    let (items, items_ok, h4) = >>=-eq-ok (property_items heap e.properties) _ h3 in
    let (_, no_amount, h5) =
      >>=-eq-ok (refuse_if (has_key (codes "amount") items) (reserved_property (codes "amount"))) _
        h4 in
    let (_, no_currency, h6) =
      >>=-eq-ok
        (refuse_if (has_key (codes "currency") items) (reserved_property (codes "currency"))) _
        h5 in
    let (currency_text, not_blank) = require_text-ok Reason.currency currency text text_ok in
    let made : Placed = record {
      event = record e { properties = Value.object fresh };
      heap = store heap fresh (
          mapping (
            items
            ++ ((Value.str (codes "amount"), amount)
                ∷ (Value.str (codes "currency"), Value.str text)
                ∷ [])));
    } in
    let same : made ≡ placed = of_ok made placed h6 in
    record {
      original = e;
      items = items;
      text = text;
      given = require_event-ok event e event_ok;
      has_items = items_ok;
      no_amount = refuse_if-ok _ _ no_amount;
      no_currency = refuse_if-ok _ _ no_currency;
      currency_text = currency_text;
      not_blank = not_blank;
      same_event = sym (ap (λ (p : Placed). p.event) same);
      added = sym (ap (λ (p : Placed). p.heap fresh) same) ∙ rw (==_refl fresh);
      unchanged = λ a differs.
          sym (ap (λ (p : Placed). p.heap a) same) ∙ store-other heap fresh a _ differs;
    }
  where
    of_ok : (p q : Placed) → ok p ≡ ok q → p ≡ q
    of_ok p q e = cc
