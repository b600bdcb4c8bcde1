-- ===== src/Validation/Order.antt =====
-- with_order_paid_properties of python/src/cekat_event_sdk/validation.py. The new properties are a
-- new object on the heap, at an address that was not in use.
pub mod Laws
use cekat_event_sdk.Base.{
  ℕ, ℤ, Float, is_finite, Text, Bool, true, false, ◌&&◌, ◌||◌, not, Option, none, some, List, [],
  ◌∷◌, ◌++◌, ◌==◌, if◌then◌else◌, codes, text_eq,
}
use cekat_event_sdk.Errors.{
  Reason, reserved_property, Error, Result, ok, raise, ◌>>=◌, ◌>>◌, refuse_if,
}
use cekat_event_sdk.Objects.{
  Value, Decimal, signalling, special, digits, Node, mapping, sequence, opaque, Heap,
}
use cekat_event_sdk.Models.{Event}
use cekat_event_sdk.Validation.Config.{require_text}
use cekat_event_sdk.Validation.Properties.{Conversion}

refused : {A : Type 0} → Reason → Result A
refused r = raise (Error.validation r)

finite_amount : Bool → Result (Unit {0})
finite_amount b = refuse_if (not b) Reason.amount

-- An int of any size, or a finite float or Decimal. math.isfinite raises ValueError for a
-- signalling NaN.
unfoldable pub check_amount : Conversion → Value → Result (Unit {0})
unfolding finite_amount refused
check_amount to_float (Value.int z) = ok tt
check_amount to_float (Value.float f) = finite_amount (is_finite f)
check_amount to_float (Value.decimal signalling) = raise (Error.foreign (codes "ValueError"))
check_amount to_float (Value.decimal special) = refused Reason.amount
check_amount to_float (Value.decimal (digits s c e)) = finite_amount (is_finite (to_float s c e))
check_amount to_float (Value.bool b) = refused Reason.amount
check_amount to_float _ = refused Reason.amount

abbrev pub is_key : Text → Value → Bool
is_key name (Value.str t) = text_eq t name
is_key name Value.null = false
is_key name _ = false

-- `name in properties`
unfoldable pub has_key : Text → List (Value × Value) → Bool
has_key name [] = false
has_key name ((k, v) ∷ items) = is_key name k || has_key name items

entries_of : Node → Result (List (Value × Value))
unfolding refused
entries_of (mapping items) = ok items
entries_of (sequence vs) = refused Reason.properties_type
entries_of opaque = refused Reason.properties_type

-- The items of `event.properties or {}`, which must be a Mapping or None.
unfoldable pub property_items : Heap → Value → Result (List (Value × Value))
unfolding entries_of
property_items heap Value.null = ok []
property_items heap (Value.object a) = entries_of (heap a)
property_items heap _ = refused Reason.properties_type

require_event : Option Event → Result Event
unfolding refused
require_event none = refused Reason.event_type
require_event (some e) = ok e

abbrev pub store : Heap → ℕ → Node → Heap
store heap address node a = if address == a then node else heap a

pub record Placed : Type 0 where
  pub event : Event
  pub heap : Heap

unfoldable pub with_order_paid_properties :
    Conversion → Heap → (fresh : ℕ) → (amount currency : Value) → Option Event → Result Placed
unfolding check_amount require_text require_event property_items
with_order_paid_properties to_float heap fresh amount currency event = do
  check_amount to_float amount
  text ← require_text Reason.currency currency
  e ← require_event event
  items ← property_items heap e.properties
  refuse_if (has_key (codes "amount") items) (reserved_property (codes "amount"))
  refuse_if (has_key (codes "currency") items) (reserved_property (codes "currency"))
  ok (record {
    event = record e { properties = Value.object fresh };
    heap = store heap fresh (
        mapping (
          items
          ++ ((Value.str (codes "amount"), amount)
              ∷ (Value.str (codes "currency"), Value.str text)
              ∷ [])));
  })
