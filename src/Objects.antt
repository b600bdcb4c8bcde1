-- ===== src/Objects.antt =====
-- Python values as the SDK meets them: the dynamic arguments that its functions check with
-- `isinstance`, and the mutable objects of the caller that a property value refers to. A mapping,
-- list or tuple is an address into a heap, so shared and cyclic structures can be stated.
use cekat_event_sdk.Base.{ℕ, ℤ, Float, Text, List, Option, Bool}

-- decimal.Decimal: NaN and the infinities, a signalling NaN, or a finite number given by its
-- sign, its digits and its exponent.
pub data Decimal : Type 0 where
  signalling : Decimal
  special : Decimal
  digits : (negative : Bool) (coefficient : ℕ) (exponent : ℤ) → Decimal

-- datetime.datetime: microseconds of the wall clock since 0001-01-01T00:00:00, and the offset
-- from UTC in microseconds; a datetime with no tzinfo, or whose tzinfo has no offset, has none.
pub record Moment : Type 0 where
  pub wall : ℕ
  pub offset : Option ℤ

pub data Value : Type 0 where
  null : Value
  bool : Bool → Value
  str : Text → Value
  int : ℤ → Value
  float : Float → Value
  decimal : Decimal → Value
  datetime : Moment → Value
  object : (address : ℕ) → Value
  other : Value

-- What stands at an address: the items of a Mapping in iteration order, a list or tuple, or an
-- object that the SDK does not read.
pub data Node : Type 0 where
  mapping : List (Value × Value) → Node
  sequence : List Value → Node
  opaque : Node

abbrev pub Heap : Type 0
Heap = ℕ → Node
