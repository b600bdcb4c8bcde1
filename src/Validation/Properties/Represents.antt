-- ===== src/Validation/Properties/Represents.antt =====
-- What JSON document stands for a value of the caller, as a relation: no order of evaluation, no
-- set of ancestors and no error, but a bound on how deep the value is nested.
use cekat_event_sdk.Base.{
  ℕ, suc, ◌≤◌, ◌≡◌, ℤ, magnitude, Float, Text, Bool, true, List, [], ◌∷◌, is_unicode,
}
use cekat_event_sdk.Objects.{Value, digits, mapping, sequence, Heap}
use cekat_event_sdk.Json.{Json, arr, obj, Items, nil, cons, Members, end, put}
use cekat_event_sdk.Validation.Properties.{Conversion, max_safe_integer, is_safe_float}

module _ (to_float : Conversion) (heap : Heap) where
  -- `Represents room v j`: nested less than `room` deep, the value is the document `j`.
  mutual
    pub data Represents : ℕ → Value → Json → Type 0 where
      a_null : {n : ℕ} → Represents (suc n) Value.null Json.null
      a_bool : {n : ℕ} {b : Bool} → Represents (suc n) (Value.bool b) (Json.bool b)
      a_str :
          {n : ℕ} {t : Text} → is_unicode t ≡ true → Represents (suc n) (Value.str t) (Json.str t)
      an_int :
          {n : ℕ} {z : ℤ}
          → magnitude z ≤ max_safe_integer
          → Represents (suc n) (Value.int z) (Json.int z)
      a_float :
          {n : ℕ} {f : Float}
          → is_safe_float f ≡ true
          → Represents (suc n) (Value.float f) (Json.float f)
      a_decimal :
          {n : ℕ} {s : Bool} {c : ℕ} {e : ℤ}
          → is_safe_float (to_float s c e) ≡ true
          → Represents (suc n) (Value.decimal (digits s c e)) (Json.float (to_float s c e))
      a_list :
          {n a : ℕ} {vs : List Value} {xs : Items}
          → heap a ≡ sequence vs
          → ItemsOf n vs xs
          → Represents (suc n) (Value.object a) (arr xs)
      a_dict :
          {n a : ℕ} {items : List (Value × Value)} {ms : Members}
          → heap a ≡ mapping items
          → MembersOf n end items ms
          → Represents (suc n) (Value.object a) (obj ms)

    pub data ItemsOf : ℕ → List Value → Items → Type 0 where
      no_items : {n : ℕ} → ItemsOf n [] nil
      next_item :
          {n : ℕ} {v : Value} {vs : List Value} {j : Json} {xs : Items}
          → Represents n v j
          → ItemsOf n vs xs
          → ItemsOf n (v ∷ vs) (cons j xs)

    -- The keys are texts; of two items with one key the later one counts.
    pub data MembersOf : ℕ → Members → List (Value × Value) → Members → Type 0 where
      no_members : {n : ℕ} {ms : Members} → MembersOf n ms [] ms
      next_member :
          {n : ℕ} {key : Text} {v : Value} {items : List (Value × Value)} {j : Json}
          {before ms : Members}
          → is_unicode key ≡ true
          → Represents n v j
          → MembersOf n (put key j before) items ms
          → MembersOf n before ((Value.str key, v) ∷ items) ms
