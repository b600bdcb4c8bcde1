-- ===== src/Validation/Properties.antt =====
-- _normalize and _container of python/src/cekat_event_sdk/validation.py: event properties, which
-- are objects of the caller on a heap, become a JSON document.
pub mod Represents
pub mod Sound
pub mod Complete
use cekat_event_sdk.Base.{
  ℕ, zero, suc, ◌+◌, ℤ, magnitude, Float, is_finite, is_integer, exceeds, Text, Bool, true, false,
  ◌&&◌, ◌||◌, not, Option, none, some, List, [], ◌∷◌, ◌++◌, leb, ◌==◌, if◌then◌else◌, codes,
  decimal, is_unicode,
}
use cekat_event_sdk.Errors.{
  Reason, too_deep, cyclic, non_string_key, invalid_unicode, not_json_compatible, Error, Result, ok,
  raise, ◌>>=◌, ◌>>◌, refuse_if,
}
use cekat_event_sdk.Objects.{
  Value, Decimal, signalling, special, digits, Node, mapping, sequence, opaque, Heap,
}
use cekat_event_sdk.Json.{Json, arr, obj, Items, nil, cons, Members, end, put}

-- MAX_SAFE_INTEGER
abbrev pub max_safe_integer : ℕ
max_safe_integer = 9007199254740991

-- _MAX_DEPTH
abbrev pub max_depth : ℕ
max_depth = 256

-- float(value) of a finite Decimal, from its sign, coefficient and exponent.
abbrev pub Conversion : Type 0
Conversion = Bool → ℕ → ℤ → Float

abbrev pub elem : ℕ → List ℕ → Bool
elem a [] = false
elem a (b ∷ bs) = b == a || elem a bs

abbrev invalid : Text → Result Json
invalid path = raise (Error.validation (not_json_compatible path))

unfoldable pub child_key : Text → Text → Text
child_key path [] = path ++ codes "[\"\"]"
child_key path (c ∷ key) = path ++ (b'.' ∷ c ∷ key)

unfoldable pub child_index : Text → ℕ → Text
unfolding decimal
child_index path index = path ++ (b'[' ∷ (decimal index ++ b']' ∷ []))

-- A float that JSON carries: finite, and no integer beyond the safe range.
abbrev pub is_safe_float : Float → Bool
is_safe_float f = is_finite f && not (is_integer f && exceeds f max_safe_integer)

check_float : Text → Float → Result Json
check_float path f = if is_safe_float f then ok (Json.float f) else invalid path

check_str : Text → Text → Result Json
check_str path t =
    if is_unicode t then ok (Json.str t) else raise (Error.validation (invalid_unicode path))

check_int : Text → ℤ → Result Json
check_int path z = if leb (magnitude z) max_safe_integer then ok (Json.int z) else invalid path

-- The items of a list or tuple, from an index on; `each` normalises a value.
unfoldable pub each_item : (Value → Text → Result Json) → Text → ℕ → List Value → Result Items
each_item each path index [] = ok nil
each_item each path index (v ∷ vs) = do
  j ← each v (child_index path index)
  rest ← each_item each path (index + 1) vs
  ok (cons j rest)

-- The items of a Mapping, put into the result one after the other.
unfoldable pub each_member :
    (Value → Text → Result Json) → Text → Members → List (Value × Value) → Result Members
each_member each path result [] = ok result
each_member each path result ((Value.str key, v) ∷ items) = do
  refuse_if (not (is_unicode key)) (invalid_unicode path)
  j ← each v (child_key path key)
  each_member each path (put key j result) items
each_member each path result ((Value.null, v) ∷ items) =
    raise (Error.validation (non_string_key path))
each_member each path result ((_, v) ∷ items) = raise (Error.validation (non_string_key path))

contents : (Value → Text → Result Json) → Text → Node → Result Json
unfolding each_item each_member
contents each path (mapping items) = do ms ← each_member each path end items; ok (obj ms)
contents each path (sequence items) = do xs ← each_item each path 0 items; ok (arr xs)
contents each path opaque = invalid path

is_container : Node → Bool
is_container (mapping items) = true
is_container (sequence items) = true
is_container opaque = false

module _ (to_float : Conversion) (heap : Heap) where
  -- _normalize at depth `max_depth + 1 - room`: with no room left the depth exceeds the limit. The
  -- addresses in `ancestors` are those that `finally` takes out again.
  unfoldable pub normalize : ℕ → List ℕ → Value → Text → Result Json
  unfolding check_float check_str check_int contents is_container
  normalize zero ancestors v path = raise (Error.validation (too_deep path))
  normalize (suc room) ancestors Value.null path = ok Json.null
  normalize (suc room) ancestors (Value.bool b) path = ok (Json.bool b)
  normalize (suc room) ancestors (Value.str t) path = check_str path t
  normalize (suc room) ancestors (Value.int z) path = check_int path z
  normalize (suc room) ancestors (Value.float f) path = check_float path f
  normalize (suc room) ancestors (Value.decimal signalling) path = invalid path
  normalize (suc room) ancestors (Value.decimal special) path = invalid path
  normalize (suc room) ancestors (Value.decimal (digits s c e)) path =
      check_float path (to_float s c e)
  normalize (suc room) ancestors (Value.datetime m) path = invalid path
  normalize (suc room) ancestors (Value.object a) path =
      if is_container (heap a) && elem a ancestors
      then raise (Error.validation (cyclic path))
      else contents (normalize room (a ∷ ancestors)) path (heap a)
  normalize (suc room) ancestors Value.other path = invalid path

  -- The call that `build_body` makes.
  unfoldable pub normalize_properties : Value → Result Json
  unfolding normalize
  normalize_properties v = normalize (max_depth + 1) [] v (codes "properties")
