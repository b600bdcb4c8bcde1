-- ===== src/Validation/Properties/Sound.antt =====
-- A document that `normalize` returns is the one that represents the value.
use cekat_event_sdk.Base.{
  ℕ, zero, suc, ◌+◌, ◌≡◌, refl, magnitude, Float, Text, true, ◌&&◌, List, [], ◌∷◌, leb, is_unicode,
  arith, Bool-cases, inl, inr,
}
use cekat_event_sdk.Errors.{Result, ok, raise, >>=-eq-ok}
use cekat_event_sdk.Objects.{
  Value, signalling, special, digits, Node, mapping, sequence, opaque, Heap,
}
use cekat_event_sdk.Json.{Json, arr, obj, Items, nil, cons, Members, end, put}
use cekat_event_sdk.Validation.Properties.{
  Conversion, max_safe_integer, is_safe_float, elem, invalid, child_key, child_index, check_float,
  each_item, each_member, contents, is_container, normalize,
}
use cekat_event_sdk.Validation.Properties.Represents.{
  Represents, a_null, a_bool, a_str, an_int, a_float, a_decimal, a_list, a_dict, ItemsOf, no_items,
  next_item, MembersOf, no_members, next_member,
}

module _ (to_float : Conversion) (heap : Heap) where
  module _ (n : ℕ) (each : Value → Text → Result Json)
      (sound : (v : Value) (path : Text) (j : Json)
        → each v path ≡ ok j
        → Represents to_float heap n v j) where
    each_item_sound :
        (path : Text) (i : ℕ) (vs : List Value) (xs : Items)
        → each_item each path i vs ≡ ok xs
        → ItemsOf to_float heap n vs xs
    unfolding each_item
    each_item_sound path i [] nil e = no_items
    each_item_sound path i [] (cons x xs) e = cc
    each_item_sound path i (v ∷ vs) xs e =
        let (j, here, e') = >>=-eq-ok (each v (child_index path i)) _ e in
        let (rest, there, e'') = >>=-eq-ok (each_item each path (i + 1) vs) _ e' in
        let same : cons j rest ≡ xs = ground arith in
        rw (← same) (
          next_item (sound v (child_index path i) j here)
            (each_item_sound path (i + 1) vs rest there))

    each_member_sound :
        (path : Text) (before : Members) (items : List (Value × Value)) (ms : Members)
        → each_member each path before items ≡ ok ms
        → MembersOf to_float heap n before items ms
    unfolding each_member
    each_member_sound path before [] ms e =
        let same : before ≡ ms = ground arith in rw (← same) no_members
    each_member_sound path before ((Value.str key, v) ∷ items) ms e =
        elim (Bool-cases (is_unicode key)) [
          | inl u ↦
              let (j, here, e') = >>=-eq-ok (each v (child_key path key)) _ (rw u at e) in
              next_member u (sound v (child_key path key) j here)
                (each_member_sound path (put key j before) items ms e')
          | inr u ↦ absurd (let e' : raise _ ≡ ok ms = rw u at e in cc)
        ]
    each_member_sound path before ((Value.null, v) ∷ items) ms e = cc
    each_member_sound path before ((_, v) ∷ items) ms e = cc

    contents_sound :
        (a : ℕ) (path : Text) (node : Node) (j : Json)
        → heap a ≡ node
        → contents each path node ≡ ok j
        → Represents to_float heap (suc n) (Value.object a) j
    unfolding contents
    contents_sound a path (mapping items) j h e =
        let (ms, done, e') = >>=-eq-ok (each_member each path end items) _ e in
        let same : obj ms ≡ j = ground arith in
        rw (← same) (a_dict h (each_member_sound path end items ms done))
    contents_sound a path (sequence items) j h e =
        let (xs, done, e') = >>=-eq-ok (each_item each path 0 items) _ e in
        let same : arr xs ≡ j = ground arith in
        rw (← same) (a_list h (each_item_sound path 0 items xs done))
    contents_sound a path opaque j h e = cc

  check_float-ok :
      (path : Text) (f : Float) (j : Json)
      → check_float path f ≡ ok j
      → (is_safe_float f ≡ true) × (Json.float f ≡ j)
  unfolding check_float
  check_float-ok path f j e = elim (Bool-cases (is_safe_float f)) [
    | inl s ↦ (s, let e' : ok (Json.float f) ≡ ok j = rw s at e in ground arith)
    | inr s ↦ absurd (let e' : invalid path ≡ ok j = rw s at e in cc)
  ]

  pub normalize_sound :
      (room : ℕ) (ancestors : List ℕ) (v : Value) (path : Text) (j : Json)
      → normalize to_float heap room ancestors v path ≡ ok j
      → Represents to_float heap room v j
  unfolding normalize
  normalize_sound zero ancestors v path j e = cc
  normalize_sound (suc room) ancestors Value.null path j e =
      let same : Json.null ≡ j = ground arith in rw (← same) a_null
  normalize_sound (suc room) ancestors (Value.bool b) path j e =
      let same : Json.bool b ≡ j = ground arith in rw (← same) a_bool
  normalize_sound (suc room) ancestors (Value.str t) path j e = elim (Bool-cases (is_unicode t)) [
    | inl u ↦ let same : Json.str t ≡ j = ground arith in rw (← same) (a_str u)
    | inr u ↦ absurd (ground arith)
  ]
  normalize_sound (suc room) ancestors (Value.int z) path j e =
      elim (Bool-cases (leb (magnitude z) max_safe_integer)) [
        | inl u ↦ let same : Json.int z ≡ j = ground arith in rw (← same) (an_int (ground arith))
        | inr u ↦ absurd (ground arith)
      ]
  normalize_sound (suc room) ancestors (Value.float f) path j e =
      let (s, same) = check_float-ok path f j e in rw (← same) (a_float s)
  normalize_sound (suc room) ancestors (Value.decimal signalling) path j e = cc
  normalize_sound (suc room) ancestors (Value.decimal special) path j e = cc
  normalize_sound (suc room) ancestors (Value.decimal (digits s c x)) path j e =
      let (safe, same) = check_float-ok path (to_float s c x) j e in rw (← same) (a_decimal safe)
  normalize_sound (suc room) ancestors (Value.datetime m) path j e = cc
  normalize_sound (suc room) ancestors (Value.object a) path j e =
      elim (Bool-cases (is_container (heap a) && elem a ancestors)) [
        | inl cycle ↦ absurd (let e' : raise _ ≡ ok j = rw cycle at e in cc)
        | inr free ↦
            contents_sound room (normalize to_float heap room (a ∷ ancestors))
              (normalize_sound room (a ∷ ancestors)) a path (heap a) j refl (rw free at e)
      ]
  normalize_sound (suc room) ancestors Value.other path j e = cc
