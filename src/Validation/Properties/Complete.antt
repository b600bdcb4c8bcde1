-- ===== src/Validation/Properties/Complete.antt =====
-- Every value that a document represents is normalised to it: no order of visits, and no sharing
-- of one object in several places, is taken for a cycle.
use cekat_event_sdk.Base.{
  ℕ, zero, suc, ◌+◌, ◌<◌, ◌≡◌, ◌↔◌, refl, sym, ◌∙◌, Text, true, false, List, [], ◌∷◌, le→leb, ◌==◌,
  ==_iff, arith, codes, Bool-cases, inl, inr, All,
}
use cekat_event_sdk.Errors.{Result, ok}
use cekat_event_sdk.Objects.{Value, mapping, sequence, Heap}
use cekat_event_sdk.Json.{Json, Items, Members, end, put}
use cekat_event_sdk.Validation.Properties.{
  Conversion, max_depth, elem, child_key, child_index, each_item, each_member, normalize,
  normalize_properties,
}
use cekat_event_sdk.Validation.Properties.Represents.{
  Represents, a_null, a_bool, a_str, an_int, a_float, a_decimal, a_list, a_dict, ItemsOf, no_items,
  next_item, MembersOf, no_members, next_member,
}
use cekat_event_sdk.Validation.Properties.Sound.{normalize_sound}

same_items : (xs ys : List Value) → sequence xs ≡ sequence ys → xs ≡ ys
same_items xs ys e = cc

same_entries : (xs ys : List (Value × Value)) → mapping xs ≡ mapping ys → xs ≡ ys
same_entries xs ys e = cc

module _ (to_float : Conversion) (heap : Heap) where
  -- The value has a document within this room.
  abbrev Has : ℕ → Value → Type 0
  Has n v = (j : Json) × Represents to_float heap n v j

  -- Wherever `a` has a document, `v` has one with less room: `v` lies below `a`.
  abbrev Below : ℕ → Value → Type 0
  Below a v = (m : ℕ) → Has m (Value.object a) → (k : ℕ) × (k < m) × Has k v

  -- Nothing that has a document lies below itself: room would fall for ever.
  not-Below-self : (fuel m a : ℕ) → m < fuel → Below a (Value.object a) → ¬ (Has m (Value.object a))
  not-Below-self zero m a h b r = elim h [ ]
  not-Below-self (suc fuel) m a h b r =
      let (k, less, r') = b m r in not-Below-self fuel k a (omega arith) b r'

  Below-trans : (a b : ℕ) (v : Value) → Below a (Value.object b) → Below b v → Below a v
  Below-trans a b v p q m r =
      let (k, less, r') = p m r in let (l, less', r'') = q k r' in (l, omega arith, r'')

  All-Has : {n : ℕ} {vs : List Value} {xs : Items} → ItemsOf to_float heap n vs xs → All (Has n) vs
  All-Has no_items = tt
  All-Has (next_item {j = j} r rs) = ((j, r), All-Has rs)

  All-Has_members :
      {n : ℕ} {before ms : Members} {items : List (Value × Value)}
      → MembersOf to_float heap n before items ms
      → All (λ item. Has n item.1) items
  All-Has_members no_members = tt
  All-Has_members (next_member {j = j} u r rs) = ((j, r), All-Has_members rs)

  -- The items of a list, and of a mapping, have less room than it.
  items-Has :
      {a m : ℕ} {vs : List Value} {j : Json}
      → heap a ≡ sequence vs
      → Represents to_float heap m (Value.object a) j
      → (k : ℕ) × (k < m) × All (Has k) vs
  items-Has {vs = vs} h (a_list {n} {vs = ws} h' rs) =
      let same : ws ≡ vs = same_items ws vs (sym h' ∙ h) in
      (n, omega arith, rw (← same) (All-Has rs))
  items-Has {vs = vs} h (a_dict {items = items} h' rs) =
      absurd (let e : sequence vs ≡ mapping items = sym h ∙ h' in cc)

  entries-Has :
      {a m : ℕ} {items : List (Value × Value)} {j : Json}
      → heap a ≡ mapping items
      → Represents to_float heap m (Value.object a) j
      → (k : ℕ) × (k < m) × All (λ item. Has k item.1) items
  entries-Has {items = items} h (a_dict {n} {items = others} h' rs) =
      let same : others ≡ items = same_entries others items (sym h' ∙ h) in
      (n, omega arith, rw (← same) (All-Has_members rs))
  entries-Has {items = items} h (a_list {vs = vs} h' rs) =
      absurd (let e : mapping items ≡ sequence vs = sym h ∙ h' in cc)

  All-Below :
      {A : Type 0} (value : A → Value) (a : ℕ) (vs : List A)
      → ((m : ℕ) → Has m (Value.object a) → (k : ℕ) × (k < m) × All (λ v. Has k (value v)) vs)
      → All (λ v. Below a (value v)) vs
  All-Below value a [] f = tt
  All-Below value a (v ∷ vs) f = (
    λ m r. let (k, less, hs) = f m r in (k, less, hs.0),
    All-Below value a vs (λ m r. let (k, less, hs) = f m r in (k, less, hs.1)),
  )

  -- The value lies below each of the ancestors.
  abbrev BelowAll : List ℕ → Value → Type 0
  BelowAll ancestors v = All (λ a. Below a v) ancestors

  Below-elem :
      (a : ℕ) (ancestors : List ℕ) (v : Value)
      → elem a ancestors ≡ true
      → BelowAll ancestors v
      → Below a v
  Below-elem a [] v e h = cc
  Below-elem a (b ∷ bs) v e (h, hs) = elim (Bool-cases (b == a)) [
    | inl same ↦ rw ((==_iff b a).0 same) at h
    | inr other ↦ Below-elem a bs v (rw other at e) hs
  ]

  BelowAll-trans :
      (ancestors : List ℕ) (b : ℕ) (v : Value)
      → BelowAll ancestors (Value.object b)
      → Below b v
      → BelowAll ancestors v
  BelowAll-trans [] b v h k = tt
  BelowAll-trans (a ∷ ancestors) b v (h, hs) k =
      (Below-trans a b v h k, BelowAll-trans ancestors b v hs k)

  BelowAll-each :
      {A : Type 0} (value : A → Value) (ancestors : List ℕ) (b : ℕ) (vs : List A)
      → BelowAll ancestors (Value.object b)
      → All (λ v. Below b (value v)) vs
      → All (λ v. BelowAll (b ∷ ancestors) (value v)) vs
  BelowAll-each value ancestors b [] h k = tt
  BelowAll-each value ancestors b (v ∷ vs) h (k, ks) =
      ((k, BelowAll-trans ancestors b (value v) h k), BelowAll-each value ancestors b vs h ks)

  module _ (n : ℕ) (ancestors : List ℕ) (each : Value → Text → Result Json)
      (complete : (v : Value) (path : Text) (j : Json)
        → BelowAll ancestors v
        → Represents to_float heap n v j
        → each v path ≡ ok j) where
    each_item_complete :
        (path : Text) (i : ℕ) (vs : List Value) (xs : Items)
        → All (BelowAll ancestors) vs
        → ItemsOf to_float heap n vs xs
        → each_item each path i vs ≡ ok xs
    unfolding each_item
    each_item_complete path i [] xs b no_items = refl
    each_item_complete path i (v ∷ vs) xs (b, bs) (next_item {j = j} {xs = rest} r rs) =
        rw (complete v (child_index path i) j b r, each_item_complete path (i + 1) vs rest bs rs)

    each_member_complete :
        (path : Text) (before : Members) (items : List (Value × Value)) (ms : Members)
        → All (λ item. BelowAll ancestors item.1) items
        → MembersOf to_float heap n before items ms
        → each_member each path before items ≡ ok ms
    unfolding each_member
    each_member_complete path before [] ms b no_members = refl
    each_member_complete path before ((k, v) ∷ items) ms (b, bs)
          (next_member {key = key} {j = j} u r rs) =
        rw (u, complete v (child_key path key) j b r)
          (each_member_complete path (put key j before) items ms bs rs)

  -- What stands at the address of a value that has a document is no cycle.
  not-elem :
      {a m : ℕ} {j : Json} (ancestors : List ℕ)
      → BelowAll ancestors (Value.object a)
      → Represents to_float heap m (Value.object a) j
      → elem a ancestors ≡ false
  not-elem {a} {m} {j} ancestors b r = elim (Bool-cases (elem a ancestors)) [
    | inl cycle ↦ absurd (
        not-Below-self (suc m) m a (omega arith) (Below-elem a ancestors (Value.object a) cycle b)
          (j, r))
    | inr free ↦ free
  ]

  normalize_complete :
      (room : ℕ) (ancestors : List ℕ) (v : Value) (path : Text) (j : Json)
      → BelowAll ancestors v
      → Represents to_float heap room v j
      → normalize to_float heap room ancestors v path ≡ ok j
  unfolding normalize
  normalize_complete zero ancestors v path j b r = elim r [ ]
  normalize_complete (suc room) ancestors v path j b a_null = refl
  normalize_complete (suc room) ancestors v path j b a_bool = refl
  normalize_complete (suc room) ancestors v path j b (a_str u) = rw u
  normalize_complete (suc room) ancestors v path j b (an_int u) = rw (le→leb _ _ u)
  normalize_complete (suc room) ancestors v path j b (a_float u) = rw u
  normalize_complete (suc room) ancestors v path j b (a_decimal u) = rw u
  normalize_complete (suc room) ancestors v path j b (a_list {a = a} {vs = vs} {xs = xs} h rs) =
      rw (h, not-elem ancestors b (a_list h rs))
        (rw (
          each_item_complete room (a ∷ ancestors) (normalize to_float heap room (a ∷ ancestors))
            (normalize_complete room (a ∷ ancestors)) path 0 vs xs
            (BelowAll-each (λ v. v) ancestors a vs b
              (All-Below (λ v. v) a vs (λ m r. items-Has h r.1)))
            rs))
  normalize_complete (suc room) ancestors v path j b
        (a_dict {a = a} {items = items} {ms = ms} h rs) =
      rw (h, not-elem ancestors b (a_dict h rs))
        (rw (
          each_member_complete room (a ∷ ancestors) (normalize to_float heap room (a ∷ ancestors))
            (normalize_complete room (a ∷ ancestors)) path end items ms
            (BelowAll-each (λ (item : Value × Value). item.1) ancestors a items b
              (All-Below (λ (item : Value × Value). item.1) a items (λ m r. entries-Has h r.1)))
            rs))

  -- Properties are normalised to a document exactly when that document represents them, nested at
  -- most `max_depth` deep.
  pub normalize_properties_iff :
      (v : Value) (j : Json)
      → (normalize_properties to_float heap v ≡ ok j) ↔ Represents to_float heap (max_depth + 1) v j
  unfolding normalize_properties
  normalize_properties_iff v j = (
    normalize_sound to_float heap 257 [] v (codes "properties") j,
    normalize_complete 257 [] v (codes "properties") j tt,
  )
