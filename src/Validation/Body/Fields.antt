-- ===== src/Validation/Body/Fields.antt =====
-- What the fields and the properties of an event may be that build_body of
-- python/src/cekat_event_sdk/validation.py accepts.
use mathlib.Core.Path.{subst}
use cekat_event_sdk.Base.{ℕ, ◌+◌, List, ◌≡◌, refl, Text, Option, none, some}
use cekat_event_sdk.Errors.{Result, ok, raise}
use cekat_event_sdk.Objects.{Value, Node, mapping, sequence, opaque, Heap}
use cekat_event_sdk.Json.{Json}
use cekat_event_sdk.Validation.Properties.{Conversion, normalize_properties, max_depth}
use cekat_event_sdk.Validation.Properties.Represents.{Represents}
use cekat_event_sdk.Validation.Properties.Complete.{normalize_properties_iff}
use cekat_event_sdk.Validation.Body.{check_field, some_json, node_json, properties_json}

-- A field is None or a string, and what text it gives.
pub data IsField : Value → Option Text → Type 0 where
  absent : IsField Value.null none
  given : {t : Text} → IsField (Value.str t) (some t)

pub check_field-ok :
    (field : Text) (v : Value) (o : Option Text) → check_field field v ≡ ok o → IsField v o
unfolding check_field
check_field-ok field (Value.str t) o e =
    let same : some t ≡ o = cc in subst (IsField (Value.str t)) same given
check_field-ok field Value.null o e =
    let same : none ≡ o = cc in subst (IsField Value.null) same absent
check_field-ok field _ o e = cc

-- The properties are None, or a Mapping that a document represents.
pub data IsPropertiesOf (to_float : Conversion) (heap : Heap) : Value → Option Json → Type 0 where
  no_properties : IsPropertiesOf to_float heap Value.null none
  some_properties :
      {a : ℕ} {items : List (Value × Value)} {j : Json}
      → heap a ≡ mapping items
      → Represents to_float heap (max_depth + 1) (Value.object a) j
      → IsPropertiesOf to_float heap (Value.object a) (some j)

some_json-ok :
    (r : Result Json) (o : Option Json)
    → some_json r ≡ ok o
    → (j : Json) × (r ≡ ok j) × (some j ≡ o)
unfolding some_json
some_json-ok (ok j) o h = (j, refl, cc)
some_json-ok (raise e) o h = cc

module _ (to_float : Conversion) (heap : Heap) where
  node_json-ok :
      (a : ℕ) (n : Node) (o : Option Json)
      → heap a ≡ n
      → node_json to_float heap (Value.object a) n ≡ ok o
      → IsPropertiesOf to_float heap (Value.object a) o
  unfolding node_json
  node_json-ok a (mapping items) o e h =
      let (j, normal, same) =
        some_json-ok (normalize_properties to_float heap (Value.object a)) o h in
      subst (IsPropertiesOf to_float heap (Value.object a)) same
        (some_properties e ((normalize_properties_iff to_float heap (Value.object a) j).0 normal))
  node_json-ok a (sequence items) o e h = cc
  node_json-ok a opaque o e h = cc

  pub properties_json-ok :
      (v : Value) (o : Option Json)
      → properties_json to_float heap v ≡ ok o
      → IsPropertiesOf to_float heap v o
  unfolding properties_json
  properties_json-ok Value.null o h =
      let same : none ≡ o = cc in subst (IsPropertiesOf to_float heap Value.null) same no_properties
  properties_json-ok (Value.object a) o h = node_json-ok a (heap a) o refl h
  properties_json-ok _ o h = cc
