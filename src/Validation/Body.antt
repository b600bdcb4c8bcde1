-- ===== src/Validation/Body.antt =====
-- build_body of python/src/cekat_event_sdk/validation.py: an event is checked and becomes the
-- bytes of a request.
pub mod Lookups
pub mod Fields
pub mod Payloads
use cekat_event_sdk.Base.{
  ℕ, Float, Text, Bool, true, false, ◌&&◌, ◌||◌, not, Option, none, some, List, [], ◌∷◌, ◌++◌,
  ◌<|>◌, if◌then◌else◌, codes, strip, is_empty, encode,
}
use cekat_event_sdk.Errors.{Reason, field_type, Error, Result, ok, raise, ◌>>=◌, ◌>>◌, refuse_if}
use cekat_event_sdk.Objects.{Value, Node, mapping, sequence, opaque, Heap}
use cekat_event_sdk.Models.{Event}
use cekat_event_sdk.Context.{normalize_visitor_id, optional}
use cekat_event_sdk.Timestamps.{Clock, occurred_at}
use cekat_event_sdk.Json.{Json, Members, end, member}
use cekat_event_sdk.Json.Dumps.{dumps}
use cekat_event_sdk.Validation.Config.{require_text}
use cekat_event_sdk.Validation.Properties.{Conversion, normalize_properties}

-- One round of the loop over the fields: None or a string, which is returned.
unfoldable pub check_field : Text → Value → Result (Option Text)
check_field field Value.null = ok none
check_field field (Value.str t) = ok (some t)
check_field field _ = raise (Error.validation (field_type field))

-- `(text or "").strip()` is empty
abbrev pub is_blank : Option Text → Bool
is_blank none = true
is_blank (some t) = is_empty (strip t)

abbrev pub text_or : Option Text → Text → Text
text_or none default = default
text_or (some t) default = t

-- `if value is not None: payload[name] = value`, in front of the members that follow.
abbrev pub with_text : Text → Option Text → Members → Members
with_text name none rest = rest
with_text name (some t) rest = member name (Json.str t) rest

abbrev pub with_json : Text → Option Json → Members → Members
with_json name none rest = rest
with_json name (some j) rest = member name j rest

-- The dict, in the order in which its members are added.
abbrev pub members_of :
    (event_key event_id at : Text) (is_common : Bool) (email phone name visitor_id : Option Text)
    (properties : Option Json)
    → Members
members_of event_key event_id at is_common email phone name visitor_id properties =
    member (codes "event_key") (Json.str event_key) (
      member (codes "event_id") (Json.str event_id) (
        member (codes "occurred_at") (Json.str at) (
          member (codes "is_common") (Json.bool is_common) (
            with_text (codes "email") email (
              with_text (codes "phone_number") phone (
                with_text (codes "contact_name") name (
                  with_text (codes "visitor_id") visitor_id
                    (with_json (codes "properties") properties end))))))))

unfoldable pub some_json : Result Json → Result (Option Json)
some_json r = do j ← r; ok (some j)

module _ (to_float : Conversion) (heap : Heap) where
  unfoldable pub node_json : Value → Node → Result (Option Json)
  unfolding some_json
  node_json v (mapping items) = some_json (normalize_properties to_float heap v)
  node_json v (sequence items) = raise (Error.validation Reason.properties_type)
  node_json v opaque = raise (Error.validation Reason.properties_type)

  -- None, or a Mapping that is normalised.
  unfoldable pub properties_json : Value → Result (Option Json)
  unfolding node_json
  properties_json Value.null = ok none
  properties_json (Value.object a) = node_json (Value.object a) (heap a)
  properties_json _ = raise (Error.validation Reason.properties_type)

  abbrev pub encoded : Option (List ℕ) → Result (List ℕ)
  encoded none = raise (Error.validation Reason.not_encodable)
  encoded (some bytes) = ok bytes

  -- The payload of an event that passed the checks on its fields.
  unfoldable pub payload :
      Text
      → Bool
      → Event
      → Option Text
      → Clock
      → Text
      → (email phone name : Option Text) → Result Members
  unfolding properties_json normalize_visitor_id
  payload event_key is_common e ambient clock new_event_id email phone name = do
    at ← occurred_at e.occurred_at clock
    properties ← properties_json e.properties
    ok (
        members_of event_key (text_or (normalize_visitor_id e.event_id) new_event_id) at is_common
          email phone name
          (normalize_visitor_id e.visitor_id <|> normalize_visitor_id (optional ambient))
          properties)

  unfoldable pub event_body :
      Text → Bool → Option Event → Option Text → Clock → Text → Result Members
  unfolding check_field payload
  event_body event_key is_common none ambient clock new_event_id =
      raise (Error.validation Reason.event_type)
  event_body event_key is_common (some e) ambient clock new_event_id = do
    email ← check_field (codes "email") e.email
    phone ← check_field (codes "phone_number") e.phone_number
    name ← check_field (codes "contact_name") e.contact_name
    check_field (codes "visitor_id") e.visitor_id >>= λ _.
        check_field (codes "event_id") e.event_id >>= λ _.
        refuse_if (is_blank email && is_blank phone) Reason.identity
        >> payload event_key is_common e ambient clock new_event_id email phone name

  -- The checked members of the payload, before they are printed.
  unfoldable pub build_payload :
      Value → Bool → Option Event → Option Text → Clock → Text → Result Members
  unfolding require_text event_body
  build_payload event_key is_common event ambient clock new_event_id = do
    key ← require_text Reason.event_key event_key
    event_body key is_common event ambient clock new_event_id

  module _ (float_repr : Float → Text) where
    unfoldable pub build_body :
        Value → Bool → Option Event → Option Text → Clock → Text → Result (List ℕ)
    unfolding build_payload
    build_body event_key is_common event ambient clock new_event_id = do
      members ← build_payload event_key is_common event ambient clock new_event_id
      encoded (encode (dumps float_repr (Json.obj members)))
