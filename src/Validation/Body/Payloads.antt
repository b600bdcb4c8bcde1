-- ===== src/Validation/Body/Payloads.antt =====
-- The members of an accepted event's payload.
use mathlib.Core.Path.{subst}
use cekat_event_sdk.Base.{
  ◌≡◌, refl, ap, sym, ◌∙◌, Text, Bool, true, false, ◌&&◌, Option, none, some, ◌<|>◌, codes, strip,
  is_empty,
}
use cekat_event_sdk.Errors.{Reason, ok, >>=-eq-ok, refuse_if}
use cekat_event_sdk.Objects.{Value, Heap}
use cekat_event_sdk.Models.{Event}
use cekat_event_sdk.Context.{normalize_visitor_id, optional}
use cekat_event_sdk.Timestamps.{Clock, occurred_at}
use cekat_event_sdk.Json.{Json, Members, get}
use cekat_event_sdk.Validation.Config.{require_text}
use cekat_event_sdk.Validation.Config.Texts.{require_text-ok}
use cekat_event_sdk.Validation.Properties.{Conversion}
use cekat_event_sdk.Validation.Body.{
  check_field, is_blank, text_or, members_of, properties_json, payload, event_body, build_payload,
}
use cekat_event_sdk.Validation.Body.Lookups.{
  as_json, get-email, get-phone_number, get-contact_name, get-visitor_id, get-properties,
}
use cekat_event_sdk.Validation.Body.Fields.{
  IsField, check_field-ok, IsPropertiesOf, properties_json-ok,
}

refuse_if-identity : (b : Bool) → refuse_if b Reason.identity ≡ ok tt → b ≡ false
refuse_if-identity true e = cc
refuse_if-identity false e = refl

-- What the payload of an accepted event holds.
pub record IsPayload (to_float : Conversion) (heap : Heap) (event_key : Value) (is_common : Bool)
    (event : Option Event) (ambient : Option Text) (clock : Clock) (new_event_id : Text)
    (ms : Members) : Type 0 where
  pub e : Event
  pub key : Text
  pub at : Text
  pub given : event ≡ some e
  pub key_text : event_key ≡ Value.str key
  pub not_blank : is_empty (strip key) ≡ false
  pub email : Option Text
  pub phone : Option Text
  pub name : Option Text
  pub visitor : Option Text
  pub id : Option Text
  pub email_text : IsField e.email email
  pub phone_text : IsField e.phone_number phone
  pub name_text : IsField e.contact_name name
  pub visitor_text : IsField e.visitor_id visitor
  pub id_text : IsField e.event_id id
  pub identified : is_blank email && is_blank phone ≡ false
  pub at_text : occurred_at e.occurred_at clock ≡ ok at
  pub has_key : get (codes "event_key") ms ≡ some (Json.str key)
  pub has_id :
      get (codes "event_id") ms
      ≡ some (Json.str (text_or (normalize_visitor_id e.event_id) new_event_id))
  pub has_at : get (codes "occurred_at") ms ≡ some (Json.str at)
  pub has_common : get (codes "is_common") ms ≡ some (Json.bool is_common)
  pub has_email : get (codes "email") ms ≡ as_json email
  pub has_phone : get (codes "phone_number") ms ≡ as_json phone
  pub has_name : get (codes "contact_name") ms ≡ as_json name
  pub has_visitor :
      get (codes "visitor_id") ms
      ≡ as_json (normalize_visitor_id e.visitor_id <|> normalize_visitor_id (optional ambient))
  pub has_properties : IsPropertiesOf to_float heap e.properties (get (codes "properties") ms)

module _ (to_float : Conversion) (heap : Heap) (event_key : Value) (is_common : Bool)
    (ambient : Option Text) (clock : Clock) (new_event_id : Text) (ms : Members) where
  members-IsPayload :
      (e : Event) (key at : Text) (email phone name visitor_id event_id : Option Text)
      (properties : Option Json)
      → event_key ≡ Value.str key
      → is_empty (strip key) ≡ false
      → IsField e.email email
      → IsField e.phone_number phone
      → IsField e.contact_name name
      → IsField e.visitor_id visitor_id
      → IsField e.event_id event_id
      → is_blank email && is_blank phone ≡ false
      → occurred_at e.occurred_at clock ≡ ok at
      → properties_json to_float heap e.properties ≡ ok properties
      → members_of key
          (text_or (normalize_visitor_id e.event_id) new_event_id)
          at
          is_common
          email
          phone
          name
          (normalize_visitor_id e.visitor_id <|> normalize_visitor_id (optional ambient))
          properties
        ≡ ms
      → IsPayload to_float heap event_key is_common (some e) ambient clock new_event_id ms
  unfolding get
  members-IsPayload e key at email phone name visitor_id event_id properties key_text not_blank
        email_text phone_text name_text visitor_text id_text known at_text properties_ok same =
      let id = text_or (normalize_visitor_id e.event_id) new_event_id in
      let visitor = normalize_visitor_id e.visitor_id <|> normalize_visitor_id (optional ambient) in
      let moved : (k : Text)
          → get k (members_of key id at is_common email phone name visitor properties) ≡ get k ms =
        λ k. ap (get k) same in
      record {
        e = e;
        key = key;
        at = at;
        given = refl;
        key_text = key_text;
        not_blank = not_blank;
        email = email;
        phone = phone;
        name = name;
        visitor = visitor_id;
        id = event_id;
        email_text = email_text;
        phone_text = phone_text;
        name_text = name_text;
        visitor_text = visitor_text;
        id_text = id_text;
        identified = known;
        at_text = at_text;
        has_key = sym (moved _);
        has_id = sym (moved _);
        has_at = sym (moved _);
        has_common = sym (moved _);
        has_email =
            sym (moved _) ∙ get-email key id at is_common email phone name visitor properties;
        has_phone =
            sym (moved _)
            ∙ get-phone_number key id at is_common email phone name visitor properties;
        has_name =
            sym (moved _)
            ∙ get-contact_name key id at is_common email phone name visitor properties;
        has_visitor =
            sym (moved _) ∙ get-visitor_id key id at is_common email phone name visitor properties;
        has_properties =
            subst (IsPropertiesOf to_float heap e.properties)
              (sym (get-properties key id at is_common email phone name visitor properties)
                ∙ moved _)
              (properties_json-ok to_float heap e.properties properties properties_ok);
      }

  ok_same : (a b : Members) → ok a ≡ ok b → a ≡ b
  ok_same a b e = cc

  event_body-ok :
      (e : Event) (key : Text)
      → event_key ≡ Value.str key
      → is_empty (strip key) ≡ false
      → event_body to_float heap key is_common (some e) ambient clock new_event_id ≡ ok ms
      → IsPayload to_float heap event_key is_common (some e) ambient clock new_event_id ms
  unfolding event_body payload
  event_body-ok e key key_text not_blank h =
      let (email, email_ok, h1) = >>=-eq-ok (check_field (codes "email") e.email) _ h in
      let (phone, phone_ok, h2) =
        >>=-eq-ok (check_field (codes "phone_number") e.phone_number) _ h1 in
      let (name, name_ok, h3) =
        >>=-eq-ok (check_field (codes "contact_name") e.contact_name) _ h2 in
      let (visitor, visitor_ok, h4) =
        >>=-eq-ok (check_field (codes "visitor_id") e.visitor_id) _ h3 in
      let (id, id_ok, h5) = >>=-eq-ok (check_field (codes "event_id") e.event_id) _ h4 in
      let (_, known, h6) =
        >>=-eq-ok (refuse_if (is_blank email && is_blank phone) Reason.identity) _ h5 in
      let (at, at_text, h7) = >>=-eq-ok (occurred_at e.occurred_at clock) _ h6 in
      let (properties, properties_ok, h8) =
        >>=-eq-ok (properties_json to_float heap e.properties) _ h7 in
      members-IsPayload e key at email phone name visitor id properties key_text not_blank
        (check_field-ok _ _ _ email_ok) (check_field-ok _ _ _ phone_ok)
        (check_field-ok _ _ _ name_ok) (check_field-ok _ _ _ visitor_ok)
        (check_field-ok _ _ _ id_ok) (refuse_if-identity _ known) at_text properties_ok
        (ok_same _ _ h8)

  -- An accepted event has a key that is a text and not blank; its email, phone number, name, visitor
  -- ID and event ID are each None or a text, and the email or the phone number is not blank.
  -- Its payload has the key; the event ID, the new one where the caller gives none; the time; the
  -- flag; the texts that are given; the visitor ID of the event, or else the one of the scope; and
  -- the document that the properties represent, which are None or a Mapping.
  pub build_payload-IsPayload :
      (event : Option Event)
      → build_payload to_float heap event_key is_common event ambient clock new_event_id ≡ ok ms
      → IsPayload to_float heap event_key is_common event ambient clock new_event_id ms
  unfolding build_payload event_body
  build_payload-IsPayload none h =
      let (key, key_ok, h1) = >>=-eq-ok (require_text Reason.event_key event_key) _ h in cc
  build_payload-IsPayload (some e) h =
      let (key, key_ok, h1) = >>=-eq-ok (require_text Reason.event_key event_key) _ h in
      let (key_text, not_blank) = require_text-ok Reason.event_key event_key key key_ok in
      event_body-ok e key key_text not_blank h1
