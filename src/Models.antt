-- ===== src/Models.antt =====
-- python/src/cekat_event_sdk/models.py. The fields of an Event are checked when it is sent, so each
-- holds any value; an argument that is no Event is `none`.
use cekat_event_sdk.Base.{ℕ, Text, Bool, List}
use cekat_event_sdk.Objects.{Value}

pub record Event : Type 0 where
  pub email : Value
  pub phone_number : Value
  pub contact_name : Value
  pub visitor_id : Value
  pub properties : Value
  pub event_id : Value
  pub occurred_at : Value

pub record Acknowledgement : Type 0 where
  pub success : Bool
  pub message : Text
  pub event_key : Text
  pub validated_properties : List Text
  pub raw_body : List ℕ
