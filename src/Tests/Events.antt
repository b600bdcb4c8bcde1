-- ===== src/Tests/Events.antt =====
-- Events, their payloads and the calls of a client at concrete inputs.
use cekat_event_sdk.Base.{
  ℤ, ℕ, zero, suc, ◌+◌, ◌≤◌, ◌≡◌, ◌↔◌, ◌⊎◌, refl, partition, lower, Float, Text, Bool, true, false,
  none, some, List, [], ◌∷◌, codes, strip, All,
}
use cekat_event_sdk.Errors.{Error, Result, ok, raise}
use cekat_event_sdk.Objects.{Value, mapping, sequence, opaque, Heap}
use cekat_event_sdk.Json.{Json, put, Members, end, member, nil, cons}
use cekat_event_sdk.Validation.Config.{
  validate_access_token, validate_timeout, validate_retry_count,
}
use cekat_event_sdk.Validation.Origin.{normalize_origin, has_forbidden}
use cekat_event_sdk.Timestamps.{Clock, occurred_at, timestamp}
use cekat_event_sdk.Models.{Event}
use cekat_event_sdk.Validation.Properties.{Conversion, normalize_properties, max_depth}
use cekat_event_sdk.Validation.Properties.Represents.{Represents}
use cekat_event_sdk.Validation.Properties.Complete.{normalize_properties_iff}
use cekat_event_sdk.Validation.Order.{with_order_paid_properties, has_key, store, Placed}
use cekat_event_sdk.Validation.Order.Laws.{IsOrder, with_order_paid_properties-IsOrder}
use cekat_event_sdk.Validation.Body.{build_payload}
use cekat_event_sdk.Validation.Body.Payloads.{IsPayload, build_payload-IsPayload}
use cekat_event_sdk.Models.{Acknowledgement}
use cekat_event_sdk.Shared.{Settings, create, request_headers}
use cekat_event_sdk.Client.{Effect, blocking}
use cekat_event_sdk.Client.Attempts.{request_count, IsRequest}
use cekat_event_sdk.Api.{
  Call, Moments, request_body, submit, HttpClient, Handle, init, close, aclose,
}
use cekat_event_sdk.Api.Bodies.{IsBodyOf}
use cekat_event_sdk.Api.Calls.{submit_total, init-close}
use cekat_event_sdk.Tests.Clients.{lib, s, env, now}

abbrev to_float : Conversion
to_float negative coefficient exponent = Float.finite negative coefficient 0

-- At 0, {"plan": "pro", "seats": object 1}; at 1, [3, null].
abbrev heap : Heap
heap zero = mapping (
    (Value.str (codes "plan"), Value.str (codes "pro"))
    ∷ (Value.str (codes "seats"), Value.object 1)
    ∷ [])
heap (suc zero) = sequence (Value.int (ℤ.pos 3) ∷ Value.null ∷ [])
heap (suc (suc n)) = opaque

abbrev properties : Json
properties = Json.obj (
    member (codes "plan") (Json.str (codes "pro"))
      (member (codes "seats") (Json.arr (cons (Json.int (ℤ.pos 3)) (cons Json.null nil))) end))

normalize_properties_iff_example :
    (normalize_properties to_float heap (Value.object 0) ≡ ok properties)
    ↔ Represents to_float heap (max_depth + 1) (Value.object 0) properties
normalize_properties_iff_example =
    normalize_properties_iff to_float heap (Value.object 0) properties

abbrev event : Event
event = record {
  email = Value.str (codes "a@b.co");
  phone_number = Value.null;
  contact_name = Value.null;
  visitor_id = Value.str (codes " v1 ");
  properties = Value.object 0;
  event_id = Value.null;
  occurred_at = Value.null;
}

abbrev amount : Value
amount = Value.int (ℤ.pos 100)

abbrev currency : Value
currency = Value.str (codes "IDR")

abbrev placed : Placed
placed = record {
  event = record event { properties = Value.object 7 };
  heap = store heap 7 (
      mapping (
        (Value.str (codes "plan"), Value.str (codes "pro"))
        ∷ (Value.str (codes "seats"), Value.object 1)
        ∷ (Value.str (codes "amount"), amount)
        ∷ (Value.str (codes "currency"), currency)
        ∷ []));
}

order_placed : with_order_paid_properties to_float heap 7 amount currency (some event) ≡ ok placed
unfolding with_order_paid_properties strip has_key
order_placed = refl

with_order_paid_properties-IsOrder_example : IsOrder heap 7 amount currency (some event) placed
with_order_paid_properties-IsOrder_example =
    with_order_paid_properties-IsOrder to_float heap 7 amount currency (some event) placed
      order_placed

abbrev clock : Clock
clock = record { now = now; pads_years = true }

abbrev members : Members
members = member (codes "event_key") (Json.str (codes "user_login")) (
    member (codes "event_id") (Json.str (codes "id-1")) (
      member (codes "occurred_at") (Json.str (codes "0001-01-01T00:00:00.000Z")) (
        member (codes "is_common") (Json.bool true) (
          member (codes "email") (Json.str (codes "a@b.co")) (
            member (codes "visitor_id") (Json.str (codes "v1"))
              (member (codes "properties") properties end))))))

built :
    build_payload to_float heap
      (Value.str (codes "user_login"))
      true
      (some event)
      none
      clock
      (codes "id-1")
    ≡ ok members
unfolding build_payload strip occurred_at normalize_properties timestamp put
built = refl

build_payload-IsPayload_example :
    IsPayload to_float heap
      (Value.str (codes "user_login"))
      true
      (some event)
      none
      clock
      (codes "id-1")
      members
build_payload-IsPayload_example =
    build_payload-IsPayload to_float heap (Value.str (codes "user_login")) true none clock
      (codes "id-1") members (some event) built

abbrev at : Moments
at = record { heap = heap; fresh = 7; visitor = none; clock = clock; new_event_id = codes "id-1" }

abbrev no_repr : Float → Text
no_repr f = codes "0.0"

abbrev order : Call
order = Call.order_paid amount currency (some event)

submit_total_example :
    ((e : Error) × (request_body to_float no_repr at order ≡ raise e)
      × (submit to_float no_repr at lib s env blocking order ≡ ([], some (raise e))))
    ⊎ ((body : List ℕ) × (es : List Effect) × (x : Result Acknowledgement) × (request_body to_float
            no_repr at order
          ≡ ok body)
        × IsBodyOf to_float no_repr at order body
        × (submit to_float no_repr at lib s env blocking order ≡ (es, some x))
        × (1 ≤ request_count es)
        × (request_count es ≤ s.retry_count + 1)
        × All (IsRequest s body) es)
submit_total_example = submit_total to_float no_repr at lib s env blocking order

abbrev same_text : Text → Text
same_text t = t

abbrev no_brackets : Text → Bool
no_brackets t = false

abbrev any_nfkc : Text → Bool
any_nfkc t = true

abbrev token : Value
token = Value.str (codes "t")

abbrev base_url : Value
base_url = Value.str (codes "https://T.cekat.ai/")

abbrev timeout : Value
timeout = Value.int (ℤ.pos 3)

abbrev retries : Value
retries = Value.int (ℤ.pos 2)

abbrev user_agent : Text
user_agent = codes "cekat-event-sdk-python/1.0.0"

abbrev settings : Settings
settings = record {
  url = codes "https://t.cekat.ai/api/events/ingest";
  headers = request_headers user_agent (codes "t");
  timeout = Float.finite false 3 0;
  retry_count = 2;
}

abbrev handle : Handle
handle = record { settings = settings; owns_http = false; http_closed = false }

initialised :
    init blocking same_text no_brackets any_nfkc user_agent token base_url timeout retries
      HttpClient.injected
    ≡ ok handle
unfolding init create validate_access_token strip normalize_origin has_forbidden partition lower
    validate_timeout validate_retry_count
initialised = refl

init-close_example :
    (handle.http_closed ≡ false)
    × ((close handle).http_closed ≡ false)
    × (close (close handle) ≡ close handle)
    × (aclose handle ≡ close handle)
init-close_example =
    init-close blocking same_text no_brackets any_nfkc user_agent token base_url timeout retries
      HttpClient.injected handle initialised
