-- ===== src/Api.antt =====
-- The public methods of Client and AsyncClient in python/src/cekat_event_sdk/client.py and
-- async_client.py: what each checks, and the call of `_track` that it makes; and who closes the
-- HTTP client.
pub mod Bodies
pub mod Calls
use cekat_event_sdk.Base.{
  ℕ, Float, Text, Bool, true, false, not, Option, none, some, List, [], ◌∷◌, codes, String,
  if◌then◌else◌,
}
use cekat_event_sdk.Errors.{Reason, Error, Result, ok, raise, ◌>>=◌, ◌>>◌, refuse_if}
use cekat_event_sdk.Objects.{Value, Heap}
use cekat_event_sdk.Timestamps.{Clock}
use cekat_event_sdk.Models.{Event}
use cekat_event_sdk.Validation.Properties.{Conversion}
use cekat_event_sdk.Validation.Order.{with_order_paid_properties, Placed}
use cekat_event_sdk.Validation.Body.{build_body}
use cekat_event_sdk.Models.{Acknowledgement}
use cekat_event_sdk.Shared.{Settings, create}
use cekat_event_sdk.Client.{
  Libraries, Surroundings, Mode, blocking, asynchronous, Effect, Ran, track,
}

-- A call of a method, with the arguments that the caller gives.
pub data Call : Type 0 where
  user_registration user_login form_submitted : Option Event → Call
  order_created order_paid : (amount currency : Value) → Option Event → Call
  custom_event : (event_key : Value) → Option Event → Call

-- What Python, the clock and the current scope supply at a call.
pub record Moments : Type 0 where
  pub heap : Heap
  pub fresh : ℕ
  pub visitor : Option Text
  pub clock : Clock
  pub new_event_id : Text

-- The arguments that `_track` gives to build_body, over the heap that it then reads.
pub record Prepared : Type 0 where
  pub event_key : Value
  pub is_common : Bool
  pub event : Option Event
  pub heap : Heap

abbrev pub common : String → Option Event → Heap → Prepared
common key event heap = record {
  event_key = Value.str (codes key);
  is_common = true;
  event = event;
  heap = heap;
}

module _ (to_float : Conversion) (float_repr : Float → Text) (at : Moments) where
  unfoldable pub order : String → Value → Value → Option Event → Result Prepared
  order key amount currency event = do
    placed ← with_order_paid_properties to_float at.heap at.fresh amount currency event
    ok (common key (some placed.event) placed.heap)

  unfoldable pub prepare : Call → Result Prepared
  unfolding order
  prepare (user_registration event) = ok (common "user_registration" event at.heap)
  prepare (user_login event) = ok (common "user_login" event at.heap)
  prepare (form_submitted event) = ok (common "form_submitted" event at.heap)
  prepare (order_created amount currency event) = order "order_created" amount currency event
  prepare (order_paid amount currency event) = order "order_paid" amount currency event
  prepare (custom_event event_key event) =
      ok (record { event_key = event_key; is_common = false; event = event; heap = at.heap })

  unfoldable pub request_body : Call → Result (List ℕ)
  unfolding prepare
  request_body call = do
    p ← prepare call
    build_body to_float p.heap float_repr p.event_key p.is_common p.event at.visitor at.clock
        at.new_event_id

  -- A method of either client.
  unfoldable pub submit : Libraries → Settings → Surroundings → Mode → Call → Ran
  unfolding request_body
  submit lib s env mode call = track lib s env mode (request_body call)

-- The `http_client` argument: None, a client of the right type, or something else.
pub data HttpClient : Type 0 where
  not_given injected wrong_type : HttpClient

pub record Handle : Type 0 where
  pub settings : Settings
  pub owns_http : Bool
  pub http_closed : Bool

abbrev is_wrong : HttpClient → Bool
is_wrong wrong_type = true
is_wrong _ = false

abbrev is_not_given : HttpClient → Bool
is_not_given not_given = true
is_not_given _ = false

abbrev pub http_client_reason : Mode → Reason
http_client_reason blocking = Reason.http_client
http_client_reason asynchronous = Reason.async_http_client

-- __init__ of either client.
unfoldable pub init :
    (mode : Mode) (lower_any : Text → Text) (bracketed_netloc_ok nfkc_ok : Text → Bool)
    (user_agent : Text) (access_token base_url timeout retry_count : Value)
    → HttpClient
    → Result Handle
init mode lower_any bracketed_netloc_ok nfkc_ok user_agent access_token base_url timeout retry_count
      http_client =
    do
      settings ←
          create lower_any bracketed_netloc_ok nfkc_ok user_agent access_token base_url timeout
            retry_count
      refuse_if (is_wrong http_client) (http_client_reason mode)
      ok (record { settings = settings; owns_http = is_not_given http_client; http_closed = false })

unfoldable pub close : Handle → Handle
close h = if h.owns_http then record h { http_closed = true } else h

-- aclose of the asynchronous client.
unfoldable pub aclose : Handle → Handle
aclose h = if h.owns_http then record h { http_closed = true } else h
