-- ===== src/Errors.antt =====
-- python/src/cekat_event_sdk/errors.py: the errors of the SDK, and computations that may raise.
use cekat_event_sdk.Base.{ℕ, Text, Float, Bool, true, false, Option, List, ◌++◌, codes, ◌≡◌, refl}

-- Why a ValidationError is raised; the text is the path of the offending property.
pub data Reason : Type 0 where
  access_token base_url timeout retry_count http_client async_http_client : Reason
  amount currency event_type properties_type : Reason
  reserved_property : (name : Text) → Reason
  event_key : Reason
  field_type : (field : Text) → Reason
  identity occurred_at_type occurred_at_naive occurred_at_range : Reason
  too_deep cyclic non_string_key invalid_unicode not_json_compatible : (path : Text) → Reason
  not_encodable : Reason

unfoldable pub message : Reason → Text
message Reason.access_token = codes "access token must be a non-empty string"
message Reason.base_url =
    codes
      "base_url must be an absolute HTTP(S) origin without credentials, path, query, or fragment"
message Reason.timeout = codes "timeout must be a finite number of seconds greater than zero"
message Reason.retry_count = codes "retry_count must be a non-negative integer"
message Reason.http_client = codes "http_client must be an httpx.Client"
message Reason.async_http_client = codes "http_client must be an httpx.AsyncClient"
message Reason.amount = codes "amount must be a finite number"
message Reason.currency = codes "currency must be a non-empty string"
message Reason.event_type = codes "event must be a cekat_event_sdk.Event"
message Reason.properties_type = codes "properties must be a dict with string keys"
message (Reason.reserved_property name) =
    codes "properties must not contain \""
    ++ (name ++ codes "\"; pass it as the order_paid argument")
message Reason.event_key = codes "event_key must be a non-empty string"
message (Reason.field_type field) = field ++ codes " must be a string"
message Reason.identity = codes "at least one non-empty email or phone_number is required"
message Reason.occurred_at_type = codes "occurred_at must be a datetime"
message Reason.occurred_at_naive = codes "occurred_at must be timezone-aware"
message Reason.occurred_at_range = codes "occurred_at must be between years 0001 and 9999"
message (Reason.too_deep path) = path ++ codes " is nested too deeply"
message (Reason.cyclic path) = path ++ codes " contains a cycle"
message (Reason.non_string_key path) =
    path ++ codes " has a non-string key; property keys must be strings"
message (Reason.invalid_unicode path) = path ++ codes " must be valid Unicode"
message (Reason.not_json_compatible path) = path ++ codes " is not a JSON-compatible value"
message Reason.not_encodable = codes "event is not JSON-compatible; strings must be valid Unicode"

-- An exception of the HTTP library, by the name of its type, or one of the two time-outs that the
-- SDK raises itself in that library's classes.
pub data Cause : Type 0 where
  transport_failure : (type_name : Text) → Cause
  read_timeout header_timeout : (seconds : Float) → Cause

unfoldable pub type_name : Cause → Text
type_name (transport_failure name) = name
type_name (read_timeout s) = codes "ReadTimeout"
type_name (header_timeout s) = codes "TimeoutException"

-- The subclasses of HttpError.
pub data HttpKind : Type 0 where
  authentication event_definition_not_found api : HttpKind

pub record HttpError : Type 0 where
  pub kind : HttpKind
  pub status_code : ℕ
  pub message : Text
  pub code : Option Text
  pub raw_body : List ℕ
  pub attempts : ℕ

pub record TransportError : Type 0 where
  pub message : Text
  pub attempts : ℕ
  pub cause : Cause

pub record ResponseDecodeError : Type 0 where
  pub message : Text
  pub raw_body : List ℕ
  pub attempts : ℕ
  pub cause : Option Cause

-- `foreign` is an exception of Python or of a library that no `except` clause of the SDK catches.
pub data Error : Type 0 where
  validation : Reason → Error
  http : HttpError → Error
  transport : TransportError → Error
  response_decode : ResponseDecodeError → Error
  foreign : (type_name : Text) → Error

-- The class attributes of CekatError.
unfoldable pub attempts : Error → ℕ
attempts (Error.validation r) = 0
attempts (Error.http e) = e.attempts
attempts (Error.transport e) = e.attempts
attempts (Error.response_decode e) = e.attempts
attempts (Error.foreign n) = 0

unfoldable pub delivery_outcome_unknown : Error → Bool
delivery_outcome_unknown (Error.transport e) = true
delivery_outcome_unknown _ = false

pub data Result {κ} (A : Type κ) : Type κ where
  raise : Error → Result A
  ok : A → Result A

-- An error ends a chain; what follows it is not run.
abbrev pub ◌>>=◌ {κ μ} :
    {A : Type κ} {B : Type μ} (first : Result A) (next : A → Result B) → Result B
raise error >>= next = raise error
ok value >>= next = next value

abbrev pub ◌>>◌ {μ} : {B : Type μ} (check : Result (Unit {0})) (after : Result B) → Result B
check >> after = check >>= λ _. after

infixl 5 ◌>>◌ ◌>>=◌
-- `if failed: raise ValidationError(reason)`
abbrev pub refuse_if : (failed : Bool) (reason : Reason) → Result (Unit {0})
refuse_if false reason = ok tt
refuse_if true reason = raise (Error.validation reason)

-- What a successful chain went through.
pub >>=-eq-ok {κ μ} :
    {A : Type κ} {B : Type μ} (first : Result A) (next : A → Result B) {b : B}
    (whole : (first >>= next) ≡ ok b)
    → (a : A) × (first ≡ ok a) × (next a ≡ ok b)
>>=-eq-ok (raise error) next whole = cc
>>=-eq-ok (ok a) next whole = (a, refl, whole)
