-- ===== src/Context.antt =====
-- python/src/cekat_event_sdk/context.py: the visitor of the current request.
pub mod Laws
pub mod Scope
use cekat_event_sdk.Base.{
  ℕ, Text, Bool, true, false, ◌&&◌, Option, none, some, List, [], ◌∷◌, ◌++◌, ◌<|>◌, codes, text_eq,
  strip, lower, nonempty, is_empty, split, partition, if◌then◌else◌,
}
use cekat_event_sdk.Objects.{Value, null, str}

abbrev pub visitor_header : Text
visitor_header = codes "X-Cekat-Visitor-ID"

abbrev pub visitor_cookie : Text
visitor_cookie = codes "_cekat_visitor_id"

unfoldable pub normalize_visitor_id : Value → Option Text
normalize_visitor_id (str value) = nonempty (strip value)
normalize_visitor_id null = none
normalize_visitor_id _ = none

-- An argument of type `str | None`.
abbrev pub optional : Option Text → Value
optional none = null
optional (some t) = str t

-- One `name=value` pair of a Cookie header.
unfoldable pub pair_visitor : Text → Option Text
unfolding normalize_visitor_id
pair_visitor pair =
    let p = partition b'=' pair in
    if p.found && text_eq (strip p.before) visitor_cookie
    then normalize_visitor_id (str p.after)
    else none

first_pair : List Text → Option Text
unfolding pair_visitor
first_pair [] = none
first_pair (pair ∷ pairs) = pair_visitor pair <|> first_pair pairs

unfoldable pub visitor_id_from_cookie_header : Option Text → Option Text
unfolding first_pair
visitor_id_from_cookie_header none = none
visitor_id_from_cookie_header (some header) =
    if is_empty header then none else first_pair (split b';' header)

-- The first loop of `extract_visitor_id` sorts the headers into two lists, in their order.
pub record Collected : Type 0 where
  pub visitor_headers : List Text
  pub cookie_headers : List Text

collect_one : Text → Text → Collected → Collected
collect_one name value c =
    if text_eq (lower name) (lower visitor_header)
    then record c { visitor_headers = c.visitor_headers ++ value ∷ [] }
    else if text_eq (lower name) (codes "cookie")
    then record c { cookie_headers = c.cookie_headers ++ value ∷ [] }
    else c

collect : Collected → List (Text × Text) → Collected
unfolding collect_one
collect c [] = c
collect c ((name, value) ∷ items) = collect (collect_one name value c) items

first_header : List Text → Option Text
unfolding normalize_visitor_id
first_header [] = none
first_header (value ∷ values) = normalize_visitor_id (str value) <|> first_header values

first_cookie_header : List Text → Option Text
unfolding visitor_id_from_cookie_header
first_cookie_header [] = none
first_cookie_header (value ∷ values) =
    visitor_id_from_cookie_header (some value) <|> first_cookie_header values

-- dict.get on a mapping from texts to texts.
unfoldable pub get_text : Text → List (Text × Text) → Option Text
get_text key [] = none
get_text key ((k, v) ∷ rest) = if text_eq k key then some v else get_text key rest

abbrev or_no_cookies : Option (List (Text × Text)) → List (Text × Text)
or_no_cookies none = []
or_no_cookies (some cookies) = cookies

unfoldable pub extract_visitor_id : List (Text × Text) → Option (List (Text × Text)) → Option Text
unfolding collect first_header first_cookie_header get_text normalize_visitor_id
extract_visitor_id headers cookies =
    let c = collect (record { visitor_headers = []; cookie_headers = [] }) headers in
    first_header c.visitor_headers
    <|> first_cookie_header c.cookie_headers
    <|> normalize_visitor_id (optional (get_text visitor_cookie (or_no_cookies cookies)))
