-- ===== src/Stripe.antt =====
-- python/src/cekat_event_sdk/stripe.py: the visitor in Stripe metadata. A dict of texts is the list
-- of its items.
pub mod Laws
use cekat_event_sdk.Base.{
  ℕ, Text, Bool, true, false, ◌&&◌, ◌||◌, not, Option, none, some, List, [], ◌∷◌, ◌++◌, leb, ◌==◌,
  if◌then◌else◌, between, codes, text_eq, strip, length,
}
use cekat_event_sdk.Objects.{Value, str, null}
use cekat_event_sdk.Context.{optional}

abbrev pub visitor_metadata_key : Text
visitor_metadata_key = codes "cekat_visitor_id"

abbrev pub Metadata : Type 0
Metadata = List (Text × Text)

-- character.isascii() and (character.isalnum() or character in "_-")
abbrev pub is_visitor_char : ℕ → Bool
is_visitor_char c =
    between b'0' b'9' c || between b'A' b'Z' c || between b'a' b'z' c || c == b'_' || c == b'-'

unfoldable pub all_visitor_chars : Text → Bool
all_visitor_chars [] = true
all_visitor_chars (c ∷ t) = is_visitor_char c && all_visitor_chars t

unfoldable pub valid_visitor_id : Value → Option Text
unfolding all_visitor_chars
valid_visitor_id (str visitor_id) =
    let normalized = strip visitor_id in
    if between 1 128 (length normalized) && all_visitor_chars normalized
    then some normalized
    else none
valid_visitor_id null = none
valid_visitor_id _ = none

-- dict[key] = value
unfoldable pub put_text : Text → Text → Metadata → Metadata
put_text key value [] = (key, value) ∷ []
put_text key value ((k, v) ∷ rest) =
    let later = put_text key value rest in
    if text_eq k key then (k, value) ∷ rest else (k, v) ∷ later

abbrev one_entry : Option Text → Metadata
one_entry none = []
one_entry (some v) = (visitor_metadata_key, v) ∷ []

unfoldable pub metadata_for_visitor : Value → Metadata
unfolding valid_visitor_id
metadata_for_visitor visitor_id = one_entry (valid_visitor_id visitor_id)

-- The visitor of the current scope is an argument.
unfoldable pub metadata_from_current_visitor : Option Text → Metadata
unfolding metadata_for_visitor
metadata_from_current_visitor current = metadata_for_visitor (optional current)

abbrev put_if_some : Option Text → Metadata → Metadata
put_if_some none metadata = metadata
put_if_some (some v) metadata = put_text visitor_metadata_key v metadata

unfoldable pub merge_metadata : Metadata → Value → Metadata
unfolding valid_visitor_id put_text
merge_metadata metadata visitor_id = put_if_some (valid_visitor_id visitor_id) metadata
