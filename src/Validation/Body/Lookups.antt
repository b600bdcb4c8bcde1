-- ===== src/Validation/Body/Lookups.antt =====
-- What is found in the members that a payload is made of.
use cekat_event_sdk.Base.{
  ◌≡◌, refl, ◌∙◌, Text, Bool, false, Option, none, some, codes, text_eq, text_eq_refl,
}
use cekat_event_sdk.Json.{Json, Members, end, get}
use cekat_event_sdk.Validation.Body.{with_text, with_json, members_of}

-- The member that a text gives, if it is there.
abbrev pub as_json : Option Text → Option Json
as_json none = none
as_json (some t) = some (Json.str t)

pub get-with_text :
    (name : Text) (o : Option Text) (rest : Members)
    → get name rest ≡ none
    → get name (with_text name o rest) ≡ as_json o
unfolding get
get-with_text name none rest h = h
get-with_text name (some t) rest h = rw (text_eq_refl name)

pub get-with_text-other :
    (name key : Text) (o : Option Text) (rest : Members)
    → text_eq name key ≡ false
    → get key (with_text name o rest) ≡ get key rest
unfolding get
get-with_text-other name key none rest h = refl
get-with_text-other name key (some t) rest h = rw h

pub get-with_json : (name : Text) (o : Option Json) → get name (with_json name o end) ≡ o
unfolding get
get-with_json name none = refl
get-with_json name (some j) = rw (text_eq_refl name)

pub get-with_json-other :
    (name key : Text) (o : Option Json)
    → text_eq name key ≡ false
    → get key (with_json name o end) ≡ none
unfolding get
get-with_json-other name key none h = refl
get-with_json-other name key (some j) h = rw h

module _ (key id at : Text) (common : Bool) (email phone name visitor : Option Text)
    (properties : Option Json) where
  abbrev made : Members
  made = members_of key id at common email phone name visitor properties

  pub get-email : get (codes "email") made ≡ as_json email
  unfolding get
  get-email = get-with_text (codes "email") email _ (
      get-with_text-other (codes "phone_number") _ phone _ refl
      ∙ get-with_text-other (codes "contact_name") _ name _ refl
      ∙ get-with_text-other (codes "visitor_id") _ visitor _ refl
      ∙ get-with_json-other (codes "properties") _ properties refl)

  pub get-phone_number : get (codes "phone_number") made ≡ as_json phone
  unfolding get
  get-phone_number =
      get-with_text-other (codes "email") _ email _ refl
      ∙ get-with_text (codes "phone_number") phone _ (
          get-with_text-other (codes "contact_name") _ name _ refl
          ∙ get-with_text-other (codes "visitor_id") _ visitor _ refl
          ∙ get-with_json-other (codes "properties") _ properties refl)

  pub get-contact_name : get (codes "contact_name") made ≡ as_json name
  unfolding get
  get-contact_name =
      get-with_text-other (codes "email") _ email _ refl
      ∙ get-with_text-other (codes "phone_number") _ phone _ refl
      ∙ get-with_text (codes "contact_name") name _ (
          get-with_text-other (codes "visitor_id") _ visitor _ refl
          ∙ get-with_json-other (codes "properties") _ properties refl)

  pub get-visitor_id : get (codes "visitor_id") made ≡ as_json visitor
  unfolding get
  get-visitor_id =
      get-with_text-other (codes "email") _ email _ refl
      ∙ get-with_text-other (codes "phone_number") _ phone _ refl
      ∙ get-with_text-other (codes "contact_name") _ name _ refl
      ∙ get-with_text (codes "visitor_id") visitor _
          (get-with_json-other (codes "properties") _ properties refl)

  pub get-properties : get (codes "properties") made ≡ properties
  unfolding get
  get-properties =
      get-with_text-other (codes "email") _ email _ refl
      ∙ get-with_text-other (codes "phone_number") _ phone _ refl
      ∙ get-with_text-other (codes "contact_name") _ name _ refl
      ∙ get-with_text-other (codes "visitor_id") _ visitor _ refl
      ∙ get-with_json (codes "properties") properties
