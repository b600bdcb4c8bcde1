-- ===== src/Protocol/Envelopes.antt =====
-- When a document is a success envelope.
use cekat_event_sdk.Base.{
  ℕ, ◌≡◌, ◌≢◌, refl, ap, sym, ◌∙◌, Text, Bool, true, false, ◌&&◌, Option, none, some, List, [], ◌∷◌,
  if◌then◌else◌, codes, arith,
}
use cekat_event_sdk.Json.{Json, bool, str, arr, obj, Items, nil, cons, Members, get}
use cekat_event_sdk.Models.{Acknowledgement}
use cekat_event_sdk.Protocol.{
  dict_get, as_str, is_bool, nonempty_str, all_str, str_list, sub, acknowledge, success_fields,
}

-- The items are exactly these strings.
abbrev pub Strings : Items → List Text → Type 0
Strings nil [] = Unit
Strings nil (_ ∷ _) = ⊥
Strings (cons j xs) [] = ⊥
Strings (cons j xs) (t ∷ ts) = (j ≡ str t) × Strings xs ts

-- A success envelope, described by its members.
pub record SuccessEnvelope (envelope : Json) (body : List ℕ) (a : Acknowledgement) : Type 0 where
  pub outer : Members
  pub inner : Members
  pub properties : Items
  pub is_outer : envelope ≡ obj outer
  pub outer_success : get (codes "success") outer ≡ some (bool true)
  pub has_data : get (codes "data") outer ≡ some (obj inner)
  pub inner_success : get (codes "success") inner ≡ some (bool true)
  pub message : get (codes "message") inner ≡ some (str a.message)
  pub some_message : a.message ≢ []
  pub event_key : get (codes "event_key") inner ≡ some (str a.event_key)
  pub some_event_key : a.event_key ≢ []
  pub has_properties : get (codes "validated_properties") inner ≡ some (arr properties)
  pub are_strings : Strings properties a.validated_properties
  pub success : a.success ≡ true
  pub raw_body : a.raw_body ≡ body

as_str-eq-some : (o : Option Json) (t : Text) → as_str o ≡ some t → o ≡ some (str t)
as_str-eq-some (some (str u)) t e = ground arith
as_str-eq-some (some Json.null) t e = cc
as_str-eq-some none t e = cc
as_str-eq-some (some _) t e = cc

nonempty_str-eq-some :
    (o : Option Json) (t : Text) → nonempty_str o ≡ some t → (o ≡ some (str t)) × (t ≢ [])
unfolding nonempty_str
nonempty_str-eq-some (some (str [])) t e = cc
nonempty_str-eq-some (some (str (c ∷ u))) t e = ground arith
nonempty_str-eq-some none t e = cc
nonempty_str-eq-some (some Json.null) t e = cc
nonempty_str-eq-some (some _) t e = cc

nonempty_str-str : (t : Text) → t ≢ [] → nonempty_str (some (str t)) ≡ some t
unfolding nonempty_str
nonempty_str-str [] h = absurd (h refl)
nonempty_str-str (c ∷ t) h = refl

is_bool-true : (o : Option Json) → is_bool true o ≡ true → o ≡ some (bool true)
is_bool-true (some (bool b)) e = ground arith
is_bool-true (some Json.null) e = cc
is_bool-true none e = cc
is_bool-true (some _) e = cc

abbrev cons_str : Text → Option (List Text) → Option (List Text)
cons_str t r = elim r [ none ↦ none | some us ↦ some (t ∷ us) ]

Strings-cons :
    (t : Text) (xs : Items) (r : Option (List Text)) (ts : List Text)
    → ((us : List Text) → r ≡ some us → Strings xs us)
    → cons_str t r ≡ some ts
    → Strings (cons (str t) xs) ts
Strings-cons t xs none ts ih e = cc
Strings-cons t xs (some us) [] ih e = cc
Strings-cons t xs (some us) (v ∷ ts) ih e = (ground arith, ih ts (ground arith))

all_str-eq-some : (xs : Items) (ts : List Text) → all_str xs ≡ some ts → Strings xs ts
unfolding all_str
all_str-eq-some nil [] e = tt
all_str-eq-some nil (t ∷ ts) e = cc
all_str-eq-some (cons (str t) xs) ts e = Strings-cons t xs (all_str xs) ts (all_str-eq-some xs) e
all_str-eq-some (cons Json.null xs) ts e = cc
all_str-eq-some (cons _ xs) ts e = cc

all_str-Strings : (xs : Items) (ts : List Text) → Strings xs ts → all_str xs ≡ some ts
unfolding all_str
all_str-Strings nil [] h = refl
all_str-Strings nil (t ∷ ts) h = absurd h
all_str-Strings (cons j xs) [] h = absurd h
all_str-Strings (cons j xs) (t ∷ ts) (e, h) = rw (e, all_str-Strings xs ts h)

str_list-eq-some :
    (o : Option Json) (ts : List Text)
    → str_list o ≡ some ts
    → (xs : Items) × (o ≡ some (arr xs)) × Strings xs ts
unfolding str_list
str_list-eq-some (some (arr xs)) ts e = (xs, refl, all_str-eq-some xs ts e)
str_list-eq-some none ts e = cc
str_list-eq-some (some Json.null) ts e = cc
str_list-eq-some (some _) ts e = cc

acknowledge-eq-some :
    (body : List ℕ) (m k : Option Text) (ps : Option (List Text)) (a : Acknowledgement)
    → acknowledge body m k ps ≡ some a
    → (m ≡ some a.message)
      × (k ≡ some a.event_key)
      × (ps ≡ some a.validated_properties)
      × (a.success ≡ true)
      × (a.raw_body ≡ body)
unfolding acknowledge
acknowledge-eq-some body (some m) (some k) (some ps) a e = ground arith
acknowledge-eq-some body none k ps a e = cc
acknowledge-eq-some body (some m) none ps a e = cc
acknowledge-eq-some body (some m) (some k) none a e = cc

dict_get-eq-some :
    (key : Text) (j v : Json)
    → dict_get key j ≡ some v
    → (ms : Members) × (j ≡ obj ms) × (get key ms ≡ some v)
dict_get-eq-some key (obj ms) v e = (ms, refl, e)
dict_get-eq-some key Json.null v e = cc
dict_get-eq-some key _ v e = cc

sub-eq-some :
    (o : Option Json) (key : Text) (v : Json)
    → sub o key ≡ some v
    → (ms : Members) × (o ≡ some (obj ms)) × (get key ms ≡ some v)
sub-eq-some none key v e = cc
sub-eq-some (some d) key v e =
    let (ms, is_obj, found) = dict_get-eq-some key d v e in (ms, ap some is_obj, found)

both :
    {A : Type 0} (b c : Bool) (x : Option A) (a : A)
    → (if b && c then x else none) ≡ some a
    → (b ≡ true) × (c ≡ true) × (x ≡ some a)
both true true x a e = (refl, refl, e)
both true false x a e = cc
both false c x a e = cc

sub-obj : (o : Option Json) (key : Text) (ms : Members) → o ≡ some (obj ms) → sub o key ≡ get key ms
sub-obj o key ms e = rw e

pub success_fields_sound :
    (body : List ℕ) (j : Json) (a : Acknowledgement)
    → success_fields body j ≡ some a
    → SuccessEnvelope j body a
unfolding success_fields
success_fields_sound body j a e =
    let inner = dict_get (codes "data") j in
    let (outer_ok, inner_ok, made) =
      both (is_bool true (dict_get (codes "success") j))
        (is_bool true (sub inner (codes "success"))) _ a e in
    let (ms, is_outer, outer_success) =
      dict_get-eq-some (codes "success") j (bool true) (is_bool-true _ outer_ok) in
    let (ds, is_data, inner_success) =
      sub-eq-some inner (codes "success") (bool true) (is_bool-true _ inner_ok) in
    let (m, k, ps, success, raw) =
      acknowledge-eq-some body (nonempty_str (sub inner (codes "message")))
        (nonempty_str (sub inner (codes "event_key")))
        (str_list (sub inner (codes "validated_properties"))) a made in
    let (message, some_message) = nonempty_str-eq-some _ a.message m in
    let (event_key, some_event_key) = nonempty_str-eq-some _ a.event_key k in
    let (xs, has, strings) = str_list-eq-some _ a.validated_properties ps in
    record {
      outer = ms;
      inner = ds;
      properties = xs;
      is_outer = is_outer;
      outer_success = outer_success;
      has_data = sym (ap (dict_get (codes "data")) is_outer) ∙ is_data;
      inner_success = inner_success;
      message = sym (sub-obj inner (codes "message") ds is_data) ∙ message;
      some_message = some_message;
      event_key = sym (sub-obj inner (codes "event_key") ds is_data) ∙ event_key;
      some_event_key = some_event_key;
      has_properties = sym (sub-obj inner (codes "validated_properties") ds is_data) ∙ has;
      are_strings = strings;
      success = success;
      raw_body = raw;
    }

acknowledge_self :
    (body : List ℕ) (a : Acknowledgement)
    → a.success ≡ true
    → a.raw_body ≡ body
    → acknowledge body (some a.message) (some a.event_key) (some a.validated_properties) ≡ some a
unfolding acknowledge
acknowledge_self body a h k =
    let h' = sym h in
    let k' = sym k in
    λ i. some (record {
      success = h' i;
      message = a.message;
      event_key = a.event_key;
      validated_properties = a.validated_properties;
      raw_body = k' i;
    })

pub success_fields_complete :
    (body : List ℕ) (j : Json) (a : Acknowledgement)
    → SuccessEnvelope j body a
    → success_fields body j ≡ some a
unfolding success_fields str_list
success_fields_complete body j a s =
    simp
      (
        s.is_outer,
        s.outer_success,
        s.has_data,
        s.inner_success,
        s.message,
        s.event_key,
        s.has_properties,
        nonempty_str-str a.message s.some_message,
        nonempty_str-str a.event_key s.some_event_key,
        all_str-Strings s.properties a.validated_properties s.are_strings,
      )
      (acknowledge_self body a s.success s.raw_body)
