-- ===== src/Context/Laws.antt =====
-- Which value `extract_visitor_id` picks, and the form of what it returns.
use cekat_event_sdk.Base.{
  Text, ◌≡◌, ◌≢◌, refl, ap, ◌∙◌, sym, ◌&&◌, Option, none, some, List, [], ◌∷◌, ◌++◌, All,
  All-append, map, ◌<|>◌, arith, codes, text_eq, text_eq_iff, strip, strip_idempotent, lower,
  nonempty, split, partition, if◌then◌else◌, first_some, first_some-append, Bool-cases, inl, inr,
}
use cekat_event_sdk.Objects.{Value, str}
use mathlib.Core.List.{append-nil, append_assoc}
use cekat_event_sdk.Context.{
  visitor_header, visitor_cookie, normalize_visitor_id, optional, pair_visitor, first_pair,
  visitor_id_from_cookie_header, Collected, collect_one, collect, first_header, first_cookie_header,
  get_text, or_no_cookies, extract_visitor_id,
}

-- A visitor ID in normal form: not empty, and with no white space at either end.
abbrev pub IsVisitorId : Text → Type 0
IsVisitorId v = (v ≢ []) × (strip v ≡ v)

nonempty-IsVisitorId : (t v : Text) → strip t ≡ t → nonempty t ≡ some v → IsVisitorId v
nonempty-IsVisitorId [] v h e = cc
nonempty-IsVisitorId (c ∷ t) v h e = ground arith

pub normalize-IsVisitorId : (x : Value) (v : Text) → normalize_visitor_id x ≡ some v → IsVisitorId v
unfolding normalize_visitor_id
normalize-IsVisitorId (str t) v e = nonempty-IsVisitorId (strip t) v (strip_idempotent t) e
normalize-IsVisitorId Value.null v e = cc
normalize-IsVisitorId _ v e = cc

-- The values of the headers with a given lower-case name, in order.
only : Text → Text → Text → List Text
only key name value = if text_eq (lower name) key then value ∷ [] else []

values_of : Text → List (Text × Text) → List Text
values_of key [] = []
values_of key ((name, value) ∷ items) = only key name value ++ values_of key items

-- Every place that may hold the visitor, the strongest first: the visitor headers, the pairs of
-- the Cookie headers, the parsed cookie.
cookie_pairs : List Text → List (Option Text)
cookie_pairs [] = []
cookie_pairs (h ∷ hs) = map pair_visitor (split b';' h) ++ cookie_pairs hs

pub candidates : List (Text × Text) → List (Text × Text) → List (Option Text)
unfolding values_of cookie_pairs
candidates headers cookies =
    map (λ value. normalize_visitor_id (str value)) (values_of (codes "x-cekat-visitor-id") headers)
    ++ cookie_pairs (values_of (codes "cookie") headers)
    ++ normalize_visitor_id (optional (get_text visitor_cookie cookies)) ∷ []

first_pair-first_some : (pairs : List Text) → first_pair pairs ≡ first_some (map pair_visitor pairs)
unfolding first_pair
first_pair-first_some [] = refl
first_pair-first_some (p ∷ ps) = ap (λ o. pair_visitor p <|> o) (first_pair-first_some ps)

cookie_header-first_some :
    (h : Text)
    → visitor_id_from_cookie_header (some h) ≡ first_some (map pair_visitor (split b';' h))
unfolding visitor_id_from_cookie_header split partition
cookie_header-first_some [] = refl
cookie_header-first_some (c ∷ h) = first_pair-first_some (split b';' (c ∷ h))

first_header-first_some :
    (values : List Text)
    → first_header values ≡ first_some (map (λ value. normalize_visitor_id (str value)) values)
unfolding first_header
first_header-first_some [] = refl
first_header-first_some (v ∷ vs) =
    ap (λ o. normalize_visitor_id (str v) <|> o) (first_header-first_some vs)

first_cookie_header-first_some :
    (hs : List Text) → first_cookie_header hs ≡ first_some (cookie_pairs hs)
unfolding first_cookie_header cookie_pairs
first_cookie_header-first_some [] = refl
first_cookie_header-first_some (h ∷ hs) =
    rw (cookie_header-first_some h, first_cookie_header-first_some hs)
      (sym (first_some-append (map pair_visitor (split b';' h)) (cookie_pairs hs)))

lower-visitor_header : lower visitor_header ≡ codes "x-cekat-visitor-id"
unfolding lower
lower-visitor_header = refl

collect_one-visitor :
    (name value : Text) (c : Collected)
    → (collect_one name value c).visitor_headers
      ≡ c.visitor_headers ++ only (codes "x-cekat-visitor-id") name value
unfolding collect_one only
collect_one-visitor name value c =
    rw lower-visitor_header (ground (arith, append-nil c.visitor_headers))

collect_one-cookie :
    (name value : Text) (c : Collected)
    → (collect_one name value c).cookie_headers
      ≡ c.cookie_headers ++ only (codes "cookie") name value
unfolding collect_one only
collect_one-cookie name value c = rw lower-visitor_header (
    ground (
      arith,
      append-nil c.cookie_headers,
      text_eq_iff (lower name) (codes "x-cekat-visitor-id"),
      text_eq_iff (lower name) (codes "cookie"),
    ))

collect-visitor :
    (c : Collected) (items : List (Text × Text))
    → (collect c items).visitor_headers
      ≡ c.visitor_headers ++ values_of (codes "x-cekat-visitor-id") items
unfolding collect values_of
collect-visitor c [] = sym (append-nil _)
collect-visitor c ((name, value) ∷ items) =
    simp (collect-visitor (collect_one name value c) items, collect_one-visitor, append_assoc)

collect-cookie :
    (c : Collected) (items : List (Text × Text))
    → (collect c items).cookie_headers ≡ c.cookie_headers ++ values_of (codes "cookie") items
unfolding collect values_of
collect-cookie c [] = sym (append-nil _)
collect-cookie c ((name, value) ∷ items) =
    simp (collect-cookie (collect_one name value c) items, collect_one-cookie, append_assoc)

regroup : (a b c : Option Text) → (a <|> b <|> c) ≡ ((a <|> b) <|> c <|> none)
regroup (some t) b c = refl
regroup none (some t) c = refl
regroup none none (some t) = refl
regroup none none none = refl

-- The visitor is the first candidate that is there: any non-blank visitor header wins over every
-- cookie, a raw Cookie header wins over the parsed cookies, and within each the first one wins.
pub extract-first_some :
    (headers : List (Text × Text)) (cookies : Option (List (Text × Text)))
    → extract_visitor_id headers cookies ≡ first_some (candidates headers (or_no_cookies cookies))
unfolding extract_visitor_id candidates
extract-first_some headers cookies =
    simp
      (
        collect-visitor, collect-cookie, first_header-first_some, first_cookie_header-first_some,
        first_some-append,
      )
      (regroup
        (first_some (
          map (λ value. normalize_visitor_id (str value))
            (values_of (codes "x-cekat-visitor-id") headers)))
        (first_some (cookie_pairs (values_of (codes "cookie") headers)))
        (normalize_visitor_id (optional (get_text visitor_cookie (or_no_cookies cookies)))))

first_some-All :
    (P : Text → Type 0) (os : List (Option Text)) (v : Text)
    → All (λ o. (t : Text) → o ≡ some t → P t) os
    → first_some os ≡ some v
    → P v
first_some-All P [] v h e = cc
first_some-All P (none ∷ os) v h e = first_some-All P os v h.1 e
first_some-All P (some t ∷ os) v h e = h.0 v e

Good : Option Text → Type 0
Good o = (t : Text) → o ≡ some t → IsVisitorId t

pair-Good : (pair : Text) → Good (pair_visitor pair)
unfolding Good pair_visitor
pair-Good pair t e =
    elim (Bool-cases (
      (partition b'=' pair).found && text_eq (strip (partition b'=' pair).before) visitor_cookie)) [
        | inl h ↦ normalize-IsVisitorId (str (partition b'=' pair).after) t (rw h at e)
        | inr h ↦ absurd (let e' : none ≡ some t = rw h at e in cc)
      ]

All-map-pairs : (pairs : List Text) → All Good (map pair_visitor pairs)
All-map-pairs [] = tt
All-map-pairs (p ∷ ps) = (pair-Good p, All-map-pairs ps)

All-cookie_pairs : (hs : List Text) → All Good (cookie_pairs hs)
unfolding cookie_pairs
All-cookie_pairs [] = tt
All-cookie_pairs (h ∷ hs) = All-append Good _ _ (All-map-pairs (split b';' h)) (All-cookie_pairs hs)

All-values :
    (values : List Text) → All Good (map (λ value. normalize_visitor_id (str value)) values)
unfolding Good
All-values [] = tt
All-values (v ∷ vs) = (normalize-IsVisitorId (str v), All-values vs)

candidates-Good : (headers cookies : List (Text × Text)) → All Good (candidates headers cookies)
unfolding candidates Good
candidates-Good headers cookies =
    let values =
      map (λ value. normalize_visitor_id (str value))
        (values_of (codes "x-cekat-visitor-id") headers) in
    let pairs = cookie_pairs (values_of (codes "cookie") headers) in
    let last = normalize_visitor_id (optional (get_text visitor_cookie cookies)) ∷ [] in
    All-append Good (values ++ pairs) last
      (All-append Good values pairs (All-values _) (All-cookie_pairs _))
      (normalize-IsVisitorId _, tt)

-- Whatever the request holds, a visitor that is extracted is not empty and is trimmed.
pub extract-IsVisitorId :
    (headers : List (Text × Text)) (cookies : Option (List (Text × Text))) (v : Text)
    → extract_visitor_id headers cookies ≡ some v
    → IsVisitorId v
unfolding Good
extract-IsVisitorId headers cookies v e =
    first_some-All IsVisitorId (candidates headers (or_no_cookies cookies)) v
      (candidates-Good headers (or_no_cookies cookies))
      (sym (extract-first_some headers cookies) ∙ e)
