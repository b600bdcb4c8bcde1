-- ===== src/Package/Listings/Entries.antt =====
-- What the members of a manifest's objects are, and the elements that its artifacts are read from.
use cekat_event_sdk.Base.{
  ℕ, ◌≡◌, ◌≢◌, ap, sym, ◌∙◌, pos, negsuc, zero, suc, Text, true, some, List, [], ◌∷◌, codes, ==_iff,
  arith, Bool-cases, Option-cases, inl, inr,
}
use cekat_event_sdk.Verdicts.{reject, accept}
use cekat_event_sdk.Json.{Json, null, int, str, obj, Items, nil, cons, Members, end, member, get}
use cekat_event_sdk.Package.{Artifact, listed}
use cekat_event_sdk.Package.Listings.{
  value_of, is_one, is_sha256, check_sha256, check_size, has_keys, keys_within,
}

-- An object has no other member than these.
abbrev pub HasOnly : List Text → Members → Type 0
HasOnly names end = Unit
HasOnly names (member key value rest) = (listed key names ≡ true) × HasOnly names rest

keys_within-HasOnly :
    (members : Members) (names : List Text)
    → keys_within members names ≡ true
    → HasOnly names members
unfolding keys_within
keys_within-HasOnly end names h = tt
keys_within-HasOnly (member key value rest) names h =
    (ground arith, keys_within-HasOnly rest names (ground arith))

pub has_keys-HasOnly :
    (names : List Text) (members : Members) → has_keys names members ≡ true → HasOnly names members
has_keys-HasOnly names members h = keys_within-HasOnly members names (ground arith)

-- A member whose value is known is there, if the value is not the null that stands for none.
pub value_of-get :
    (key : Text) (members : Members) (j : Json)
    → value_of key members ≡ j
    → j ≢ null
    → get key members ≡ some j
value_of-get key members j h ne = elim (Option-cases (get key members)) [
  | inl missing ↦ absurd (ne (let h' : null ≡ j = rw missing at h in sym h'))
  | inr (k, there) ↦ let h' : k ≡ j = rw there at h in there ∙ ap some h'
]

pub value_of-str :
    (key : Text) (members : Members) (t : Text)
    → value_of key members ≡ str t
    → get key members ≡ some (str t)
value_of-str key members t h = value_of-get key members (str t) h (λ e. cc)

pub value_of-int :
    (key : Text) (members : Members) (n : ℕ)
    → value_of key members ≡ int (pos n)
    → get key members ≡ some (int (pos n))
value_of-int key members n h = value_of-get key members (int (pos n)) h (λ e. cc)

abbrev pub artifact_names : List Text
artifact_names = codes "path" ∷ codes "sha256" ∷ codes "size_bytes" ∷ []

-- The element of the document's list that an artifact is read from.
pub record IsEntryOf (raw : Json) (a : Artifact) : Type 0 where
  pub members : Members
  pub is_object : raw ≡ obj members
  pub only : HasOnly artifact_names members
  pub has_path : get (codes "path") members ≡ some (str a.path)
  pub has_sha256 : get (codes "sha256") members ≡ some (str a.sha256)
  pub has_size : get (codes "size_bytes") members ≡ some (int (pos a.size_bytes))

-- The artifacts are those of the document's list, one for each element and in its order.
abbrev pub AreEntriesOf : Items → List Artifact → Type 0
AreEntriesOf nil [] = Unit
AreEntriesOf nil (a ∷ rest) = ⊥
AreEntriesOf (cons raw raws) [] = ⊥
AreEntriesOf (cons raw raws) (a ∷ rest) = IsEntryOf raw a × AreEntriesOf raws rest

pub check_sha256-str :
    (path : Text) (j : Json) (t : Text) → check_sha256 path j ≡ accept t → j ≡ str t
unfolding check_sha256
check_sha256-str path (str u) t h = elim (Bool-cases (is_sha256 u)) [
  | inl good ↦ let h' : accept u ≡ accept t = rw good at h in cc
  | inr bad ↦ absurd (let h' : reject _ ≡ accept t = rw bad at h in cc)
]
check_sha256-str path null t h = cc
check_sha256-str path _ t h = cc

pub check_size-int :
    (path : Text) (j : Json) (n : ℕ) → check_size path j ≡ accept n → j ≡ int (pos n)
unfolding check_size
check_size-int path (int (pos (suc m))) n h = cc
check_size-int path (int (pos zero)) n h = cc
check_size-int path (int (negsuc m)) n h = cc
check_size-int path null n h = cc
check_size-int path _ n h = cc

pub is_one-int : (j : Json) → is_one j ≡ true → j ≡ int (pos 1)
is_one-int (int (pos n)) h = ap (λ m. int (pos m)) ((==_iff n 1).0 h)
is_one-int (int (negsuc n)) h = cc
is_one-int null h = cc
is_one-int _ h = cc
