-- ===== src/Matrix/Reads.antt =====
-- What the small checks of scripts/validate-compatibility-matrix.py went through when they accept:
-- texts, arrays, the members of an object and the files of the repository.
use mathlib.Core.Path.{subst}
use cekat_event_sdk.Base.{
  ℕ, ◌+◌, ◌≡◌, refl, ap, ◌∙◌, Text, Bool, true, false, not, Option, none, some, List, [], ◌∷◌,
  is_empty, strip, Bool-cases, inl, inr,
}
use cekat_event_sdk.Json.{Json, null, str, arr, obj, Items, nil, cons, Members}
use cekat_event_sdk.Verdicts.{
  reject, accept, reject_if, >>=-eq-accept, reject_if-accept, accept_injective, or_reject-accept,
}
use cekat_event_sdk.Package.Listings.{has_keys}
use cekat_event_sdk.Matrix.{
  Checked, Repository, at_index, keys, string, strings_from, strings, is_bad_path, file_at,
  repo_file, read_text,
}
use cekat_event_sdk.Matrix.Entries.{some_items, any_items, in_evidence, each_item}
use cekat_event_sdk.Patterns.{occurs}

pub not-false : (b : Bool) → not b ≡ false → b ≡ true
not-false true h = refl
not-false false h = cc

pub reject_unless-accept :
    {E : Type 0} (b : Bool) (e : E) → reject_if (not b) e ≡ accept tt → b ≡ true
reject_unless-accept b e h = not-false b (reject_if-accept (not b) e h)

-- The array of some texts.
abbrev pub texts_array : List Text → Items
texts_array [] = nil
texts_array (t ∷ ts) = cons (str t) (texts_array ts)

-- A predicate that holds of every item of an array.
abbrev pub AllItems : (Json → Type 0) → Items → Type 0
AllItems P nil = Unit
AllItems P (cons item items) = P item × AllItems P items

pub keys-accept :
    (j : Json) (expected : List Text) (place : Text) (ms : Members)
    → keys j expected place ≡ accept ms
    → (j ≡ obj ms) × (has_keys expected ms ≡ true)
unfolding keys
keys-accept (obj members) expected place ms h = elim (Bool-cases (has_keys expected members)) [
  | inl all ↦
      let h' : accept members ≡ accept ms = rw all at h in
      let same : members ≡ ms = accept_injective h' in
      (ap obj same, subst (λ m. has_keys expected m ≡ true) same all)
  | inr other ↦ absurd (let h' : reject _ ≡ accept ms = rw other at h in cc)
]
keys-accept null expected place ms h = cc
keys-accept _ expected place ms h = cc

pub string-accept :
    (j : Json) (place t : Text)
    → string j place ≡ accept t
    → (j ≡ str t) × (is_empty (strip t) ≡ false)
unfolding string
string-accept (str u) place t h = elim (Bool-cases (is_empty (strip u))) [
  | inl blank ↦ absurd (let h' : reject _ ≡ accept t = rw blank at h in cc)
  | inr filled ↦
      let h' : accept u ≡ accept t = rw filled at h in
      let same : u ≡ t = accept_injective h' in
      (ap str same, subst (λ v. is_empty (strip v) ≡ false) same filled)
]
string-accept null place t h = cc
string-accept _ place t h = cc

strings_from-accept :
    (index : ℕ) (items : Items) (place : Text) (ts : List Text)
    → strings_from index items place ≡ accept ts
    → items ≡ texts_array ts
unfolding strings_from
strings_from-accept index nil place ts h = ap texts_array (accept_injective h)
strings_from-accept index (cons item items) place ts h =
    let (t, t_ok, h1) = >>=-eq-accept (string item (at_index place index)) _ h in
    let (rest, rest_ok, h2) = >>=-eq-accept (strings_from (index + 1) items place) _ h1 in
    let same : t ∷ rest ≡ ts = accept_injective h2 in
    subst (λ us. cons item items ≡ texts_array us) same
      (ap (λ j. cons j items) (string-accept item (at_index place index) t t_ok).0
        ∙ ap (cons (str t)) (strings_from-accept (index + 1) items place rest rest_ok))

pub strings-accept :
    (allow_empty : Bool) (j : Json) (place : Text) (ts : List Text)
    → strings allow_empty j place ≡ accept ts
    → j ≡ arr (texts_array ts)
unfolding strings
strings-accept true (arr nil) place ts h = ap (λ us. arr (texts_array us)) (accept_injective h)
strings-accept false (arr nil) place ts h = cc
strings-accept allow_empty (arr (cons item items)) place ts h =
    ap arr (strings_from-accept 0 (cons item items) place ts h)
strings-accept allow_empty null place ts h = cc
strings-accept allow_empty _ place ts h = cc

file_at-accept :
    (repository : Repository) (place path : Text) (contents : Option Text)
    → file_at repository place path ≡ accept contents
    → repository path ≡ some contents
unfolding file_at
file_at-accept repository place path contents h = or_reject-accept (repository path) _ contents h

-- The file that a path of the matrix names.
pub record IsFile (repository : Repository) (value : Json) (path : Text) (contents : Option Text)
    : Type 0 where
  pub is_path : value ≡ str path
  pub plain : is_bad_path path ≡ false
  pub there : repository path ≡ some contents

pub repo_file-accept :
    (repository : Repository) (value : Json) (place : Text) (found : Text × Option Text)
    → repo_file repository value place ≡ accept found
    → IsFile repository value found.0 found.1
unfolding repo_file
repo_file-accept repository value place found h =
    let (path, path_ok, h1) = >>=-eq-accept (string value place) _ h in
    let (_, plain, h2) = >>=-eq-accept (reject_if (is_bad_path path) _) _ h1 in
    let (contents, there, h3) = >>=-eq-accept (file_at repository place path) _ h2 in
    let same : (path, contents) ≡ found = accept_injective h3 in
    subst (λ (f : Text × Option Text). IsFile repository value f.0 f.1) same
      (record {
        is_path = (string-accept value place path path_ok).0;
        plain = reject_if-accept (is_bad_path path) _ plain;
        there = file_at-accept repository place path contents there;
      })

pub read_text-accept :
    (contents : Option Text) (text : Text) → read_text contents ≡ accept text → contents ≡ some text
unfolding read_text
read_text-accept none text h = cc
read_text-accept (some t) text h = ap some (accept_injective h)

pub some_items-accept :
    (j : Json) (place : Text) (items : Items) → some_items j place ≡ accept items → j ≡ arr items
unfolding some_items
some_items-accept (arr (cons item items)) place found h = ap arr (accept_injective h)
some_items-accept (arr nil) place found h = cc
some_items-accept null place found h = cc
some_items-accept _ place found h = cc

pub some_items-cons : (j : Json) (place : Text) → ¬ (some_items j place ≡ accept nil)
unfolding some_items
some_items-cons (arr (cons item items)) place h =
    let same : cons item items ≡ nil = accept_injective h in cc
some_items-cons (arr nil) place h = cc
some_items-cons null place h = cc
some_items-cons _ place h = cc

pub any_items-accept :
    (j : Json) (place : Text) (items : Items) → any_items j place ≡ accept items → j ≡ arr items
unfolding any_items
any_items-accept (arr items) place found h = ap arr (accept_injective h)
any_items-accept null place found h = cc
any_items-accept _ place found h = cc

pub in_evidence-accept :
    (evidence value place : Text)
    → in_evidence evidence value place ≡ accept tt
    → occurs value evidence ≡ true
unfolding in_evidence
in_evidence-accept evidence value place h = reject_unless-accept (occurs value evidence) _ h

-- If each check that accepts an item shows a property of it, so does the check of all items.
pub each_item-AllItems {κ} :
    {A : Type κ} (P : Json → Type 0) (check : ℕ → Json → Checked A)
    → ((index : ℕ) (j : Json) (a : A) → check index j ≡ accept a → P j)
    → (index : ℕ) (items : Items) (found : List A) → each_item check index items ≡ accept found
    → AllItems P items
unfolding each_item
each_item-AllItems P check shows index nil found h = tt
each_item-AllItems P check shows index (cons item items) found h =
    let (a, a_ok, h1) = >>=-eq-accept (check index item) _ h in
    let (rest, rest_ok, _) = >>=-eq-accept (each_item check (index + 1) items) _ h1 in
    (shows index item a a_ok, each_item-AllItems P check shows (index + 1) items rest rest_ok)
