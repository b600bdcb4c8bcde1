-- ===== src/Package/Listings.antt =====
-- parse_manifest of scripts/validate-package-manifest.py. A member is looked up after the check that
-- the object has exactly the expected keys, so it is there; `null` stands for one that is not.
pub mod Ordered
pub mod Entries
pub mod Parsed
use cekat_event_sdk.Base.{
  ℕ, zero, suc, ◌+◌, ℤ, pos, negsuc, Text, Bool, true, false, ◌&&◌, ◌||◌, not, Option, none, some,
  List, [], ◌∷◌, ◌==◌, between, if◌then◌else◌, codes, text_eq, encode, length, map,
}
use cekat_event_sdk.Verdicts.{
  Verdict, reject, crash, accept, ◌>>=◌, ◌>>◌, reject_if, >>=-eq-accept, reject_if-accept,
}
use cekat_event_sdk.Json.{
  Json, null, bool, int, float, str, arr, obj, Items, nil, cons, Members, end, member, get,
}
use cekat_event_sdk.Package.{
  ManifestError, not_an_object, document_keys, schema_version, unknown_language, other_language,
  other_version, no_artifacts, artifact_keys, bad_sha256, bad_size, not_unique, not_sorted,
  repeated_key, languages, Artifact, listed, has_member, check_path,
}
use cekat_event_sdk.Package.Sorting.{Keyed, sort}

unfoldable pub keys_within : Members → List Text → Bool
keys_within end expected = true
keys_within (member key value rest) expected = listed key expected && keys_within rest expected

unfoldable pub has_all : List Text → Members → Bool
has_all [] members = true
has_all (key ∷ keys) members = has_member key members && has_all keys members

-- set(members) == expected
abbrev pub has_keys : List Text → Members → Bool
has_keys expected members = keys_within members expected && has_all expected members

abbrev or_null : Option Json → Json
or_null none = null
or_null (some j) = j

abbrev pub value_of : Text → Members → Json
value_of key members = or_null (get key members)

-- _is_int(value) and value == 1
abbrev pub is_one : Json → Bool
is_one (int (pos n)) = n == 1
is_one (int (negsuc n)) = false
is_one null = false
is_one _ = false

abbrev pub is_language : Json → Bool
is_language (str t) = listed t languages
is_language null = false
is_language _ = false

abbrev pub is_text : Text → Json → Bool
is_text expected (str t) = text_eq t expected
is_text expected null = false
is_text expected _ = false

abbrev is_hex : ℕ → Bool
is_hex c = between b'0' b'9' c || between b'a' b'f' c

unfoldable pub all_hex : Text → Bool
all_hex [] = true
all_hex (c ∷ t) = is_hex c && all_hex t

abbrev pub is_sha256 : Text → Bool
is_sha256 t = length t == 64 && all_hex t

pub check_sha256 : Text → Json → Verdict ManifestError Text
unfolding all_hex
check_sha256 path (str t) = if is_sha256 t then accept t else reject (bad_sha256 path)
check_sha256 path null = reject (bad_sha256 path)
check_sha256 path _ = reject (bad_sha256 path)

pub check_size : Text → Json → Verdict ManifestError ℕ
check_size path (int (pos (suc n))) = accept (suc n)
check_size path (int (pos zero)) = reject (bad_size path)
check_size path (int (negsuc n)) = reject (bad_size path)
check_size path null = reject (bad_size path)
check_size path _ = reject (bad_size path)

-- One round of the loop over the artifacts.
unfoldable pub check_artifact : ℕ → Json → Verdict ManifestError Artifact
unfolding check_path check_sha256 check_size get keys_within has_all
check_artifact index (obj members) = do
  reject_if (not (has_keys (codes "path" ∷ codes "sha256" ∷ codes "size_bytes" ∷ []) members))
      (artifact_keys index)
  path ← check_path (value_of (codes "path") members)
  sha256 ← check_sha256 path (value_of (codes "sha256") members)
  size_bytes ← check_size path (value_of (codes "size_bytes") members)
  accept (record { path = path; sha256 = sha256; size_bytes = size_bytes })
check_artifact index null = reject (artifact_keys index)
check_artifact index _ = reject (artifact_keys index)

unfoldable pub check_artifacts : ℕ → Items → Verdict ManifestError (List Artifact)
unfolding check_artifact
check_artifacts index nil = accept []
check_artifacts index (cons raw raws) = do
  artifact ← check_artifact index raw
  artifacts ← check_artifacts (index + 1) raws
  accept (artifact ∷ artifacts)

-- len(set(paths)) == len(paths)
unfoldable pub distinct : List Text → Bool
distinct [] = true
distinct (t ∷ ts) = not (listed t ts) && distinct ts

-- The paths with their UTF-8 bytes; a lone surrogate has none.
unfoldable pub keyed : List Text → Option (List Keyed)
keyed [] = some []
keyed (t ∷ ts) = elim (encode t) [
  | none ↦ none
  | some bytes ↦ elim (keyed ts) [ none ↦ none | some rest ↦ some ((bytes, t) ∷ rest) ]
]

unfoldable pub same_texts : List Text → List Text → Bool
same_texts [] us = elim us [ [] ↦ true | u ∷ vs ↦ false ]
same_texts (t ∷ ts) us = elim us [ [] ↦ false | u ∷ vs ↦ text_eq t u && same_texts ts vs ]

abbrev texts_of : List Keyed → List Text
texts_of xs = map (λ (x : Keyed). x.1) xs

-- UnicodeEncodeError is a ValueError, which main does not catch.
pub check_sorted : List Text → Option (List Keyed) → Verdict ManifestError (Unit {0})
unfolding same_texts
check_sorted paths none = crash (codes "UnicodeEncodeError")
check_sorted paths (some xs) = reject_if (not (same_texts paths (texts_of (sort xs)))) not_sorted

abbrev pub paths_of : List Artifact → List Text
paths_of artifacts = map (λ (a : Artifact). a.path) artifacts

check_list : Json → Verdict ManifestError (List Artifact)
unfolding check_artifacts
check_list (arr (cons raw raws)) = check_artifacts 0 (cons raw raws)
check_list (arr nil) = reject no_artifacts
check_list null = reject no_artifacts
check_list _ = reject no_artifacts

abbrev pub document_names : List Text
document_names =
    codes "schema_version" ∷ codes "language" ∷ codes "version" ∷ codes "artifacts" ∷ []

unfoldable pub parse_manifest :
    (language version : Text) → Json → Verdict ManifestError (List Artifact)
unfolding check_list check_sorted distinct keyed
parse_manifest language version (obj document) = do
  reject_if (not (has_keys document_names document)) document_keys
  reject_if (not (is_one (value_of (codes "schema_version") document))) schema_version
  reject_if (not (is_language (value_of (codes "language") document))) unknown_language
  reject_if (not (is_text language (value_of (codes "language") document)))
      (other_language language)
  reject_if (not (is_text version (value_of (codes "version") document))) (other_version version)
  artifacts ← check_list (value_of (codes "artifacts") document)
  reject_if (not (distinct (paths_of artifacts))) not_unique
  check_sorted (paths_of artifacts) (keyed (paths_of artifacts))
  accept artifacts
parse_manifest language version null = reject not_an_object
parse_manifest language version _ = reject not_an_object
