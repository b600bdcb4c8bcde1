-- ===== src/Package.antt =====
-- scripts/validate-package-manifest.py: the manifest of a package that was built, and its check. An
-- error is its kind, with the path, the index or the names that it is about; its wording is left out.
pub mod Files
pub mod Sorting
pub mod Paths
pub mod Listings
use cekat_event_sdk.Base.{
  ℕ, zero, suc, ◌+◌, ℤ, pos, negsuc, Text, Bool, true, false, ◌&&◌, ◌||◌, not, Option, none, some,
  List, [], ◌∷◌, ◌==◌, leb, ltb, between, if◌then◌else◌, codes, text_eq, split, encode, length, map,
}
use cekat_event_sdk.Verdicts.{
  Verdict, reject, crash, accept, ◌>>=◌, ◌>>◌, reject_if, >>=-eq-accept, reject_if-accept,
}
use cekat_event_sdk.Json.{
  Json, null, bool, int, float, str, arr, obj, Items, nil, cons, Members, end, member, get,
}

pub data ManifestError : Type 0 where
  non_json_number repeated_key : Text → ManifestError
  not_utf_8 not_json : ManifestError
  empty_path : ManifestError
  backslash_or_nul absolute_path bad_component : (path : Text) → ManifestError
  lists_itself : ManifestError
  not_an_object document_keys schema_version unknown_language : ManifestError
  other_language other_version : (expected : Text) → ManifestError
  no_artifacts : ManifestError
  artifact_keys : (index : ℕ) → ManifestError
  bad_sha256 bad_size : (path : Text) → ManifestError
  not_unique not_sorted : ManifestError
  not_named not_there not_regular linked_output : ManifestError
  symbolic_link non_regular_file : (path : Text) → ManifestError
  missing_files unlisted_files : (paths : List Text) → ManifestError
  other_size : (path : Text) (size said : ℕ) → ManifestError
  other_hash : (path : Text) → ManifestError
  not_a_directory language_directories : ManifestError
  of_language : (language : Text) → ManifestError → ManifestError

abbrev pub languages : List Text
languages =
    codes "go"
    ∷ codes "node"
    ∷ codes "python"
    ∷ codes "php"
    ∷ codes "java"
    ∷ codes "dotnet"
    ∷ codes "ruby"
    ∷ []

abbrev pub manifest_name : Text
manifest_name = codes "manifest.json"

pub record Artifact : Type 0 where
  pub path : Text
  pub sha256 : Text
  pub size_bytes : ℕ

unfoldable pub listed : Text → List Text → Bool
listed t [] = false
listed t (u ∷ us) = text_eq u t || listed t us

unfoldable pub has_member : Text → Members → Bool
has_member key end = false
has_member key (member name value rest) = text_eq name key || has_member key rest

abbrev is_backslash_or_nul : ℕ → Bool
is_backslash_or_nul c = c == 92 || c == 0

unfoldable pub any_char : (ℕ → Bool) → Text → Bool
any_char test [] = false
any_char test (c ∷ t) = test c || any_char test t

abbrev starts_with_slash : Text → Bool
starts_with_slash [] = false
starts_with_slash (c ∷ t) = c == b'/'

abbrev pub is_bad_component : Text → Bool
is_bad_component part = text_eq part [] || text_eq part (codes ".") || text_eq part (codes "..")

unfoldable pub any_bad_component : List Text → Bool
any_bad_component [] = false
any_bad_component (part ∷ parts) = is_bad_component part || any_bad_component parts

check_text_path : Text → Verdict ManifestError Text
check_text_path [] = reject empty_path
check_text_path (c ∷ t) = do
  reject_if (any_char is_backslash_or_nul (c ∷ t)) (backslash_or_nul (c ∷ t))
  reject_if (starts_with_slash (c ∷ t)) (absolute_path (c ∷ t))
  reject_if (any_bad_component (split b'/' (c ∷ t))) (bad_component (c ∷ t))
  reject_if (text_eq (c ∷ t) manifest_name) lists_itself
  accept (c ∷ t)

-- _check_path
unfoldable pub check_path : Json → Verdict ManifestError Text
unfolding check_text_path any_char any_bad_component
check_path (str path) = check_text_path path
check_path null = reject empty_path
check_path _ = reject empty_path
