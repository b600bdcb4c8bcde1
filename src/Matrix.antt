-- ===== src/Matrix.antt =====
-- scripts/validate-compatibility-matrix.py: what each SDK supports, checked against the repository.
-- An error is its kind, with the place that it names and the values that it compares; its wording is
-- left out. The repository is a function of a path: no regular file there, a file that is not UTF-8,
-- or the file's text.
pub mod Accepted
pub mod Agrees
pub mod Dates
pub mod Installs
pub mod Entries
pub mod Languages
pub mod Listed
pub mod Names
pub mod Reads
pub mod Rendering
pub mod Runtimes
pub mod Supported
pub mod Supports
pub mod Validation
pub mod Workflows
use cekat_event_sdk.Base.{
  ℕ, zero, suc, ◌+◌, Text, Bool, true, false, ◌&&◌, ◌||◌, not, Option, none, some, List, [], ◌∷◌,
  ◌++◌, ◌==◌, if◌then◌else◌, codes, text_eq, is_empty, strip, split, decimal,
}
use cekat_event_sdk.Json.{
  Json, null, bool, int, float, str, arr, obj, Items, nil, cons, Members, put,
}
use cekat_event_sdk.Verdicts.{Verdict, reject, crash, accept, ◌>>=◌, ◌>>◌, reject_if, or_reject}
use cekat_event_sdk.Package.{any_char, any_bad_component, listed, has_member}
use cekat_event_sdk.Package.Listings.{has_keys}
use cekat_event_sdk.Patterns.{starts_with}

pub data MatrixError : Type 0 where
  not_json : MatrixError
  repeated_key : (key : Text) → MatrixError
  wrong_keys not_a_string not_an_array : (place : Text) → MatrixError
  bad_path no_file bad_date no_version : (place value : Text) → MatrixError
  unknown_kind : (kind : Text) → MatrixError
  no_job no_matrix : (job : Text) → MatrixError
  schema_version not_a_full_date languages_differ : MatrixError
  profiles_differ repeated_names : (place : Text) → MatrixError
  not_in_evidence no_longer_contains : (place value : Text) → MatrixError
  other_runtime : (place actual declared : Text) → MatrixError
  other_values : (place : Text) (actual values : List Text) → MatrixError
  no_ci_value : (place value : Text) (values : List Text) → MatrixError
  other_profile : (place value current : Text) → MatrixError
  ended : (language component line date : Text) → MatrixError
  in_the_future : MatrixError
  too_old : (days : ℕ) → MatrixError

abbrev pub Checked {κ} : Type κ → Type κ
Checked A = Verdict MatrixError A

abbrev pub File : Type 0
File = Option (Option Text)

abbrev pub Repository : Type 0
Repository = (path : Text) → File

abbrev pub profiles : List Text
profiles = codes "minimum" ∷ codes "current" ∷ []

abbrev pub warning_days : ℕ
warning_days = 90

-- f"{place}.{name}" and f"{place}[{index}]"
abbrev pub at_name : (place name : Text) → Text
at_name place name = place ++ b'.' ∷ name

abbrev pub at_index : (place : Text) (index : ℕ) → Text
at_index place index = place ++ b'[' ∷ (decimal index ++ b']' ∷ [])

-- _unique_object, the hook that json.loads calls with the members of each object.
unfoldable pub unique_object : Members → List (Text × Json) → Checked Members
unique_object result [] = accept result
unique_object result ((key, value) ∷ pairs) =
    if has_member key result
    then reject (repeated_key key)
    else unique_object (put key value result) pairs

-- _keys
unfoldable pub keys : Json → List Text → (place : Text) → Checked Members
keys (obj members) expected place =
    if has_keys expected members then accept members else reject (wrong_keys place)
keys null expected place = reject (wrong_keys place)
keys _ expected place = reject (wrong_keys place)

-- _string
unfoldable pub string : Json → (place : Text) → Checked Text
unfolding strip
string (str value) place =
    if is_empty (strip value) then reject (not_a_string place) else accept value
string null place = reject (not_a_string place)
string _ place = reject (not_a_string place)

-- The items of _strings.
unfoldable pub strings_from : ℕ → Items → (place : Text) → Checked (List Text)
unfolding string
strings_from index nil place = accept []
strings_from index (cons item items) place = do
  value ← string item (at_index place index)
  values ← strings_from (index + 1) items place
  accept (value ∷ values)

-- _strings
unfoldable pub strings : (allow_empty : Bool) → Json → (place : Text) → Checked (List Text)
unfolding strings_from
strings allow_empty (arr nil) place = if allow_empty then accept [] else reject (not_an_array place)
strings allow_empty (arr (cons item items)) place = strings_from 0 (cons item items) place
strings allow_empty null place = reject (not_an_array place)
strings allow_empty _ place = reject (not_an_array place)

abbrev is_skipped : Text → Bool
is_skipped part = text_eq part [] || text_eq part (codes ".")

-- not PurePosixPath(path).parts, of a path that begins with no slash
unfoldable pub has_no_parts : List Text → Bool
has_no_parts [] = true
has_no_parts (part ∷ parts) = is_skipped part && has_no_parts parts

abbrev pub is_bad_path : Text → Bool
is_bad_path path =
    starts_with (codes "/") path
    || any_char (λ c. c == 92) path
    || any_bad_component (split b'/' path)
    || has_no_parts (split b'/' path)

-- What a check reads from a file that is there.
unfoldable pub file_at : Repository → (place path : Text) → Checked (Option Text)
file_at repository place path = or_reject (repository path) (no_file place path)

-- _repo_file: the path and the file.
unfoldable pub repo_file : Repository → Json → (place : Text) → Checked (Text × Option Text)
unfolding string file_at any_char any_bad_component has_no_parts
repo_file repository value place = do
  path ← string value place
  reject_if (is_bad_path path) (bad_path place path)
  contents ← file_at repository place path
  accept (path, contents)

-- file.read_text(encoding="utf-8")
unfoldable pub read_text : Option Text → Checked Text
read_text none = crash (codes "UnicodeDecodeError")
read_text (some text) = accept text
