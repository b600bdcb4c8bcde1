-- ===== src/Matrix/Validation.antt =====
-- `validate` of scripts/validate-compatibility-matrix.py: one language, and the whole
-- matrix. json.loads with its hook, json.loads without one, and
-- str() of a value that is no text are parameters.
use cekat_event_sdk.Base.{
  ℕ, ℤ, pos, negsuc, Text, Bool, true, not, Option, none, some, List, [], ◌∷◌, ◌++◌, ltb,
  if◌then◌else◌, codes,
}
use cekat_event_sdk.Json.{Json, null, arr, Items, nil, cons, Members, end, get}
use cekat_event_sdk.Protocol.{Loaded}
use cekat_event_sdk.Timestamps.{Date}
use cekat_event_sdk.Verdicts.{reject, crash, accept, ◌>>=◌, ◌>>◌, reject_if, or_reject}
use cekat_event_sdk.Package.{languages}
use cekat_event_sdk.Package.Listings.{value_of}
use cekat_event_sdk.Matrix.{
  not_json, schema_version, not_a_full_date, languages_differ, in_the_future, too_old, Checked,
  File, Repository, at_name, at_index, unique_object, keys, string, repo_file, read_text,
}
use cekat_event_sdk.Matrix.Dates.{is_before, days_between, has_full_form, parse_date}
use cekat_event_sdk.Matrix.Names.{names_are, all_hashed, check_names, equals_one}
use cekat_event_sdk.Matrix.Entries.{
  some_items, any_items, each_item, check_runtime, check_ci, check_profile_list, check_release,
}
use cekat_event_sdk.Matrix.Supports.{
  Warning, check_framework, framework_place, concat_warnings, check_line,
}

abbrev pub entry_keys : List Text
entry_keys =
    codes "language"
    ∷ codes "evidence"
    ∷ codes "runtimes"
    ∷ codes "ci"
    ∷ codes "profiles"
    ∷ codes "release_readiness"
    ∷ codes "frameworks"
    ∷ codes "end_of_support"
    ∷ []

-- The values of the first CI row.
abbrev pub first_values : List (List Text) → List Text
first_values [] = []
first_values (values ∷ rest) = values

-- (root / path).read_text(encoding="utf-8")
unfoldable pub read_file : File → Checked Text
unfolding read_text
read_file none = crash (codes "FileNotFoundError")
read_file (some contents) = read_text contents

-- The languages are the fixed ones, in this order; their names stand in their places.
unfoldable pub check_languages : Json → Checked Items
unfolding names_are
check_languages (arr items) =
    if names_are (codes "language") items languages then accept items else reject languages_differ
check_languages null = reject languages_differ
check_languages _ = reject languages_differ

-- The gate on the age of the matrix, with --as-of.
abbrev pub is_above : ℕ → ℤ → Bool
is_above days (pos limit) = ltb limit days
is_above days (negsuc n) = true

abbrev pub check_days : (days : ℕ) → Option ℤ → Checked (Unit {0})
check_days days none = accept tt
check_days days (some limit) = reject_if (is_above days limit) (too_old days)

unfoldable pub check_age : Option Date → Date → (max_age_days : Option ℤ) → Checked (Unit {0})
unfolding is_before
check_age none verified_on max_age_days = accept tt
check_age (some today) verified_on max_age_days = do
  reject_if (is_before today verified_on) in_the_future
  check_days (days_between today verified_on) max_age_days

module _ (digit_value : ℕ → Option ℕ) (loads : Text → Loaded) (str_of : Json → Text)
    (repository : Repository) (as_of : Option Date) where
  unfoldable pub one_framework : (evidence place : Text) → Json → Checked (Unit {0})
  unfolding framework_place check_framework
  one_framework evidence place framework = do
    named ← framework_place str_of place framework
    check_framework repository evidence named framework

  -- The runtimes, CI rows, profiles and release version of one language.
  unfoldable pub check_runs :
      (ci_workflow release_workflow language evidence place : Text) → Members → Checked (Unit {0})
  unfolding some_items each_item check_runtime check_ci check_profile_list check_release get
  check_runs ci_workflow release_workflow language evidence place entry = do
    runtimes ← some_items (value_of (codes "runtimes") entry) (at_name place (codes "runtimes"))
    agreed ←
        each_item
          (λ index.
            check_runtime repository loads str_of
              (at_index (at_name place (codes "runtimes")) index))
          0 runtimes
    rows ← some_items (value_of (codes "ci") entry) (at_name place (codes "ci"))
    values ←
        each_item (λ index. check_ci ci_workflow (at_index (at_name place (codes "ci")) index)) 0
          rows
    current ←
        check_profile_list digit_value evidence (first_values values) place
          (value_of (codes "profiles") entry)
    check_release release_workflow language (at_name place (codes "release_readiness")) current
        (value_of (codes "release_readiness") entry)

  -- The frameworks of one language, and its lines that reach end of support.
  unfoldable pub check_supports :
      (language evidence place : Text) → Members → Checked (List Warning)
  unfolding some_items any_items each_item all_hashed check_names one_framework check_line
      concat_warnings get
  check_supports language evidence place entry = do
    frameworks ←
        some_items (value_of (codes "frameworks") entry) (at_name place (codes "frameworks"))
    check_names (at_name place (codes "frameworks")) (all_hashed (codes "name") frameworks)
    supported ← each_item (λ index. one_framework evidence place) 0 frameworks
    lines ←
        any_items (value_of (codes "end_of_support") entry) (at_name place (codes "end_of_support"))
    warnings ←
        each_item
          (λ index.
            check_line digit_value as_of language evidence
              (at_index (at_name place (codes "end_of_support")) index))
          0 lines
    accept (concat_warnings warnings)

  -- One round of the loop over the languages.
  unfoldable pub check_entry :
      (ci_workflow release_workflow language : Text) → Json → Checked (List Warning)
  unfolding keys repo_file read_text check_runs check_supports get
  check_entry ci_workflow release_workflow language value = do
    let place = codes "languages." ++ language
    entry ← keys value entry_keys place
    found ←
        repo_file repository (value_of (codes "evidence") entry) (at_name place (codes "evidence"))
    evidence ← read_text found.1
    check_runs ci_workflow release_workflow language evidence place entry
    check_supports language evidence place entry

  -- The loop over the languages.
  unfoldable pub check_entries :
      (ci_workflow release_workflow : Text) → List Text → Items → Checked (List Warning)
  unfolding check_entry
  check_entries ci_workflow release_workflow names nil = accept []
  check_entries ci_workflow release_workflow [] (cons value values) = accept []
  check_entries ci_workflow release_workflow (name ∷ names) (cons value values) = do
    here ← check_entry ci_workflow release_workflow name value
    later ← check_entries ci_workflow release_workflow names values
    accept (here ++ later)

  -- The loop over the languages, with the workflows that it reads.
  unfoldable pub check_repository : Items → Checked (List Warning)
  unfolding read_file check_entries
  check_repository entries = do
    ci_workflow ← read_file (repository (codes ".github/workflows/ci.yml"))
    release_workflow ← read_file (repository (codes ".github/workflows/release-readiness.yml"))
    check_entries ci_workflow release_workflow languages entries

  -- The checks of the document.
  unfoldable pub check_matrix : (max_age_days : Option ℤ) → Json → Checked (Members × List Warning)
  unfolding keys string parse_date has_full_form check_languages check_repository check_age get
  check_matrix max_age_days document = do
    members ←
        keys document (codes "schema_version" ∷ codes "verified_on" ∷ codes "languages" ∷ [])
          (codes "matrix")
    reject_if (not (equals_one (value_of (codes "schema_version") members))) schema_version
    raw ← string (value_of (codes "verified_on") members) (codes "verified_on")
    verified_on ← parse_date digit_value raw (codes "verified_on")
    reject_if (not (has_full_form digit_value raw)) not_a_full_date
    entries ← check_languages (value_of (codes "languages") members)
    warnings ← check_repository entries
    check_age as_of verified_on max_age_days
    accept (members, warnings)

  -- `loads_pairs hook text` is json.loads with the hook for the members of an object; `none` is
  -- JSONDecodeError.
  unfoldable pub validate :
      (loads_pairs : (List (Text × Json) → Checked Members) → Text → Checked (Option Json))
      (matrix : File) (max_age_days : Option ℤ)
      → Checked (Members × List Warning)
  unfolding read_file unique_object check_matrix
  validate loads_pairs matrix max_age_days = do
    text ← read_file matrix
    loaded ← loads_pairs (unique_object end) text
    document ← or_reject loaded not_json
    check_matrix max_age_days document
