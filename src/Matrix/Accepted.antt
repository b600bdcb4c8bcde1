-- ===== src/Matrix/Accepted.antt =====
-- What a compatibility matrix is that `validate` of scripts/validate-compatibility-matrix.py accepts.
use mathlib.Core.Path.{subst}
use cekat_event_sdk.Base.{
  ℕ, ◌≡◌, ap, ◌∙◌, inl, inr, ℤ, Text, true, false, not, Option, none, some, List, codes, Bool-cases,
}
use cekat_event_sdk.Json.{Json, null, str, arr, obj, Items, Members, end}
use cekat_event_sdk.Protocol.{Loaded}
use cekat_event_sdk.Timestamps.{Date}
use cekat_event_sdk.Verdicts.{
  reject, accept, reject_if, >>=-eq-accept, accept_injective, reject_if-accept, or_reject,
  or_reject-accept,
}
use cekat_event_sdk.Package.{languages}
use cekat_event_sdk.Package.Listings.{value_of, is_text}
use cekat_event_sdk.Matrix.{Checked, File, Repository, unique_object, keys, string}
use cekat_event_sdk.Matrix.Dates.{is_before, days_between, has_full_form, read_date, parse_date}
use cekat_event_sdk.Matrix.Dates.Calendar.{IsDate, read_date-IsDate}
use cekat_event_sdk.Matrix.Names.{names_are, equals_one}
use cekat_event_sdk.Matrix.Supports.{Warning}
use cekat_event_sdk.Matrix.Validation.{
  read_file, check_languages, is_above, check_age, check_repository, check_matrix, validate,
}
use cekat_event_sdk.Matrix.Reads.{
  reject_unless-accept, keys-accept, string-accept, read_text-accept,
}
use cekat_event_sdk.Matrix.Listed.{AgreeEntries, check_entries-AgreeEntries}

-- With --as-of, the matrix was verified on that day or before, and not too long before.
abbrev pub IsFresh : Option Date → Date → (max_age_days : Option ℤ) → Type 0
IsFresh none verified_on max_age_days = Unit
IsFresh (some today) verified_on none = is_before today verified_on ≡ false
IsFresh (some today) verified_on (some limit) =
    (is_before today verified_on ≡ false)
    × (is_above (days_between today verified_on) limit ≡ false)

check_age-IsFresh :
    (as_of : Option Date) (verified_on : Date) (max_age_days : Option ℤ)
    → check_age as_of verified_on max_age_days ≡ accept tt
    → IsFresh as_of verified_on max_age_days
unfolding check_age
check_age-IsFresh none verified_on max_age_days h = tt
check_age-IsFresh (some today) verified_on none h =
    let (_, past, _) = >>=-eq-accept (reject_if (is_before today verified_on) _) _ h in
    reject_if-accept (is_before today verified_on) _ past
check_age-IsFresh (some today) verified_on (some limit) h =
    let (_, past, h1) = >>=-eq-accept (reject_if (is_before today verified_on) _) _ h in
    (
      reject_if-accept (is_before today verified_on) _ past,
      reject_if-accept (is_above (days_between today verified_on) limit) _ h1,
    )

check_languages-accept :
    (j : Json) (entries : Items)
    → check_languages j ≡ accept entries
    → (j ≡ arr entries) × (names_are (codes "language") entries languages ≡ true)
unfolding check_languages
check_languages-accept (arr items) entries h =
    elim (Bool-cases (names_are (codes "language") items languages)) [
      | inl same ↦
          let h' : accept items ≡ accept entries = rw same at h in
          let found : items ≡ entries = accept_injective h' in
          (ap arr found, subst (λ xs. names_are (codes "language") xs languages ≡ true) found same)
      | inr other ↦ absurd (let h' : reject _ ≡ accept entries = rw other at h in cc)
    ]
check_languages-accept null entries h = cc
check_languages-accept _ entries h = cc

read_file-accept :
    (file : File) (text : Text) → read_file file ≡ accept text → file ≡ some (some text)
unfolding read_file
read_file-accept none text h = cc
read_file-accept (some contents) text h = ap some (read_text-accept contents text h)

module _ (digit_value : ℕ → Option ℕ) (loads : Text → Loaded) (str_of : Json → Text)
    (repository : Repository) (as_of : Option Date) where
  -- Entries that agree with the workflows of the repository.
  pub record AgreesRepository (entries : Items) (warnings : List Warning) : Type 0 where
    pub ci_workflow : Text
    pub has_ci : repository (codes ".github/workflows/ci.yml") ≡ some (some ci_workflow)
    pub release_workflow : Text
    pub has_release :
        repository (codes ".github/workflows/release-readiness.yml") ≡ some (some release_workflow)
    pub agree :
        AgreeEntries digit_value loads str_of repository as_of ci_workflow release_workflow
          languages entries warnings

  check_repository-AgreesRepository :
      (entries : Items) (warnings : List Warning)
      → names_are (codes "language") entries languages ≡ true
      → check_repository digit_value loads str_of repository as_of entries ≡ accept warnings
      → AgreesRepository entries warnings
  unfolding check_repository
  check_repository-AgreesRepository entries warnings named h =
      let (ci_workflow, has_ci, h1) =
        >>=-eq-accept (read_file (repository (codes ".github/workflows/ci.yml"))) _ h in
      let (release_workflow, has_release, h2) =
        >>=-eq-accept (read_file (repository (codes ".github/workflows/release-readiness.yml"))) _
          h1 in
      record {
        ci_workflow = ci_workflow;
        has_ci =
            read_file-accept (repository (codes ".github/workflows/ci.yml")) ci_workflow has_ci;
        release_workflow = release_workflow;
        has_release =
            read_file-accept (repository (codes ".github/workflows/release-readiness.yml"))
              release_workflow has_release;
        agree =
            check_entries-AgreeEntries digit_value loads str_of repository as_of ci_workflow
              release_workflow languages entries warnings named h2;
      }

  -- A matrix that agrees with the repository, and its warnings.
  pub record IsMatrix (max_age_days : Option ℤ) (document : Json) (result : Members × List Warning)
      : Type 0 where
    pub is_object : document ≡ obj result.0
    pub first_version : equals_one (value_of (codes "schema_version") result.0) ≡ true
    pub raw : Text
    pub says : value_of (codes "verified_on") result.0 ≡ str raw
    pub full_date : has_full_form digit_value raw ≡ true
    pub verified_on : Date
    pub is_date : read_date digit_value raw ≡ some verified_on
    pub on_calendar : IsDate verified_on
    pub fresh : IsFresh as_of verified_on max_age_days
    pub entries : Items
    pub has_entries : value_of (codes "languages") result.0 ≡ arr entries
    pub agrees : AgreesRepository entries result.1

  check_matrix-IsMatrix :
      (max_age_days : Option ℤ) (document : Json) (result : Members × List Warning)
      → check_matrix digit_value loads str_of repository as_of max_age_days document ≡ accept result
      → IsMatrix max_age_days document result
  unfolding check_matrix parse_date
  check_matrix-IsMatrix max_age_days document result h =
      let (ms, is_object, h1) = >>=-eq-accept (keys document _ _) _ h in
      let (_, version, h2) =
        >>=-eq-accept (reject_if (not (equals_one (value_of (codes "schema_version") ms))) _) _
          h1 in
      let (raw, says, h3) = >>=-eq-accept (string (value_of (codes "verified_on") ms) _) _ h2 in
      let (day, is_date, h4) = >>=-eq-accept (or_reject (read_date digit_value raw) _) _ h3 in
      let (_, full, h5) = >>=-eq-accept (reject_if (not (has_full_form digit_value raw)) _) _ h4 in
      let (entries, in_order, h6) =
        >>=-eq-accept (check_languages (value_of (codes "languages") ms)) _ h5 in
      let (warnings, agrees, h7) =
        >>=-eq-accept (check_repository digit_value loads str_of repository as_of entries) _ h6 in
      let (_, fresh, h8) = >>=-eq-accept (check_age as_of day max_age_days) _ h7 in
      let (has_entries, named) =
        check_languages-accept (value_of (codes "languages") ms) entries in_order in
      subst (IsMatrix max_age_days document) (accept_injective h8) (record {
        is_object = (keys-accept document _ _ ms is_object).0;
        first_version =
            reject_unless-accept (equals_one (value_of (codes "schema_version") ms)) _ version;
        raw = raw;
        says = (string-accept (value_of (codes "verified_on") ms) _ raw says).0;
        full_date = reject_unless-accept (has_full_form digit_value raw) _ full;
        verified_on = day;
        is_date = or_reject-accept (read_date digit_value raw) _ day is_date;
        on_calendar =
            read_date-IsDate digit_value raw day
              (or_reject-accept (read_date digit_value raw) _ day is_date);
        fresh = check_age-IsFresh as_of day max_age_days fresh;
        entries = entries;
        has_entries = has_entries;
        agrees = check_repository-AgreesRepository entries warnings named agrees;
      })

-- A matrix that is accepted is a document that json.loads reads with no repeated key, of schema
-- version 1, verified on a full date, which with --as-of is neither after that day nor too old. It
-- lists the languages in order, and each agrees with the repository: every runtime floor is what its
-- metadata file declares; every CI row has the values of ci.yml; the profiles run on values of the
-- first row and their exact versions, the tested versions and the end dates appear in the evidence;
-- the release version is the only one that release-readiness.yml installs and is the current
-- profile's; declarations of frameworks stand in their files; no line has ended with --as-of, and the
-- warnings are of the lines with at most 90 days left.
pub validate-IsMatrix :
    (digit_value : ℕ → Option ℕ) (loads : Text → Loaded) (str_of : Json → Text)
    (repository : Repository) (as_of : Option Date)
    (loads_pairs : (List (Text × Json) → Checked Members) → Text → Checked (Option Json))
    (matrix : File) (max_age_days : Option ℤ) (result : Members × List Warning)
    → validate digit_value loads str_of repository as_of loads_pairs matrix max_age_days
      ≡ accept result
    → (text : Text) × (document : Json) × (matrix ≡ some (some text))
      × (loads_pairs (unique_object end) text ≡ accept (some document))
      × IsMatrix digit_value loads str_of repository as_of max_age_days document result
unfolding validate
validate-IsMatrix digit_value loads str_of repository as_of loads_pairs matrix max_age_days result
      h =
    let (text, is_text, h1) = >>=-eq-accept (read_file matrix) _ h in
    let (loaded, is_loaded, h2) = >>=-eq-accept (loads_pairs (unique_object end) text) _ h1 in
    let (document, is_document, h3) = >>=-eq-accept (or_reject loaded _) _ h2 in
    (
      text,
      document,
      read_file-accept matrix text is_text,
      is_loaded ∙ ap accept (or_reject-accept loaded _ document is_document),
      check_matrix-IsMatrix digit_value loads str_of repository as_of max_age_days document result
          h3,
    )
