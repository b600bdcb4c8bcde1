-- ===== src/Matrix/Entries.antt =====
-- The checks that `validate` of scripts/validate-compatibility-matrix.py makes of one language: its
-- runtimes, CI rows, profiles, release version, frameworks and lines that reach end of support.
use cekat_event_sdk.Base.{
  ℕ, ◌+◌, Text, Bool, true, false, ◌&&◌, not, Option, List, [], ◌∷◌, ◌++◌, ◌==◌, if◌then◌else◌,
  codes, text_eq, split,
}
use cekat_event_sdk.Json.{Json, null, arr, Items, nil, cons, get}
use cekat_event_sdk.Protocol.{Loaded}
use cekat_event_sdk.Verdicts.{reject, accept, ◌>>=◌, ◌>>◌, reject_if}
use cekat_event_sdk.Package.{listed}
use cekat_event_sdk.Package.Listings.{value_of, same_texts}
use cekat_event_sdk.Patterns.{occurs, starts_with}
use cekat_event_sdk.Matrix.{
  not_an_array, no_version, profiles_differ, not_in_evidence, other_runtime, other_values,
  no_ci_value, other_profile, Checked, Repository, profiles, at_name, keys, string, strings,
  repo_file,
}
use cekat_event_sdk.Matrix.Dates.{is_digit}
use cekat_event_sdk.Matrix.Names.{names_are}
use cekat_event_sdk.Matrix.Runtimes.{declared_runtime}
use cekat_event_sdk.Matrix.Workflows.{ci_matrix_values, release_readiness_values}

-- The items of an array, which has at least one.
unfoldable pub some_items : Json → (place : Text) → Checked Items
some_items (arr (cons item items)) place = accept (cons item items)
some_items (arr nil) place = reject (not_an_array place)
some_items null place = reject (not_an_array place)
some_items _ place = reject (not_an_array place)

unfoldable pub any_items : Json → (place : Text) → Checked Items
any_items (arr items) place = accept items
any_items null place = reject (not_an_array place)
any_items _ place = reject (not_an_array place)

-- in_evidence
unfoldable pub in_evidence : (evidence value place : Text) → Checked (Unit {0})
unfolding occurs
in_evidence evidence value place =
    reject_if (not (occurs value evidence)) (not_in_evidence place value)

-- Items checked one after another, each with its index; the results in their order.
unfoldable pub each_item {κ} : {A : Type κ} → (ℕ → Json → Checked A) → ℕ → Items → Checked (List A)
each_item check index nil = accept []
each_item check index (cons item items) = do
  result ← check index item
  results ← each_item check (index + 1) items
  accept (result ∷ results)

module _ (digit_value : ℕ → Option ℕ) where
  unfoldable pub all_digits : Text → Bool
  all_digits [] = true
  all_digits (c ∷ t) = is_digit digit_value c && all_digits t

  abbrev is_number : Text → Bool
  is_number [] = false
  is_number (c ∷ t) = all_digits (c ∷ t)

  unfoldable pub all_numbers : List Text → Bool
  unfolding all_digits
  all_numbers [] = true
  all_numbers (part ∷ parts) = is_number part && all_numbers parts

  abbrev two_or_more : List Text → Bool
  two_or_more [] = false
  two_or_more (part ∷ []) = false
  two_or_more (part ∷ p ∷ parts) = true

  abbrev without_v : Text → Text
  without_v [] = []
  without_v (c ∷ t) = if c == b'v' then t else c ∷ t

  -- re.fullmatch of `v?\d+(\.\d+)+`: two numbers or more between dots.
  unfoldable pub is_exact_version : Text → Bool
  unfolding all_numbers
  is_exact_version t =
      two_or_more (split b'.' (without_v t)) && all_numbers (split b'.' (without_v t))

module _ (repository : Repository) (loads : Text → Loaded) (str_of : Json → Text) where
  unfoldable pub check_runtime : (place : Text) → Json → Checked (Unit {0})
  unfolding keys string repo_file declared_runtime get
  check_runtime place runtime = do
    members ← keys runtime (codes "name" ∷ codes "declared" ∷ codes "declared_in" ∷ []) place
    name ← string (value_of (codes "name") members) (at_name place (codes "name"))
    declared ← string (value_of (codes "declared") members) (at_name place (codes "declared"))
    source ←
        keys (value_of (codes "declared_in") members) (codes "file" ∷ codes "kind" ∷ [])
          (at_name place (codes "declared_in"))
    found ←
        repo_file repository (value_of (codes "file") source)
          (at_name place (codes "declared_in.file"))
    kind ← string (value_of (codes "kind") source) (at_name place (codes "declared_in.kind"))
    actual ← declared_runtime loads str_of found.1 kind
    reject_if (not (text_eq actual declared)) (other_runtime place actual declared)

-- One CI row: the values of the workflow's matrix, which the row repeats.
unfoldable pub check_ci : (workflow place : Text) → Json → Checked (List Text)
unfolding keys string strings ci_matrix_values same_texts get
check_ci workflow place ci = do
  members ← keys ci (codes "job" ∷ codes "key" ∷ codes "values" ∷ []) place
  values ← strings false (value_of (codes "values") members) (at_name place (codes "values"))
  job ← string (value_of (codes "job") members) (at_name place (codes "job"))
  key ← string (value_of (codes "key") members) (at_name place (codes "key"))
  actual ← ci_matrix_values workflow job key
  reject_if (not (same_texts actual values)) (other_values place actual values)
  accept values

-- One profile: its CI value.
unfoldable pub check_profile :
    (digit_value : ℕ → Option ℕ) (evidence : Text) (values : List Text) (place : Text)
    → Json
    → Checked Text
unfolding keys string is_exact_version in_evidence get listed
check_profile digit_value evidence values place profile = do
  members ← keys profile (codes "name" ∷ codes "ci_value" ∷ codes "observed" ∷ []) place
  ci_value ← string (value_of (codes "ci_value") members) (at_name place (codes "ci_value"))
  reject_if (not (listed ci_value values)) (no_ci_value place ci_value values)
  observed ← string (value_of (codes "observed") members) (at_name place (codes "observed"))
  reject_if (not (is_exact_version digit_value observed)) (no_version place observed)
  in_evidence evidence observed (at_name place (codes "observed"))
  accept ci_value

-- The loop over the profiles, with the value of the current profile so far.
unfoldable pub check_profiles_from :
    (digit_value : ℕ → Option ℕ) (evidence : Text) (values : List Text) (place : Text)
    → List Text
    → (current : Text) → Items
    → Checked Text
unfolding check_profile
check_profiles_from digit_value evidence values place names current nil = accept current
check_profiles_from digit_value evidence values place [] current (cons profile items) =
    accept current
check_profiles_from digit_value evidence values place (name ∷ names) current (cons profile items) =
    check_profile digit_value evidence values (at_name place (codes "profiles." ++ name)) profile
    >>= λ ci_value.
        check_profiles_from digit_value evidence values place names
          (if text_eq name (codes "current") then ci_value else current) items

-- The profiles are `minimum` and `current`, in this order; their names stand in their places.
unfoldable pub check_profile_list :
    (digit_value : ℕ → Option ℕ) (evidence : Text) (values : List Text) (place : Text)
    → Json
    → Checked Text
unfolding names_are check_profiles_from
check_profile_list digit_value evidence values place (arr items) = do
  reject_if (not (names_are (codes "name") items profiles)) (profiles_differ place)
  check_profiles_from digit_value evidence values place profiles [] items
check_profile_list digit_value evidence values place null = reject (profiles_differ place)
check_profile_list digit_value evidence values place _ = reject (profiles_differ place)

-- The version that the release readiness workflow installs, which is of the current profile.
unfoldable pub check_release : (workflow language place current : Text) → Json → Checked (Unit {0})
unfolding keys string release_readiness_values same_texts starts_with get
check_release workflow language place current value = do
  members ← keys value (codes "key" ∷ codes "value" ∷ []) place
  version ← string (value_of (codes "value") members) (at_name place (codes "value"))
  key ← string (value_of (codes "key") members) (at_name place (codes "key"))
  actual ← release_readiness_values workflow language key
  reject_if (not (same_texts actual (version ∷ []))) (other_values place actual (version ∷ []))
  reject_if (not (text_eq version current) && not (starts_with (current ++ codes ".") version))
      (other_profile place version current)
