-- ===== src/Matrix/Languages.antt =====
-- What the object of one language is that scripts/validate-compatibility-matrix.py accepts.
use mathlib.Core.Path.{subst}
use cekat_event_sdk.Base.{
  ℕ, ◌+◌, ◌≡◌, refl, sym, Text, false, Option, none, some, List, [], ◌∷◌, codes,
}
use cekat_event_sdk.Json.{Json, arr, Items, nil, cons, Members}
use cekat_event_sdk.Protocol.{Loaded}
use cekat_event_sdk.Timestamps.{Date}
use cekat_event_sdk.Verdicts.{accept, >>=-eq-accept, accept_injective, reject_if-accept}
use cekat_event_sdk.Package.Listings.{value_of}
use cekat_event_sdk.Matrix.{Repository, at_name, at_index}
use cekat_event_sdk.Matrix.Names.{Hashed, all_hashed, repeats, check_names}
use cekat_event_sdk.Matrix.Entries.{some_items, any_items, each_item, check_ci, check_profile_list}
use cekat_event_sdk.Matrix.Supports.{Warning, framework_place, concat_warnings, check_line}
use cekat_event_sdk.Matrix.Validation.{first_values, one_framework, check_runs, check_supports}
use cekat_event_sdk.Matrix.Reads.{
  AllItems, some_items-accept, some_items-cons, any_items-accept, each_item-AllItems,
}
use cekat_event_sdk.Matrix.Agrees.{
  AgreesRuntime, check_runtime-AgreesRuntime, AgreesRow, check_ci-AgreesRow,
}
use cekat_event_sdk.Matrix.Installs.{
  AgreeProfiles, check_profile_list-AgreeProfiles, AgreesRelease, check_release-AgreesRelease,
}
use cekat_event_sdk.Matrix.Supported.{
  AgreesFramework, check_framework-AgreesFramework, AgreesLine, check_line-AgreesLine,
}

-- CI rows that agree, the first of which has these values.
abbrev pub AgreeRows : (workflow : Text) → Items → (primary : List Text) → Type 0
AgreeRows workflow nil primary = ⊥
AgreeRows workflow (cons row rows) primary =
    ((a : AgreesRow workflow row) × (a.values ≡ primary)) × AllItems (AgreesRow workflow) rows

each_item-AgreeRows :
    (workflow : Text) (place : ℕ → Text) (rows : Items) (values : List (List Text)) (j : Json)
    → (place' : Text) → some_items j place' ≡ accept rows
    → each_item (λ index. check_ci workflow (place index)) 0 rows ≡ accept values
    → AgreeRows workflow rows (first_values values)
unfolding each_item
each_item-AgreeRows workflow place nil values j place' e h = absurd (some_items-cons j place' e)
each_item-AgreeRows workflow place (cons row rows) values j place' e h =
    let (first, first_ok, h1) = >>=-eq-accept (check_ci workflow (place 0) row) _ h in
    let (rest, rest_ok, h2) =
      >>=-eq-accept (each_item (λ index. check_ci workflow (place index)) 1 rows) _ h1 in
    subst (λ vs. AgreeRows workflow (cons row rows) (first_values vs)) (accept_injective h2)
      (
        check_ci-AgreesRow workflow (place 0) row first first_ok,
        each_item-AllItems (AgreesRow workflow) (λ index. check_ci workflow (place index))
            (λ index j found e. (check_ci-AgreesRow workflow (place index) j found e).0) 1 rows rest
            rest_ok,
      )

-- Lines that agree, each with its warnings.
module _ (digit_value : ℕ → Option ℕ) (as_of : Option Date) (language evidence : Text) where
  abbrev pub AgreeLines : Items → List (List Warning) → Type 0
  AgreeLines nil [] = Unit
  AgreeLines nil (ws ∷ wss) = ⊥
  AgreeLines (cons value values) [] = ⊥
  AgreeLines (cons value values) (ws ∷ wss) =
      AgreesLine digit_value as_of language evidence value ws × AgreeLines values wss

  each_item-AgreeLines :
      (place : ℕ → Text) (index : ℕ) (lines : Items) (found : List (List Warning))
      → each_item (λ i. check_line digit_value as_of language evidence (place i)) index lines
        ≡ accept found
      → AgreeLines lines found
  unfolding each_item
  each_item-AgreeLines place index nil found h = subst (AgreeLines nil) (accept_injective h) tt
  each_item-AgreeLines place index (cons line lines) found h =
      let (ws, ws_ok, h1) =
        >>=-eq-accept (check_line digit_value as_of language evidence (place index) line) _ h in
      let (wss, wss_ok, h2) =
        >>=-eq-accept
          (each_item (λ i. check_line digit_value as_of language evidence (place i)) (index + 1)
            lines)
          _ h1 in
      subst (AgreeLines (cons line lines)) (accept_injective h2) (
        check_line-AgreesLine digit_value as_of language evidence (place index) line ws ws_ok,
        each_item-AgreeLines place (index + 1) lines wss wss_ok,
      )

module _ (digit_value : ℕ → Option ℕ) (loads : Text → Loaded) (str_of : Json → Text)
    (repository : Repository) (as_of : Option Date) where
  one_framework-AgreesFramework :
      (evidence place : Text) (framework : Json)
      → one_framework digit_value loads str_of repository as_of evidence place framework ≡ accept tt
      → AgreesFramework repository evidence framework
  unfolding one_framework
  one_framework-AgreesFramework evidence place framework h =
      let (named, _, h1) = >>=-eq-accept (framework_place str_of place framework) _ h in
      check_framework-AgreesFramework repository evidence named framework h1

  -- The runtimes, CI rows, profiles and release version of one language agree.
  pub record AgreeRuns (ci_workflow release_workflow language evidence : Text) (entry : Members)
      : Type 0 where
    pub runtimes : Items
    pub has_runtimes : value_of (codes "runtimes") entry ≡ arr runtimes
    pub runtimes_agree : AllItems (AgreesRuntime repository loads str_of) runtimes
    pub rows : Items
    pub has_rows : value_of (codes "ci") entry ≡ arr rows
    pub primary : List Text
    pub rows_agree : AgreeRows ci_workflow rows primary
    pub current : Text
    pub profiles_agree :
        AgreeProfiles digit_value evidence primary (value_of (codes "profiles") entry) current
    pub release_agrees :
        AgreesRelease release_workflow language current (value_of (codes "release_readiness") entry)

  pub check_runs-AgreeRuns :
      (ci_workflow release_workflow language evidence place : Text) (entry : Members)
      → check_runs digit_value loads str_of repository as_of ci_workflow release_workflow language
          evidence place entry
        ≡ accept tt
      → AgreeRuns ci_workflow release_workflow language evidence entry
  unfolding check_runs
  check_runs-AgreeRuns ci_workflow release_workflow language evidence place entry h =
      let (runtimes, has_runtimes, h1) =
        >>=-eq-accept (some_items (value_of (codes "runtimes") entry) _) _ h in
      let (agreed, runtimes_ok, h2) = >>=-eq-accept (each_item _ 0 runtimes) _ h1 in
      let (rows, has_rows, h3) =
        >>=-eq-accept (some_items (value_of (codes "ci") entry) (at_name place (codes "ci"))) _
          h2 in
      let (values, rows_ok, h4) = >>=-eq-accept (each_item _ 0 rows) _ h3 in
      let (current, profiles_ok, h5) =
        >>=-eq-accept
          (check_profile_list digit_value evidence (first_values values) place
            (value_of (codes "profiles") entry))
          _ h4 in
      record {
        runtimes = runtimes;
        has_runtimes =
            some_items-accept (value_of (codes "runtimes") entry) _ runtimes has_runtimes;
        runtimes_agree =
            each_item-AllItems (AgreesRuntime repository loads str_of) _
              (λ index j a e. check_runtime-AgreesRuntime repository loads str_of _ j e) 0 runtimes
              agreed runtimes_ok;
        rows = rows;
        has_rows = some_items-accept (value_of (codes "ci") entry) _ rows has_rows;
        primary = first_values values;
        rows_agree =
            each_item-AgreeRows ci_workflow (at_index (at_name place (codes "ci"))) rows values
              (value_of (codes "ci") entry) _ has_rows rows_ok;
        current = current;
        profiles_agree =
            check_profile_list-AgreeProfiles digit_value evidence (first_values values) place
              (value_of (codes "profiles") entry) current profiles_ok;
        release_agrees =
            check_release-AgreesRelease release_workflow language _ current
              (value_of (codes "release_readiness") entry) h5;
      }

  -- The frameworks of one language agree, and so do its lines, which have these warnings.
  pub record AgreeSupports (language evidence : Text) (entry : Members) (warnings : List Warning)
      : Type 0 where
    pub frameworks : Items
    pub has_frameworks : value_of (codes "frameworks") entry ≡ arr frameworks
    pub names : List Hashed
    pub has_names : all_hashed (codes "name") frameworks ≡ some names
    pub names_differ : repeats names ≡ false
    pub frameworks_agree : AllItems (AgreesFramework repository evidence) frameworks
    pub lines : Items
    pub has_lines : value_of (codes "end_of_support") entry ≡ arr lines
    pub of_lines : List (List Warning)
    pub lines_agree : AgreeLines digit_value as_of language evidence lines of_lines
    pub are_warnings : warnings ≡ concat_warnings of_lines

  check_names-accept :
      (place : Text) (o : Option (List Hashed))
      → check_names place o ≡ accept tt
      → (names : List Hashed) × (o ≡ some names) × (repeats names ≡ false)
  unfolding check_names
  check_names-accept place none h = cc
  check_names-accept place (some hs) h = (hs, refl, reject_if-accept (repeats hs) _ h)

  pub check_supports-AgreeSupports :
      (language evidence place : Text) (entry : Members) (warnings : List Warning)
      → check_supports digit_value loads str_of repository as_of language evidence place entry
        ≡ accept warnings
      → AgreeSupports language evidence entry warnings
  unfolding check_supports
  check_supports-AgreeSupports language evidence place entry warnings h =
      let (frameworks, has_frameworks, h1) =
        >>=-eq-accept (some_items (value_of (codes "frameworks") entry) _) _ h in
      let (_, names_ok, h2) =
        >>=-eq-accept (check_names _ (all_hashed (codes "name") frameworks)) _ h1 in
      let (names, has_names, differ) =
        check_names-accept _ (all_hashed (codes "name") frameworks) names_ok in
      let (supported, frameworks_ok, h3) = >>=-eq-accept (each_item _ 0 frameworks) _ h2 in
      let (lines, has_lines, h4) =
        >>=-eq-accept (any_items (value_of (codes "end_of_support") entry) _) _ h3 in
      let (of_lines, lines_ok, h5) = >>=-eq-accept (each_item _ 0 lines) _ h4 in
      record {
        frameworks = frameworks;
        has_frameworks =
            some_items-accept (value_of (codes "frameworks") entry) _ frameworks has_frameworks;
        names = names;
        has_names = has_names;
        names_differ = differ;
        frameworks_agree =
            each_item-AllItems (AgreesFramework repository evidence) _
              (λ index j a e. one_framework-AgreesFramework evidence place j e) 0 frameworks
              supported frameworks_ok;
        lines = lines;
        has_lines = any_items-accept (value_of (codes "end_of_support") entry) _ lines has_lines;
        of_lines = of_lines;
        lines_agree =
            each_item-AgreeLines digit_value as_of language evidence
              (at_index (at_name place (codes "end_of_support"))) 0 lines of_lines lines_ok;
        are_warnings = sym (accept_injective h5);
      }
