-- ===== src/Matrix/Listed.antt =====
-- What the objects of all languages are that scripts/validate-compatibility-matrix.py accepts.
use mathlib.Core.Path.{subst}
use cekat_event_sdk.Base.{
  ℕ, ◌≡◌, refl, sym, Text, Bool, true, false, ◌&&◌, Option, some, List, [], ◌∷◌, ◌++◌, codes,
}
use cekat_event_sdk.Json.{Json, str, obj, Items, nil, cons, Members}
use cekat_event_sdk.Protocol.{Loaded}
use cekat_event_sdk.Timestamps.{Date}
use cekat_event_sdk.Verdicts.{accept, >>=-eq-accept, accept_injective}
use cekat_event_sdk.Package.Listings.{value_of, is_text}
use cekat_event_sdk.Package.Listings.Parsed.{is_text-str}
use cekat_event_sdk.Matrix.{Repository, keys, repo_file, read_text}
use cekat_event_sdk.Matrix.Names.{got, names_are}
use cekat_event_sdk.Matrix.Supports.{Warning}
use cekat_event_sdk.Matrix.Validation.{entry_keys, check_runs, check_entry, check_entries}
use cekat_event_sdk.Matrix.Reads.{keys-accept, IsFile, repo_file-accept, read_text-accept}
use cekat_event_sdk.Matrix.Languages.{
  AgreeRuns, check_runs-AgreeRuns, AgreeSupports, check_supports-AgreeSupports,
}

both : (a b : Bool) → a && b ≡ true → (a ≡ true) × (b ≡ true)
both true b h = (refl, h)
both false b h = cc

module _ (digit_value : ℕ → Option ℕ) (loads : Text → Loaded) (str_of : Json → Text)
    (repository : Repository) (as_of : Option Date) where
  -- The object of one language agrees with the repository.
  pub record AgreesEntry (ci_workflow release_workflow language : Text) (value : Json)
      (warnings : List Warning) : Type 0 where
    pub members : Members
    pub is_object : value ≡ obj members
    pub path : Text
    pub evidence : Text
    pub has_evidence : IsFile repository (value_of (codes "evidence") members) path (some evidence)
    pub runs :
        AgreeRuns digit_value loads str_of repository as_of ci_workflow release_workflow language
          evidence members
    pub supports :
        AgreeSupports digit_value loads str_of repository as_of language evidence members warnings

  check_entry-AgreesEntry :
      (ci_workflow release_workflow language : Text) (value : Json) (warnings : List Warning)
      → check_entry digit_value loads str_of repository as_of ci_workflow release_workflow language
          value
        ≡ accept warnings
      → AgreesEntry ci_workflow release_workflow language value warnings
  unfolding check_entry
  check_entry-AgreesEntry ci_workflow release_workflow language value warnings h =
      let place : Text = codes "languages." ++ language in
      let (entry, is_object, h1) = >>=-eq-accept (keys value entry_keys place) _ h in
      let (found, is_file, h2) =
        >>=-eq-accept (repo_file repository (value_of (codes "evidence") entry) _) _ h1 in
      let (evidence, reads, h3) = >>=-eq-accept (read_text found.1) _ h2 in
      let (_, runs_ok, h4) =
        >>=-eq-accept
          (check_runs digit_value loads str_of repository as_of ci_workflow release_workflow
            language evidence place entry)
          _ h3 in
      record {
        members = entry;
        is_object = (keys-accept value entry_keys place entry is_object).0;
        path = found.0;
        evidence = evidence;
        has_evidence =
            subst (IsFile repository (value_of (codes "evidence") entry) found.0)
              (read_text-accept found.1 evidence reads)
              (repo_file-accept repository (value_of (codes "evidence") entry) _ found is_file);
        runs =
            check_runs-AgreeRuns digit_value loads str_of repository as_of ci_workflow
              release_workflow language evidence place entry runs_ok;
        supports =
            check_supports-AgreeSupports digit_value loads str_of repository as_of language evidence
              place entry warnings h4;
      }

  -- The objects are those of the languages, in their order; all agree, and the warnings are theirs.
  abbrev pub AgreeEntries :
      (ci_workflow release_workflow : Text) → List Text → Items → List Warning → Type 0
  AgreeEntries ci_workflow release_workflow [] nil warnings = warnings ≡ []
  AgreeEntries ci_workflow release_workflow [] (cons value values) warnings = ⊥
  AgreeEntries ci_workflow release_workflow (name ∷ names) nil warnings = ⊥
  AgreeEntries ci_workflow release_workflow (name ∷ names) (cons value values) warnings =
      (got (codes "language") value ≡ str name)
      × ((here : List Warning) × (later : List Warning) × AgreesEntry ci_workflow release_workflow
            name value here
          × AgreeEntries ci_workflow release_workflow names values later
          × (warnings ≡ here ++ later))

  pub check_entries-AgreeEntries :
      (ci_workflow release_workflow : Text) (names : List Text) (entries : Items)
      (warnings : List Warning)
      → names_are (codes "language") entries names ≡ true
      → check_entries digit_value loads str_of repository as_of ci_workflow release_workflow names
          entries
        ≡ accept warnings
      → AgreeEntries ci_workflow release_workflow names entries warnings
  unfolding check_entries names_are
  check_entries-AgreeEntries ci_workflow release_workflow [] nil warnings n h =
      sym (accept_injective h)
  check_entries-AgreeEntries ci_workflow release_workflow [] (cons value values) warnings n h = cc
  check_entries-AgreeEntries ci_workflow release_workflow (name ∷ names) nil warnings n h = cc
  check_entries-AgreeEntries ci_workflow release_workflow (name ∷ names) (cons value values)
        warnings n h =
      let (here, here_ok, h1) =
        >>=-eq-accept
          (check_entry digit_value loads str_of repository as_of ci_workflow release_workflow name
            value)
          _ h in
      let (later, later_ok, h2) =
        >>=-eq-accept
          (check_entries digit_value loads str_of repository as_of ci_workflow release_workflow
            names values)
          _ h1 in
      let (named, rest) =
        both (is_text name (got (codes "language") value))
          (names_are (codes "language") values names) n in
      (
        is_text-str name (got (codes "language") value) named,
        (
          here,
          later,
          check_entry-AgreesEntry ci_workflow release_workflow name value here here_ok,
          check_entries-AgreeEntries ci_workflow release_workflow names values later rest later_ok,
          sym (accept_injective h2),
        ),
      )
