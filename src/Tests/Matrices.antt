-- ===== src/Tests/Matrices.antt =====
-- A compatibility matrix of all languages, with the repository that it is checked against.
use cekat_event_sdk.Base.{
  ℕ, pos, ◌≡◌, refl, Text, Option, none, some, List, [], ◌∷◌, ◌++◌, codes, text_eq, if◌then◌else◌,
  split, partition,
}
use cekat_event_sdk.Json.{Json, int, str, arr, obj, Items, nil, cons, Members, end, member, put}
use cekat_event_sdk.Protocol.{malformed}
use cekat_event_sdk.Timestamps.{Date}
use cekat_event_sdk.Verdicts.{accept, ◌>>=◌}
use cekat_event_sdk.Package.{languages, has_member}
use cekat_event_sdk.Package.Listings.{keys_within, has_all}
use cekat_event_sdk.Matrix.{Checked, File, Repository, unique_object}
use cekat_event_sdk.Matrix.Accepted.{IsMatrix, validate-IsMatrix}
use cekat_event_sdk.Matrix.Dates.{read_date, ordinal}
use cekat_event_sdk.Matrix.Runtimes.{runtime_in}
use cekat_event_sdk.Matrix.Workflows.{ci_matrix_values, release_readiness_values}
use cekat_event_sdk.Matrix.Supports.{Warning}
use cekat_event_sdk.Matrix.Validation.{validate}

abbrev pub no_digits : ℕ → Option ℕ
no_digits c = none

test_month :
    read_date no_digits (codes "2028-02") ≡ some (record { year = 2028; month = 2; day = 29 })
unfolding read_date split
test_month = refl

test_full : read_date no_digits (codes "2026-11-31") ≡ none
unfolding read_date split
test_full = refl

abbrev ci_text : Text
ci_text =
    codes
      "on: push\njobs:\n  sdk:\n    strategy:\n      matrix:\n        version: [\"1.2\", '3']\n        include:\n          - version: stable # now\n    steps:\n      - version: 9\n  other:\n"

abbrev step_for : Text → Text
step_for language =
    codes "      - if: matrix.language == '"
    ++ language
    ++ codes "'\n        with:\n          version: stable\n"

abbrev steps_for : List Text → Text
steps_for [] = []
steps_for (l ∷ ls) = step_for l ++ steps_for ls

abbrev release_text : Text
release_text = codes "jobs:\n  package:\n    steps:\n" ++ steps_for languages

test_ci :
    ci_matrix_values ci_text (codes "sdk") (codes "version")
    ≡ accept (codes "1.2" ∷ codes "3" ∷ codes "stable" ∷ [])
unfolding ci_matrix_values
test_ci = refl

test_release :
    release_readiness_values release_text (codes "node") (codes "version")
    ≡ accept (codes "stable" ∷ [])
unfolding release_readiness_values
test_release = refl

abbrev pub metadata : Text
metadata = codes "module m\n\ngo 1.22\n\nrequire x v1\n"

test_go :
    runtime_in (λ t. malformed) (λ j. []) metadata (codes "go-directive") ≡ accept (codes "1.22")
unfolding runtime_in
test_go = refl

test_requires :
    runtime_in
      (λ t. malformed)
      (λ j. [])
      (codes "name = \"x\"\nrequires-python = \">=3.10\"\n")
      (codes "requires-python")
    ≡ accept (codes ">=3.10")
unfolding runtime_in
test_requires = refl

test_element :
    runtime_in
      (λ t. malformed)
      (λ j. [])
      (codes "<release>${java}</release><release>17</release>")
      (codes "maven-property:release")
    ≡ accept (codes "17")
unfolding runtime_in partition
test_element = refl

abbrev strs : List Text → Items
strs [] = nil
strs (t ∷ ts) = cons (str t) (strs ts)

abbrev object : List (Text × Json) → Members
object [] = end
object ((key, value) ∷ rest) = member key value (object rest)

abbrev texts : List (Text × Text) → List (Text × Json)
texts [] = []
texts ((key, value) ∷ rest) = (key, str value) ∷ texts rest

abbrev of_texts : List (Text × Text) → Json
of_texts pairs = obj (object (texts pairs))

abbrev one : Json → Json
one j = arr (cons j nil)

abbrev runtime : Json
runtime = obj (
    object (
      (codes "name", str (codes "Go"))
      ∷ (codes "declared", str (codes "1.22"))
      ∷ (
        codes "declared_in",
        of_texts ((codes "file", codes "go.mod") ∷ (codes "kind", codes "go-directive") ∷ []),
      )
      ∷ []))

abbrev ci_row : Json
ci_row = obj (
    object (
      (codes "job", str (codes "sdk"))
      ∷ (codes "key", str (codes "version"))
      ∷ (codes "values", arr (strs (codes "1.2" ∷ codes "3" ∷ codes "stable" ∷ [])))
      ∷ []))

abbrev profile : (name ci_value observed : Text) → Json
profile name ci_value observed =
    of_texts
      ((codes "name", name) ∷ (codes "ci_value", ci_value) ∷ (codes "observed", observed) ∷ [])

abbrev framework : Json
framework = obj (
    object (
      (codes "name", str (codes "Chi"))
      ∷ (codes "supported", str (codes "v5+"))
      ∷ (
        codes "declared_in",
        of_texts ((codes "file", codes "go.mod") ∷ (codes "contains", codes "x v1") ∷ []),
      )
      ∷ (codes "tested", arr (strs (codes "v5.3.2" ∷ [])))
      ∷ []))

abbrev support : Json
support = of_texts (
    (codes "component", codes "Go")
    ∷ (codes "line", codes "1.22")
    ∷ (codes "date", codes "2027-02")
    ∷ [])

abbrev entry : (language : Text) → Json
entry language = obj (
    object (
      (codes "language", str language)
      ∷ (codes "evidence", str (codes "go/EVIDENCE.md"))
      ∷ (codes "runtimes", one runtime)
      ∷ (codes "ci", one ci_row)
      ∷ (
        codes "profiles",
        arr (
            cons (profile (codes "minimum") (codes "1.2") (codes "1.2.9"))
              (cons (profile (codes "current") (codes "stable") (codes "v1.27")) nil)),
      )
      ∷ (
        codes "release_readiness",
        of_texts ((codes "key", codes "version") ∷ (codes "value", codes "stable") ∷ []),
      )
      ∷ (codes "frameworks", one framework)
      ∷ (codes "end_of_support", one support)
      ∷ []))

abbrev pub entries : List Text → Items
entries [] = nil
entries (l ∷ ls) = cons (entry l) (entries ls)

abbrev pairs : List (Text × Json)
pairs =
    (codes "schema_version", int (pos 1))
    ∷ (codes "verified_on", str (codes "2026-12-20"))
    ∷ (codes "languages", arr (entries languages))
    ∷ []

abbrev pub matrix : Members
matrix = object pairs

abbrev pub repository : Repository
repository path =
    if text_eq path (codes ".github/workflows/ci.yml")
    then some (some ci_text)
    else if text_eq path (codes ".github/workflows/release-readiness.yml")
    then some (some release_text)
    else if text_eq path (codes "go.mod")
    then some (some metadata)
    else if text_eq path (codes "go/EVIDENCE.md")
    then some (some (codes "1.2.9, v1.27; Chi v5.3.2; Go 1.22 ends 2027-02"))
    else none

abbrev today : Date
today = record { year = 2026; month = 12; day = 24 }

abbrev pub loads_pairs : (List (Text × Json) → Checked Members) → Text → Checked (Option Json)
loads_pairs hook text = hook pairs >>= λ members. accept (some (obj members))

abbrev warnings_for : List Text → List Warning
warnings_for [] = []
warnings_for (l ∷ ls) =
    record {
      language = l;
      component = codes "Go";
      line = codes "1.22";
      date = codes "2027-02";
      days = 66;
    }
    ∷ warnings_for ls

validated :
    validate no_digits
      (λ t. malformed)
      (λ j. [])
      repository
      (some today)
      loads_pairs
      (some (some []))
      (some (pos 30))
    ≡ accept (matrix, warnings_for languages)
unfolding validate keys_within has_all has_member ordinal put
validated = refl

validate-IsMatrix_example :
    (text : Text) × (document : Json) × (◌≡◌ {A = File} (some (some [])) (some (some text)))
    × (loads_pairs (unique_object end) text ≡ accept (some document))
    × IsMatrix no_digits
        (λ t. malformed)
        (λ j. [])
        repository
        (some today)
        (some (pos 30))
        document
        (matrix, warnings_for languages)
validate-IsMatrix_example =
    validate-IsMatrix no_digits (λ t. malformed) (λ j. []) repository (some today) loads_pairs
      (some (some [])) (some (pos 30)) (matrix, warnings_for languages) validated

abbrev leap_day : Date
leap_day = record { year = 2028; month = 2; day = 29 }

abbrev end_of_year : Date
end_of_year = record { year = 2027; month = 12; day = 31 }

test_day : read_date no_digits (codes "2027-12-31") ≡ some end_of_year
unfolding read_date split
test_day = refl
