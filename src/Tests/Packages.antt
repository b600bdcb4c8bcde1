-- ===== src/Tests/Packages.antt =====
-- Manifests, trees of files and result records at concrete inputs.
use cekat_event_sdk.Base.{
  ℤ, pos, ℕ, none, text_eq, if◌then◌else◌, ◌≡◌, ◌↔◌, refl, Text, true, false, List, [], ◌∷◌, codes,
  split, encode, All, map,
}
use cekat_event_sdk.Verdicts.{Verdict, accept}
use cekat_event_sdk.Json.{Json, nil, cons, Members, end, member, get}
use cekat_event_sdk.Package.{
  listed, has_member, languages, manifest_name, Artifact, check_path, ManifestError,
}
use cekat_event_sdk.Package.Sorting.{sort}
use cekat_event_sdk.Package.Paths.{IsSafePath, check_path_iff}
use cekat_event_sdk.Package.Listings.{parse_manifest}
use cekat_event_sdk.Package.Listings.Parsed.{IsListing, parse_manifest-IsListing}
use cekat_event_sdk.Package.Files.{
  regular, directory, Entries, nothing, entry, regular_files, validate_manifest, validate_all,
}
use cekat_event_sdk.Package.Files.Plain.{ArePlain, regular_files-ArePlain}
use cekat_event_sdk.Package.Files.Releases.{IsRelease, validate_manifest-IsRelease}
use cekat_event_sdk.Package.Files.Aggregates.{IsOutput, validate_all-IsOutput}
use cekat_event_sdk.Conformance.{ResultRecord, Fixtures, Outcome, new_outcome, account}
use cekat_event_sdk.Protocol.{Loaded, document}
use cekat_event_sdk.Conformance.Records.{redacted}
use cekat_event_sdk.Conformance.Languages.{Processes, run_language}
use cekat_event_sdk.Conformance.Languages.Passes.{Passes, run_language-Passes}

abbrev path : Text
path = codes "dist/sdk.tgz"

check_path_iff_example :
    (check_path (Json.str path) ≡ accept path) ↔ ((Json.str path ≡ Json.str path) × IsSafePath path)
check_path_iff_example = check_path_iff (Json.str path) path

abbrev hash : Text
hash = codes "0123456789abcdef0123456789abcdef0123456789abcdef0123456789abcdef"

abbrev document_for : Text → Json
document_for language = Json.obj (
    member (codes "schema_version") (Json.int (ℤ.pos 1)) (
      member (codes "language") (Json.str language) (
        member (codes "version") (Json.str (codes "0.4.0")) (
          member (codes "artifacts")
            (Json.arr (
              cons
                (Json.obj (
                  member (codes "path") (Json.str path) (
                    member (codes "sha256") (Json.str hash)
                      (member (codes "size_bytes") (Json.int (ℤ.pos 2)) end))))
                nil))
            end))))

abbrev artifacts : List Artifact
artifacts = record { path = path; sha256 = hash; size_bytes = 2 } ∷ []

parsed :
    parse_manifest (codes "node") (codes "0.4.0") (document_for (codes "node")) ≡ accept artifacts
unfolding parse_manifest listed has_member split encode sort
parsed = refl

parse_manifest-IsListing_example :
    IsListing (codes "node") (codes "0.4.0") (document_for (codes "node")) artifacts
parse_manifest-IsListing_example =
    parse_manifest-IsListing (codes "node") (codes "0.4.0") (document_for (codes "node")) artifacts
      parsed

abbrev output_for : Text → Entries
output_for language = entry manifest_name (regular language) (
    entry (codes "dist") (directory (entry (codes "sdk.tgz") (regular (1 ∷ 2 ∷ [])) nothing))
      nothing)

abbrev output : Entries
output = output_for (codes "node")

abbrev files : List Text
files = manifest_name ∷ path ∷ []

walked : regular_files output ≡ accept files
unfolding regular_files
walked = refl

regular_files-ArePlain_example : ArePlain output
regular_files-ArePlain_example = regular_files-ArePlain output files walked

abbrev sha256 : List ℕ → Text
sha256 bytes = hash

-- The manifest's bytes are the name of its language.
abbrev load : List ℕ → Verdict ManifestError Json
load bytes = accept (document_for bytes)

validated :
    validate_manifest sha256 load manifest_name false output (codes "node") (codes "0.4.0")
    ≡ accept artifacts
unfolding validate_manifest listed has_member split encode sort
validated = refl

validate_manifest-IsRelease_example :
    IsRelease sha256 load output (codes "node") (codes "0.4.0") artifacts
validate_manifest-IsRelease_example =
    validate_manifest-IsRelease sha256 load manifest_name false output (codes "node")
      (codes "0.4.0") artifacts validated

abbrev outputs : List Text → Entries
outputs [] = nothing
outputs (language ∷ rest) = entry language (directory (output_for language)) (outputs rest)

abbrev root : Entries
root = outputs languages

abbrev results : List (Text × List Artifact)
results = map (λ (language : Text). (language, artifacts)) languages

all_validated : validate_all sha256 load (codes "0.4.0") (directory root) ≡ accept results
unfolding validate_all listed has_member split encode sort
all_validated = refl

validate_all-IsOutput_example :
    (map (λ (r : Text × List Artifact). r.0) results ≡ languages)
    × All (IsOutput sha256 load (codes "0.4.0") root) results
validate_all-IsOutput_example =
    validate_all-IsOutput sha256 load (codes "0.4.0") root results all_validated

abbrev fixtures : Fixtures
fixtures = (codes "retry", []) ∷ (codes "goroutines", codes "python" ∷ []) ∷ []

abbrev records : List ResultRecord
records =
    record {
      id = codes "goroutines";
      status = Json.str (codes "not_applicable");
      has_runtime_deviation = false;
    }
    ∷ record {
      id = codes "retry";
      status = Json.str (codes "passed");
      has_runtime_deviation = true;
    }
    ∷ []

no_problems : (account (codes "python") fixtures records new_outcome).problems ≡ []
unfolding account
no_problems = refl

abbrev document_of : (id status : Text) → Members → Json
document_of id status rest =
    Json.obj (member (codes "id") (Json.str id) (member (codes "status") (Json.str status) rest))

-- A raw_decode that knows two records.
abbrev raw_decode : Text → Loaded
raw_decode t =
    if text_eq t (codes "{\"id\": 1}")
    then document (document_of (codes "goroutines") (codes "not_applicable") end)
    else document (
        document_of (codes "retry") (codes "passed")
          (member (codes "runtime_deviation") Json.null end))

abbrev processes : Processes
processes = record {
  failed = none;
  log_lines = codes "ok {\"id\": 1}" ∷ codes "done" ∷ codes "{\"id\":2}" ∷ [];
  left_running = true;
  runner_status = pos 0;
  mock_after = none;
  mock_at_end = none;
  stop_status = pos 0;
}

abbrev warned : Outcome
warned = record new_outcome {
  warnings = codes "runner left processes running; they were stopped" ∷ [];
}

passed_outcome : Outcome
unfolding account
passed_outcome = account (codes "python") fixtures records warned

ran : run_language raw_decode (codes "python") fixtures processes ≡ accept passed_outcome
unfolding run_language passed_outcome get has_member
ran = refl

passed_clean : passed_outcome.problems ≡ []
unfolding passed_outcome
passed_clean = refl

run_language-Passes_example : Passes raw_decode (codes "python") fixtures processes passed_outcome
run_language-Passes_example =
    run_language-Passes raw_decode (codes "python") fixtures processes passed_outcome ran
      passed_clean

test_redacted : redacted (codes "a conformance-token b") ≡ codes "a [redacted] b"
unfolding redacted
test_redacted = refl
