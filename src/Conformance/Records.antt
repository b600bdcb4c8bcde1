-- ===== src/Conformance/Records.antt =====
-- parse_records of scripts/conformance.py, and the redaction of a line of a runner's output.
-- raw_decode of json.JSONDecoder, from the place where a record starts, is a parameter.
use cekat_event_sdk.Base.{
  ℕ, zero, suc, ◌-◌, Text, Option, none, some, List, [], ◌∷◌, ◌++◌, if◌then◌else◌, codes, is_space,
  length,
}
use cekat_event_sdk.Json.{Json, null, str, obj, Members, get}
use cekat_event_sdk.Protocol.{Loaded, document, malformed, too_deep}
use cekat_event_sdk.Package.{has_member}
use cekat_event_sdk.Verdicts.{Verdict, crash, accept, ◌>>=◌}
use cekat_event_sdk.Patterns.{Rest, literal, any_of, search_in, starts_with}
use cekat_event_sdk.Conformance.{ResultRecord}

-- RECORD_START, `\{"id"\s*:`: the text from the place where it matches.
unfoldable pub record_start : Rest Text
unfolding literal any_of is_space
record_start line =
    literal (codes "{\"id\"") (any_of is_space (literal (codes ":") (λ after. some line))) line

record_of : Members → Option Json → Option Json → List ResultRecord
unfolding has_member
record_of members (some (str id)) (some status) =
    record {
      id = id;
      status = status;
      has_runtime_deviation = has_member (codes "runtime_deviation") members;
    }
    ∷ []
record_of members (some (str id)) none = []
record_of members none status = []
record_of members (some null) status = []
record_of members (some _) status = []

-- A record is a dict with a text as its id and with a status.
unfoldable pub kept : Json → List ResultRecord
unfolding record_of get
kept (obj members) = record_of members (get (codes "id") members) (get (codes "status") members)
kept null = []
kept _ = []

-- Whatever else a line holds is passed over; no check fails, but raw_decode may raise RecursionError.
unfoldable pub decoded : Loaded → Verdict ⊥ (List ResultRecord)
unfolding kept
decoded (document j) = accept (kept j)
decoded malformed = accept []
decoded too_deep = crash (codes "RecursionError")

module _ (raw_decode : Text → Loaded) where
  line_records : Option Text → Verdict ⊥ (List ResultRecord)
  unfolding decoded
  line_records none = accept []
  line_records (some start) = decoded (raw_decode start)

  unfoldable pub parse_records : (lines : List Text) → Verdict ⊥ (List ResultRecord)
  unfolding record_start search_in line_records
  parse_records [] = accept []
  parse_records (line ∷ lines) = do
    here ← line_records (search_in record_start line)
    later ← parse_records lines
    accept (here ++ later)

abbrev pub access_token : Text
access_token = codes "conformance-token"

-- str.replace; `skipped` characters of an occurrence are still to be passed over.
unfoldable pub replace_from : (skipped : ℕ) (old new : Text) → Text → Text
unfolding starts_with
replace_from skipped old new [] = []
replace_from (suc skipped) old new (c ∷ t) = replace_from skipped old new t
replace_from zero old new (c ∷ t) =
    let here = starts_with old (c ∷ t) in
    let rest = replace_from (if here then length old - 1 else 0) old new t in
    if here then new ++ rest else c ∷ rest

-- line.replace(ACCESS_TOKEN, "[redacted]")
unfoldable pub redacted : Text → Text
unfolding replace_from
redacted line = replace_from 0 access_token (codes "[redacted]") line
