-- ===== src/Matrix/Supports.antt =====
-- What `validate` of scripts/validate-compatibility-matrix.py checks of frameworks and of the lines
-- that reach end of support.
use cekat_event_sdk.Base.{
  ℕ, Text, true, not, Option, none, some, List, [], ◌∷◌, ◌++◌, leb, if◌then◌else◌, codes,
}
use cekat_event_sdk.Json.{Json, null, obj, get}
use cekat_event_sdk.Timestamps.{Date}
use cekat_event_sdk.Verdicts.{crash, accept, ◌>>=◌, ◌>>◌, reject_if}
use cekat_event_sdk.Package.Listings.{value_of}
use cekat_event_sdk.Patterns.{occurs}
use cekat_event_sdk.Matrix.{
  no_longer_contains, ended, Checked, Repository, warning_days, at_name, keys, string, strings,
  repo_file, read_text,
}
use cekat_event_sdk.Matrix.Dates.{is_before, days_between, parse_date}
use cekat_event_sdk.Matrix.Names.{got}
use cekat_event_sdk.Matrix.Runtimes.{text_of}
use cekat_event_sdk.Matrix.Entries.{in_evidence}

-- A line that reaches end of support within the warning days.
pub record Warning : Type 0 where
  pub language : Text
  pub component : Text
  pub line : Text
  pub date : Text
  pub days : ℕ

unfoldable pub all_in_evidence : (evidence place : Text) → List Text → Checked (Unit {0})
unfolding in_evidence
all_in_evidence evidence place [] = accept tt
all_in_evidence evidence place (value ∷ values) =
    in_evidence evidence value place >> all_in_evidence evidence place values

-- The text that declares a framework stands in a file of the repository.
unfoldable pub check_contains : Repository → (place : Text) → Json → Checked (Unit {0})
unfolding keys string repo_file read_text occurs get
check_contains repository place value = do
  members ← keys value (codes "file" ∷ codes "contains" ∷ []) (at_name place (codes "declared_in"))
  found ←
      repo_file repository (value_of (codes "file") members)
        (at_name place (codes "declared_in.file"))
  contains ←
      string (value_of (codes "contains") members) (at_name place (codes "declared_in.contains"))
  text ← read_text found.1
  reject_if (not (occurs contains text)) (no_longer_contains place contains)

-- A framework may have None in place of a declaration.
unfoldable pub check_declaration : Repository → (place : Text) → Json → Checked (Unit {0})
unfolding check_contains
check_declaration repository place null = accept tt
check_declaration repository place value = check_contains repository place value

unfoldable pub check_framework : Repository → (evidence place : Text) → Json → Checked (Unit {0})
unfolding keys string strings all_in_evidence check_declaration get
check_framework repository evidence place framework = do
  members ←
      keys framework (codes "name" ∷ codes "supported" ∷ codes "declared_in" ∷ codes "tested" ∷ [])
        place
  name ← string (value_of (codes "name") members) (at_name place (codes "name"))
  supported ← string (value_of (codes "supported") members) (at_name place (codes "supported"))
  check_declaration repository place (value_of (codes "declared_in") members)
  tested ← strings true (value_of (codes "tested") members) (at_name place (codes "tested"))
  all_in_evidence evidence (at_name place (codes "tested")) tested

-- The place of a framework is named by framework.get("name"), which only a dict has.
unfoldable pub framework_place : (str_of : Json → Text) (place : Text) → Json → Checked Text
unfolding got
framework_place str_of place (obj members) =
    accept
      (at_name place (codes "frameworks." ++ text_of str_of (got (codes "name") (obj members))))
framework_place str_of place null = crash (codes "AttributeError")
framework_place str_of place _ = crash (codes "AttributeError")

-- The gate on a line, with --as-of: the warnings of a line that has not ended.
unfoldable pub check_end :
    (as_of : Option Date) (language component line raw : Text) → Date → Checked (List Warning)
unfolding is_before
check_end none language component line raw ends = accept []
check_end (some today) language component line raw ends = do
  reject_if (is_before ends today) (ended language component line raw)
  let days = days_between ends today
  let warning : Warning = record {
    language = language;
    component = component;
    line = line;
    date = raw;
    days = days;
  }
  accept (if leb days warning_days then warning ∷ [] else [])

unfoldable pub concat_warnings : List (List Warning) → List Warning
concat_warnings [] = []
concat_warnings (ws ∷ wss) = ws ++ concat_warnings wss

module _ (digit_value : ℕ → Option ℕ) (as_of : Option Date) where
  unfoldable pub check_line : (language evidence place : Text) → Json → Checked (List Warning)
  unfolding keys string parse_date in_evidence check_end get
  check_line language evidence place value = do
    members ← keys value (codes "component" ∷ codes "line" ∷ codes "date" ∷ []) place
    component ← string (value_of (codes "component") members) (at_name place (codes "component"))
    line ← string (value_of (codes "line") members) (at_name place (codes "line"))
    raw ← string (value_of (codes "date") members) (at_name place (codes "date"))
    ends ← parse_date digit_value raw (at_name place (codes "date"))
    in_evidence evidence raw (at_name place (codes "date"))
    check_end as_of language component line raw ends
