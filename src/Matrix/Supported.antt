-- ===== src/Matrix/Supported.antt =====
-- When the frameworks of scripts/validate-compatibility-matrix.py agree with the repository, and what
-- its lines that reach end of support were when they were accepted.
use cekat_event_sdk.Base.{
  ℕ, ◌≡◌, refl, sym, ◌⊎◌, inl, inr, Text, true, false, leb, Option, none, some, List, [], ◌∷◌,
  codes, if◌then◌else◌, All,
}
use cekat_event_sdk.Json.{Json, null, str, arr, obj, Members}
use cekat_event_sdk.Timestamps.{Date}
use cekat_event_sdk.Verdicts.{
  accept, reject_if, >>=-eq-accept, accept_injective, reject_if-accept, or_reject, or_reject-accept,
}
use cekat_event_sdk.Package.Listings.{value_of}
use cekat_event_sdk.Patterns.{occurs}
use cekat_event_sdk.Matrix.{
  Checked, Repository, warning_days, at_name, keys, string, strings, repo_file, read_text,
}
use cekat_event_sdk.Matrix.Dates.{is_before, days_between, read_date, parse_date}
use cekat_event_sdk.Matrix.Dates.Calendar.{IsDate, read_date-IsDate}
use cekat_event_sdk.Matrix.Entries.{in_evidence}
use cekat_event_sdk.Matrix.Supports.{
  Warning, all_in_evidence, check_contains, check_declaration, check_framework, check_end,
  check_line,
}
use cekat_event_sdk.Matrix.Reads.{
  reject_unless-accept, texts_array, keys-accept, string-accept, strings-accept, IsFile,
  repo_file-accept, read_text-accept, in_evidence-accept,
}

-- Every value stands in the evidence.
abbrev pub AllAppear : (evidence : Text) → List Text → Type 0
AllAppear evidence values = All (λ value. occurs value evidence ≡ true) values

all_in_evidence-AllAppear :
    (evidence place : Text) (values : List Text)
    → all_in_evidence evidence place values ≡ accept tt
    → AllAppear evidence values
unfolding all_in_evidence
all_in_evidence-AllAppear evidence place [] h = tt
all_in_evidence-AllAppear evidence place (value ∷ values) h =
    let (_, here, rest) = >>=-eq-accept (in_evidence evidence value place) _ h in
    (
      in_evidence-accept evidence value place here,
      all_in_evidence-AllAppear evidence place values rest,
    )

module _ (repository : Repository) where
  -- The file still contains the text that declares the framework.
  pub record StillContains (declaration : Json) : Type 0 where
    pub members : Members
    pub is_object : declaration ≡ obj members
    pub path : Text
    pub contents : Option Text
    pub is_file : IsFile repository (value_of (codes "file") members) path contents
    pub text : Text
    pub reads : contents ≡ some text
    pub contains : Text
    pub says : value_of (codes "contains") members ≡ str contains
    pub agrees : occurs contains text ≡ true

  check_contains-StillContains :
      (place : Text) (declaration : Json)
      → check_contains repository place declaration ≡ accept tt
      → StillContains declaration
  unfolding check_contains
  check_contains-StillContains place declaration h =
      let (members, is_object, h1) = >>=-eq-accept (keys declaration _ _) _ h in
      let (found, is_file, h2) =
        >>=-eq-accept (repo_file repository (value_of (codes "file") members) _) _ h1 in
      let (contains, says, h3) =
        >>=-eq-accept (string (value_of (codes "contains") members) _) _ h2 in
      let (text, reads, h4) = >>=-eq-accept (read_text found.1) _ h3 in
      record {
        members = members;
        is_object = (keys-accept declaration _ _ members is_object).0;
        path = found.0;
        contents = found.1;
        is_file = repo_file-accept repository (value_of (codes "file") members) _ found is_file;
        text = text;
        reads = read_text-accept found.1 text reads;
        contains = contains;
        says = (string-accept (value_of (codes "contains") members) _ contains says).0;
        agrees = reject_unless-accept (occurs contains text) _ h4;
      }

  check_declaration-StillContains :
      (place : Text) (j : Json)
      → check_declaration repository place j ≡ accept tt
      → (j ≡ null) ⊎ StillContains j
  unfolding check_declaration
  check_declaration-StillContains place null h = inl refl
  check_declaration-StillContains place j h = inr (check_contains-StillContains place j h)

  pub record AgreesFramework (evidence : Text) (framework : Json) : Type 0 where
    pub members : Members
    pub is_object : framework ≡ obj members
    pub declared :
        (value_of (codes "declared_in") members ≡ null)
        ⊎ StillContains (value_of (codes "declared_in") members)
    pub tested : List Text
    pub says : value_of (codes "tested") members ≡ arr (texts_array tested)
    pub appear : AllAppear evidence tested

  pub check_framework-AgreesFramework :
      (evidence place : Text) (framework : Json)
      → check_framework repository evidence place framework ≡ accept tt
      → AgreesFramework evidence framework
  unfolding check_framework
  check_framework-AgreesFramework evidence place framework h =
      let (members, is_object, h1) = >>=-eq-accept (keys framework _ place) _ h in
      let (_, _, h2) = >>=-eq-accept (string (value_of (codes "name") members) _) _ h1 in
      let (_, _, h3) = >>=-eq-accept (string (value_of (codes "supported") members) _) _ h2 in
      let (_, declared, h4) =
        >>=-eq-accept (check_declaration repository place (value_of (codes "declared_in") members))
          _ h3 in
      let (tested, says, h5) =
        >>=-eq-accept (strings true (value_of (codes "tested") members) _) _ h4 in
      record {
        members = members;
        is_object = (keys-accept framework _ place members is_object).0;
        declared =
            check_declaration-StillContains place (value_of (codes "declared_in") members) declared;
        tested = tested;
        says = strings-accept true (value_of (codes "tested") members) _ tested says;
        appear = all_in_evidence-AllAppear evidence _ tested h5;
      }

-- The warnings of a line: one in its last days.
abbrev pub expected_warnings : (language component line raw : Text) (days : ℕ) → List Warning
expected_warnings language component line raw days =
    if leb days warning_days
    then record { language = language; component = component; line = line; date = raw; days = days }
      ∷ []
    else []

-- With --as-of, the line has not ended, and the warnings are those of its days left.
abbrev pub IsTimely :
    (as_of : Option Date) (language component line raw : Text) → Date → List Warning → Type 0
IsTimely none language component line raw ends warnings = warnings ≡ []
IsTimely (some today) language component line raw ends warnings =
    (is_before ends today ≡ false)
    × (warnings ≡ expected_warnings language component line raw (days_between ends today))

check_end-IsTimely :
    (as_of : Option Date) (language component line raw : Text) (ends : Date) (ws : List Warning)
    → check_end as_of language component line raw ends ≡ accept ws
    → IsTimely as_of language component line raw ends ws
unfolding check_end
check_end-IsTimely none language component line raw ends ws h = sym (accept_injective h)
check_end-IsTimely (some today) language component line raw ends ws h =
    let (_, later, h1) = >>=-eq-accept (reject_if (is_before ends today) _) _ h in
    (reject_if-accept (is_before ends today) _ later, sym (accept_injective h1))

module _ (digit_value : ℕ → Option ℕ) (as_of : Option Date) where
  -- A line that reaches end of support on a date that the evidence names.
  pub record AgreesLine (language evidence : Text) (value : Json) (warnings : List Warning)
      : Type 0 where
    pub members : Members
    pub is_object : value ≡ obj members
    pub component : Text
    pub line : Text
    pub raw : Text
    pub of_component : value_of (codes "component") members ≡ str component
    pub of_line : value_of (codes "line") members ≡ str line
    pub says : value_of (codes "date") members ≡ str raw
    pub ends : Date
    pub is_date : read_date digit_value raw ≡ some ends
    pub on_calendar : IsDate ends
    pub in_evidence : occurs raw evidence ≡ true
    pub timely : IsTimely as_of language component line raw ends warnings

  pub check_line-AgreesLine :
      (language evidence place : Text) (value : Json) (warnings : List Warning)
      → check_line digit_value as_of language evidence place value ≡ accept warnings
      → AgreesLine language evidence value warnings
  unfolding check_line parse_date
  check_line-AgreesLine language evidence place value warnings h =
      let (members, is_object, h1) = >>=-eq-accept (keys value _ place) _ h in
      let (component, of_component, h2) =
        >>=-eq-accept (string (value_of (codes "component") members) _) _ h1 in
      let (line, of_line, h3) = >>=-eq-accept (string (value_of (codes "line") members) _) _ h2 in
      let (raw, says, h4) = >>=-eq-accept (string (value_of (codes "date") members) _) _ h3 in
      let (ends, is_date, h5) = >>=-eq-accept (or_reject (read_date digit_value raw) _) _ h4 in
      let (_, appears, h6) =
        >>=-eq-accept (cekat_event_sdk.Matrix.Entries.in_evidence evidence raw _) _ h5 in
      record {
        members = members;
        is_object = (keys-accept value _ place members is_object).0;
        component = component;
        line = line;
        raw = raw;
        of_component =
            (string-accept (value_of (codes "component") members) _ component of_component).0;
        of_line = (string-accept (value_of (codes "line") members) _ line of_line).0;
        says = (string-accept (value_of (codes "date") members) _ raw says).0;
        ends = ends;
        is_date = or_reject-accept (read_date digit_value raw) _ ends is_date;
        on_calendar =
            read_date-IsDate digit_value raw ends
              (or_reject-accept (read_date digit_value raw) _ ends is_date);
        in_evidence = in_evidence-accept evidence raw _ appears;
        timely = check_end-IsTimely as_of language component line raw ends warnings h6;
      }
