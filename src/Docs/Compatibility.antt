-- ===== src/Docs/Compatibility.antt =====
-- runtime_token and render_compatibility of scripts/audit-docs.py: the document that is generated
-- from a matrix. The matrix is one that `validate` accepts, so the members that are read are there
-- and have the types that are read; another value stands for the empty text or list.
use cekat_event_sdk.Base.{
  ℕ, Text, Bool, false, Option, none, some, List, [], ◌∷◌, ◌++◌, ◌==◌, if◌then◌else◌, codes,
  text_eq, split, map,
}
use cekat_event_sdk.Json.{Json}
use cekat_event_sdk.Package.Listings.{value_of}
use cekat_event_sdk.Patterns.{starts_with}
use cekat_event_sdk.Matrix.Dates.{is_digit}
use cekat_event_sdk.Matrix.Rendering.{join, text_of, members_of, said, items_at, observed_versions}

module _ (digit_value : ℕ → Option ℕ) where
  abbrev starts_number : Text → Bool
  starts_number [] = false
  starts_number (c ∷ t) = is_digit digit_value c

  -- `\d*(?:\.\d+)*`, behind the first digit.
  unfoldable pub number_rest : Text → Text
  number_rest [] = []
  number_rest (c ∷ t) =
      let rest = number_rest t in
      if is_digit digit_value c
      then c ∷ rest
      else if c == b'.'
      then if starts_number t then c ∷ rest else []
      else []

  -- re.search of `\d+(?:\.\d+)*`.
  unfoldable pub first_number : Text → Option Text
  unfolding number_rest
  first_number [] = none
  first_number (c ∷ t) =
      let later = first_number t in
      if is_digit digit_value c then some (c ∷ number_rest t) else later

  -- Of three parts of which the last one is 0, the first two.
  shortened : Text → List Text → Text
  unfolding join
  shortened version (major ∷ minor ∷ patch ∷ []) =
      if text_eq patch (codes "0") then join (codes ".") (major ∷ minor ∷ []) else version
  shortened version [] = version
  shortened version (major ∷ []) = version
  shortened version (major ∷ minor ∷ []) = version
  shortened version (major ∷ minor ∷ patch ∷ p ∷ parts) = version

  token_of : Text → Option Text → Text
  unfolding shortened split
  token_of declared none = declared
  token_of declared (some version) = shortened version (split b'.' version)

  unfoldable pub runtime_token : (declared : Text) → Text
  unfolding token_of first_number starts_with
  runtime_token declared =
      if starts_with (codes "net") declared
      then declared
      else token_of declared (first_number declared)

-- LANGUAGE_NAMES[language]
abbrev pub language_name : Text → Text
language_name language =
    if text_eq language (codes "go")
    then codes "Go"
    else if text_eq language (codes "node")
    then codes "Node.js and Bun"
    else if text_eq language (codes "python")
    then codes "Python"
    else if text_eq language (codes "php")
    then codes "PHP"
    else if text_eq language (codes "java")
    then codes "Java"
    else if text_eq language (codes "dotnet")
    then codes ".NET"
    else codes "Ruby"

abbrev last_part : List Text → Text
last_part [] = []
last_part (part ∷ parts) = elim parts [ [] ↦ part | p ∷ ps ↦ last_part parts ]

floor_of : Json → Text
floor_of runtime =
    said (codes "name") runtime ++ codes " `" ++ said (codes "declared") runtime ++ codes "`"

-- The row of a language in the first table.
unfoldable pub language_row : Json → Text
unfolding said items_at floor_of observed_versions join split
language_row entry =
    let language = said (codes "language") entry in
    let evidence = said (codes "evidence") entry in
    codes "| ["
    ++ language_name language
    ++ codes "](../"
    ++ language
    ++ codes "/README.md) | "
    ++ join (codes "; ") (map floor_of (items_at (codes "runtimes") entry))
    ++ codes " | "
    ++ observed_versions (items_at (codes "profiles") entry)
    ++ codes " | ["
    ++ last_part (split b'/' evidence)
    ++ codes "](../"
    ++ evidence
    ++ codes ") |"

tested_versions : List Json → Text
unfolding join
tested_versions [] = codes "—"
tested_versions (version ∷ versions) = join (codes ", ") (map text_of (version ∷ versions))

framework_row : Json → Text
unfolding said items_at tested_versions
framework_row framework =
    codes "| "
    ++ said (codes "name") framework
    ++ codes " | "
    ++ said (codes "supported") framework
    ++ codes " | "
    ++ tested_versions (items_at (codes "tested") framework)
    ++ codes " |"

ci_text : Json → Text
unfolding said items_at join
ci_text ci =
    codes "`"
    ++ said (codes "job") ci
    ++ codes "` job `"
    ++ said (codes "key") ci
    ++ codes "`: "
    ++ join (codes ", ") (map text_of (items_at (codes "values") ci))

ci_line : Json → Text
unfolding said items_at ci_text join
ci_line entry =
    let release = value_of (codes "release_readiness") (members_of entry) in
    codes "CI: "
    ++ join (codes "; ") (map ci_text (items_at (codes "ci") entry))
    ++ codes ". Release readiness installs `"
    ++ said (codes "key") release
    ++ codes "` "
    ++ said (codes "value") release
    ++ codes "."

end_text : Json → Text
unfolding said
end_text line =
    said (codes "component") line
    ++ codes " "
    ++ said (codes "line") line
    ++ codes " on "
    ++ said (codes "date") line

end_lines : List Json → List Text
unfolding end_text join
end_lines [] = []
end_lines (line ∷ lines) =
    []
    ∷ (codes "Upcoming end of support: "
        ++ join (codes "; ") (map end_text (line ∷ lines))
        ++ codes ".")
    ∷ []

-- The section of a language.
unfoldable pub language_section : Json → List Text
unfolding said items_at framework_row ci_line end_lines
language_section entry =
    ([]
      ∷ (codes "## " ++ language_name (said (codes "language") entry))
      ∷ []
      ∷ codes "| Framework or integration | Supported | Tested versions |"
      ∷ codes "| --- | --- | --- |"
      ∷ map framework_row (items_at (codes "frameworks") entry))
    ++ ([] ∷ ci_line entry ∷ end_lines (items_at (codes "end_of_support") entry))

unfoldable pub language_sections : List Json → List Text
unfolding language_section
language_sections [] = []
language_sections (entry ∷ entries) = language_section entry ++ language_sections entries
