-- ===== src/Tests/Documents.antt =====
-- Documents that pass the audit, beside the matrix of all languages.
use cekat_event_sdk.Base.{
  is_space, true, false, ◌≡◌, refl, Text, Option, none, some, List, [], ◌∷◌, ◌++◌, codes, text_eq,
  if◌then◌else◌, split, strip, lower, length, decimal,
}
use cekat_event_sdk.Json.{put}
use cekat_event_sdk.Package.{has_member}
use cekat_event_sdk.Package.Listings.{keys_within, has_all}
use cekat_event_sdk.Protocol.{malformed}
use cekat_event_sdk.Verdicts.{accept}
use cekat_event_sdk.Matrix.{Repository}
use cekat_event_sdk.Docs.{compatibility, root_readme, linked, required_terms, readme_terms}
use cekat_event_sdk.Docs.Prose.{strip_code, strip_lines}
use cekat_event_sdk.Docs.Prose.Lines.{split-strip_code}
use cekat_event_sdk.Docs.Headings.{anchors}
use cekat_event_sdk.Docs.Page.{render_compatibility}
use cekat_event_sdk.Docs.Audits.{audit, matrix_path}
use cekat_event_sdk.Docs.Audits.Passed.{IsAudited, audit-IsAudited}
use cekat_event_sdk.Matrix.Validation.{validate}
use cekat_event_sdk.Tests.Matrices.{no_digits, matrix, repository, loads_pairs}

test_strip : strip_code (codes "a `b` c\n```\nTODO\n```\n`d") ≡ codes "a `code` c\n\n\n\n`d"
unfolding strip_code is_space
test_strip = refl

test_anchors :
    anchors lower (λ c. true) (codes "# A `b` c #\n## A b c\n```\n# d\n```\n####### e")
    ≡ codes "a-b-c" ∷ codes "a-b-c-1" ∷ []
unfolding anchors split strip lower is_space decimal
test_anchors = refl

abbrev links_of : List Text → Text
links_of [] = []
links_of (t ∷ ts) = codes "[x](" ++ t ++ codes ") " ++ links_of ts

abbrev terms_of : List Text → Text
terms_of [] = []
terms_of (t ∷ ts) = t ++ codes "\n" ++ terms_of ts

abbrev or_empty_list : Option (List Text) → List Text
or_empty_list none = []
or_empty_list (some ts) = ts

abbrev get_terms : Text → List (Text × List Text) → List Text
get_terms path [] = codes "Chi 1.22" ∷ readme_terms
get_terms path ((p, terms) ∷ rest) = if text_eq p path then terms else get_terms path rest

unfoldable documented : Repository
unfolding render_compatibility
documented path =
    if text_eq path root_readme
    then some (some (links_of linked))
    else if text_eq path compatibility
    then some (some (render_compatibility matrix))
    else elim (repository path) [
      | none ↦ some (some (terms_of (get_terms path required_terms)))
      | some file ↦ some file
    ]

audited_once :
    audit no_digits (λ t. malformed) (λ j. []) loads_pairs documented (λ path text. []) ≡ accept []
unfolding audit documented has_member put keys_within has_all
audited_once = refl

audit-IsAudited_example :
    IsAudited no_digits documented
      (λ path text. [])
      (validate no_digits
        (λ t. malformed)
        (λ j. [])
        documented
        none
        loads_pairs
        (documented matrix_path)
        none)
audit-IsAudited_example =
    audit-IsAudited no_digits (λ t. malformed) (λ j. []) loads_pairs documented (λ path text. [])
      audited_once

split-strip_code_example :
    (split b'\n' (strip_code (codes "`a`\n~~~\nb"))
      ≡ strip_lines false (split b'\n' (codes "`a`\n~~~\nb")))
    × (length (split b'\n' (strip_code (codes "`a`\n~~~\nb")))
        ≡ length (split b'\n' (codes "`a`\n~~~\nb")))
split-strip_code_example = split-strip_code (codes "`a`\n~~~\nb")
