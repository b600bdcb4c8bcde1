-- ===== src/Docs/Audits.antt =====
-- `audit` and require_terms of scripts/audit-docs.py. `text_problems` stands for audit_text.
pub mod Clean
pub mod Passed
use cekat_event_sdk.Base.{
  ℕ, Text, Bool, true, false, ◌&&◌, ◌||◌, not, Option, none, some, List, [], ◌∷◌, ◌++◌,
  if◌then◌else◌, codes, text_eq, split, strip, map,
}
use cekat_event_sdk.Json.{Json, Members, obj}
use cekat_event_sdk.Context.{get_text}
use cekat_event_sdk.Verdicts.{Verdict, reject, crash, accept, ◌>>=◌}
use cekat_event_sdk.Patterns.{occurs}
use cekat_event_sdk.Matrix.{MatrixError, Checked, File, Repository, read_text}
use cekat_event_sdk.Protocol.{Loaded}
use cekat_event_sdk.Matrix.Supports.{Warning}
use cekat_event_sdk.Matrix.Validation.{validate}
use cekat_event_sdk.Docs.{
  Complaint, missing_document, invalid_matrix, out_of_date, no_link, missing_term, no_floor,
  not_mentioned, Problem, compatibility, readme_of, language_readmes, root_readme, linked, audited,
  required_terms, readme_terms,
}
use cekat_event_sdk.Docs.Compatibility.{runtime_token}
use cekat_event_sdk.Matrix.Rendering.{said, items_at}
use cekat_event_sdk.Docs.Page.{render_compatibility}

-- The documents that were read, by their paths.
abbrev pub Texts : Type 0
Texts = List (Text × Text)

abbrev pub problem_at : (path : Text) → Complaint → Problem
problem_at path complaint = record { path = path; line = 1; complaint = complaint }

unfoldable pub unless : Bool → Problem → List Problem
unless true p = []
unless false p = p ∷ []

-- require_terms
unfoldable pub require_terms : (path text : Text) (terms : List Text) → List Problem
unfolding occurs unless
require_terms path text [] = []
require_terms path text (term ∷ terms) =
    unless (occurs term text) (problem_at path (missing_term term)) ++ require_terms path text terms

-- The checks of a document, if it was read.
abbrev pub if_read : Option Text → (Text → List Problem) → List Problem
if_read none check = []
if_read (some text) check = check text

unfoldable pub of_document : Texts → (path : Text) → (Text → List Problem) → List Problem
unfolding get_text
of_document texts path check = if_read (get_text path texts) check

abbrev pub or_empty : Option Text → Text
or_empty none = []
or_empty (some text) = text

abbrev pub links : (target readme : Text) → Bool
links target readme =
    occurs (codes "](" ++ target ++ codes ")") readme
    || occurs (codes "](" ++ target ++ codes "#") readme

unfoldable pub link_problems : (readme : Text) → List Text → List Problem
unfolding occurs unless
link_problems readme [] = []
link_problems readme (target ∷ targets) =
    unless (links target readme) (problem_at root_readme (no_link target))
    ++ link_problems readme targets

unfoldable pub term_problems : Texts → List (Text × List Text) → List Problem
unfolding of_document require_terms
term_problems texts [] = []
term_problems texts ((path, terms) ∷ rest) =
    of_document texts path (λ text. require_terms path text terms) ++ term_problems texts rest

unfoldable pub readme_problems : Texts → List Text → List Problem
unfolding of_document require_terms
readme_problems texts [] = []
readme_problems texts (path ∷ paths) =
    of_document texts path (λ text. require_terms path text readme_terms)
    ++ readme_problems texts paths

-- The names of a framework, which are separated by commas.
unfoldable pub name_problems : (path text : Text) → List Text → List Problem
unfolding occurs unless strip
name_problems path text [] = []
name_problems path text (part ∷ parts) =
    unless (occurs (strip part) text) (problem_at path (not_mentioned (strip part)))
    ++ name_problems path text parts

unfoldable pub framework_problems : (path text : Text) → List Json → List Problem
unfolding name_problems said split
framework_problems path text [] = []
framework_problems path text (framework ∷ frameworks) =
    name_problems path text (split b',' (said (codes "name") framework))
    ++ framework_problems path text frameworks

-- One round of the loop over the documents: what was read, and the problems of it.
unfoldable pub document_at :
    (text_problems : (path text : Text) → List Problem) (path : Text)
    → File
    → Checked (Texts × List Problem)
unfolding read_text
document_at text_problems path none = accept ([], problem_at path missing_document ∷ [])
document_at text_problems path (some contents) = do
  text ← read_text contents
  accept ((path, text) ∷ [], text_problems path text)

unfoldable pub read_documents :
    Repository
    → (text_problems : (path text : Text) → List Problem) → (paths : List Text)
    → Checked (Texts × List Problem)
unfolding document_at
read_documents repository text_problems [] = accept ([], [])
read_documents repository text_problems (path ∷ paths) = do
  here ← document_at text_problems path (repository path)
  later ← read_documents repository text_problems paths
  accept (here.0 ++ later.0, here.1 ++ later.1)

module _ (digit_value : ℕ → Option ℕ) where
  unfoldable pub floor_problems : (path text : Text) → List Json → List Problem
  unfolding occurs unless said runtime_token
  floor_problems path text [] = []
  floor_problems path text (runtime ∷ runtimes) =
      let token = runtime_token digit_value (said (codes "declared") runtime) in
      unless (occurs token text) (problem_at path (no_floor (said (codes "name") runtime) token))
      ++ floor_problems path text runtimes

  entry_problems : Json → (path text : Text) → List Problem
  unfolding floor_problems framework_problems items_at
  entry_problems entry path text =
      floor_problems path text (items_at (codes "runtimes") entry)
      ++ framework_problems path text (items_at (codes "frameworks") entry)

  unfoldable pub language_problems : Texts → List Json → List Problem
  unfolding of_document entry_problems said
  language_problems texts [] = []
  language_problems texts (entry ∷ entries) =
      let path = readme_of (said (codes "language") entry) in
      of_document texts path (entry_problems entry path) ++ language_problems texts entries

  unfoldable pub page_problems : Texts → Members → List Problem
  unfolding of_document unless render_compatibility
  page_problems texts matrix = of_document texts compatibility (λ text.
      unless (text_eq text (render_compatibility matrix)) (problem_at compatibility out_of_date))

  -- What comes behind the call of `validate`, which raises MatrixError or another exception.
  unfoldable pub matrix_problems : Texts → Checked (Members × List Warning) → Checked (List Problem)
  unfolding language_problems page_problems items_at
  matrix_problems texts (reject e) =
      accept (problem_at (codes "ci/compatibility-matrix.json") invalid_matrix ∷ [])
  matrix_problems texts (crash name) = crash name
  matrix_problems texts (accept (matrix, warnings)) = accept (
      language_problems texts (items_at (codes "languages") (obj matrix))
      ++ page_problems texts matrix)

-- The matrix of the repository, checked without --as-of.
abbrev pub matrix_path : Text
matrix_path = codes "ci/compatibility-matrix.json"

module _ (digit_value : ℕ → Option ℕ) (loads : Text → Loaded) (str_of : Json → Text)
    (loads_pairs : (List (Text × Json) → Checked Members) → Text → Checked (Option Json)) where
  unfoldable pub audit :
      Repository → (text_problems : (path text : Text) → List Problem) → Checked (List Problem)
  unfolding read_documents link_problems term_problems readme_problems matrix_problems get_text
      validate
  audit repository text_problems = do
    documents ← read_documents repository text_problems audited
    of_matrix ← matrix_problems digit_value documents.0 (
        validate digit_value loads str_of repository none loads_pairs (repository matrix_path) none)
    accept (
        documents.1
        ++ (link_problems (or_empty (get_text root_readme documents.0)) linked
            ++ (term_problems documents.0 required_terms
                ++ (readme_problems documents.0 language_readmes ++ of_matrix))))
