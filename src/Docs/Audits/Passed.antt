-- ===== src/Docs/Audits/Passed.antt =====
-- What the documents and the matrix are when `audit` of scripts/audit-docs.py finds no problem.
use cekat_event_sdk.Base.{
  ℕ, ◌≡◌, refl, ap, ◌∙◌, Text, true, Option, none, List, [], ◌∷◌, codes, text_eq, text_eq_iff, All,
}
use cekat_event_sdk.Json.{Json, Members, obj}
use cekat_event_sdk.Context.{get_text}
use cekat_event_sdk.Protocol.{Loaded}
use cekat_event_sdk.Verdicts.{reject, crash, accept, >>=-eq-accept, accept_injective}
use cekat_event_sdk.Patterns.{occurs}
use cekat_event_sdk.Matrix.{Checked, Repository}
use cekat_event_sdk.Matrix.Supports.{Warning}
use cekat_event_sdk.Matrix.Validation.{validate}
use cekat_event_sdk.Docs.{
  Problem, compatibility, readme_of, language_readmes, root_readme, linked, audited, required_terms,
  readme_terms,
}
use cekat_event_sdk.Docs.Compatibility.{runtime_token}
use cekat_event_sdk.Matrix.Rendering.{said, items_at}
use cekat_event_sdk.Docs.Page.{render_compatibility}
use cekat_event_sdk.Docs.Audits.{
  Texts, unless, of_document, or_empty, links, link_problems, term_problems, readme_problems,
  framework_problems, floor_problems, entry_problems, language_problems, page_problems,
  matrix_problems, read_documents, matrix_path, audit,
}
use cekat_event_sdk.Docs.Audits.Clean.{
  unless-nil, append-nil, IfRead, of_document-nil, Mentions, link_problems-nil, term_problems-nil,
  readme_problems-nil, NamesFramework, framework_problems-nil, AreRead, read_documents-AreRead,
}

module _ (digit_value : ℕ → Option ℕ) where
  -- The README of a language names its runtime floors and its frameworks.
  abbrev pub NamesFloor : (text : Text) → Json → Type 0
  NamesFloor text runtime =
      occurs (runtime_token digit_value (said (codes "declared") runtime)) text ≡ true

  abbrev pub NamesSupport : Texts → (entry : Json) → Type 0
  NamesSupport texts entry = IfRead texts (readme_of (said (codes "language") entry)) (λ text.
      All (NamesFloor text) (items_at (codes "runtimes") entry)
      × All (NamesFramework text) (items_at (codes "frameworks") entry))

  floor_problems-nil :
      (path text : Text) (runtimes : List Json)
      → floor_problems digit_value path text runtimes ≡ []
      → All (NamesFloor text) runtimes
  unfolding floor_problems
  floor_problems-nil path text [] h = tt
  floor_problems-nil path text (runtime ∷ runtimes) h =
      let token = runtime_token digit_value (said (codes "declared") runtime) in
      let (here, later) =
        append-nil (unless (occurs token text) _) (floor_problems digit_value path text runtimes)
          h in
      (unless-nil (occurs token text) _ here, floor_problems-nil path text runtimes later)

  language_problems-nil :
      (texts : Texts) (entries : List Json)
      → language_problems digit_value texts entries ≡ []
      → All (NamesSupport texts) entries
  unfolding language_problems entry_problems
  language_problems-nil texts [] h = tt
  language_problems-nil texts (entry ∷ entries) h =
      let path = readme_of (said (codes "language") entry) in
      let (here, later) =
        append-nil (of_document texts path (entry_problems digit_value entry path))
          (language_problems digit_value texts entries) h in
      (
        of_document-nil texts path (entry_problems digit_value entry path) _
            (λ text e.
              let (floors, frameworks) =
                append-nil
                  (floor_problems digit_value path text (items_at (codes "runtimes") entry))
                  (framework_problems path text (items_at (codes "frameworks") entry)) e in
              (
                floor_problems-nil path text (items_at (codes "runtimes") entry) floors,
                framework_problems-nil path text (items_at (codes "frameworks") entry) frameworks,
              ))
            here,
        language_problems-nil texts entries later,
      )

  -- The matrix is valid, the READMEs name what it supports, and the page is generated from it.
  pub record MatchesMatrix (texts : Texts) (validated : Checked (Members × List Warning))
      : Type 0 where
    pub matrix : Members
    pub warnings : List Warning
    pub is_valid : validated ≡ accept (matrix, warnings)
    pub named : All (NamesSupport texts) (items_at (codes "languages") (obj matrix))
    pub generated : IfRead texts compatibility (λ text. text ≡ render_compatibility matrix)

  matrix_problems-nil :
      (texts : Texts) (validated : Checked (Members × List Warning))
      → matrix_problems digit_value texts validated ≡ accept []
      → MatchesMatrix texts validated
  unfolding matrix_problems page_problems
  matrix_problems-nil texts (reject e) h = absurd (let same = accept_injective h in cc)
  matrix_problems-nil texts (crash name) h = cc
  matrix_problems-nil texts (accept (matrix, warnings)) h =
      let (languages, page) =
        append-nil (language_problems digit_value texts (items_at (codes "languages") (obj matrix)))
          (page_problems digit_value texts matrix) (accept_injective h) in
      record {
        matrix = matrix;
        warnings = warnings;
        is_valid = refl;
        named = language_problems-nil texts (items_at (codes "languages") (obj matrix)) languages;
        generated =
            of_document-nil texts compatibility _ (λ text. text ≡ render_compatibility matrix)
              (λ text e.
                (text_eq_iff text (render_compatibility matrix)).0
                  (unless-nil (text_eq text (render_compatibility matrix)) _ e))
              page;
      }

-- Documents and a matrix without a problem.
pub record IsAudited (digit_value : ℕ → Option ℕ) (repository : Repository)
    (text_problems : (path text : Text) → List Problem)
    (validated : Checked (Members × List Warning)) : Type 0 where
  pub texts : Texts
  pub are_read : AreRead repository text_problems audited texts
  pub are_linked :
      All (λ target. links target (or_empty (get_text root_readme texts)) ≡ true) linked
  pub have_terms :
      All (λ (r : Text × List Text). IfRead texts r.0 (λ text. Mentions text r.1)) required_terms
  pub share_terms :
      All (λ path. IfRead texts path (λ text. Mentions text readme_terms)) language_readmes
  pub matches_matrix : MatchesMatrix digit_value texts validated

-- If the audit finds no problem, every document is there and is free of problems of its own; the
-- root README links all others; each root document has its required terms and each README of a
-- language the shared ones; the compatibility matrix is valid; the README of each language names
-- every runtime floor and framework of the matrix; and the page on compatibility is exactly what is
-- generated from the matrix.
pub audit-IsAudited :
    (digit_value : ℕ → Option ℕ) (loads : Text → Loaded) (str_of : Json → Text)
    (loads_pairs : (List (Text × Json) → Checked Members) → Text → Checked (Option Json))
    (repository : Repository) (text_problems : (path text : Text) → List Problem)
    → audit digit_value loads str_of loads_pairs repository text_problems ≡ accept []
    → IsAudited digit_value repository text_problems (
        validate digit_value loads str_of repository none loads_pairs (repository matrix_path) none)
unfolding audit
audit-IsAudited digit_value loads str_of loads_pairs repository text_problems h =
    let (documents, documents_ok, h1) =
      >>=-eq-accept (read_documents repository text_problems audited) _ h in
    let (of_matrix, matrix_ok, h2) =
      >>=-eq-accept (matrix_problems digit_value documents.0 _) _ h1 in
    let (of_texts, e1) = append-nil documents.1 _ (accept_injective h2) in
    let readme = or_empty (get_text root_readme documents.0) in
    let (of_links, e2) = append-nil (link_problems readme linked) _ e1 in
    let (of_terms, e3) = append-nil (term_problems documents.0 required_terms) _ e2 in
    let (of_readmes, e4) = append-nil (readme_problems documents.0 language_readmes) of_matrix e3 in
    record {
      texts = documents.0;
      are_read =
          read_documents-AreRead repository text_problems audited documents documents_ok of_texts;
      are_linked = link_problems-nil readme linked of_links;
      have_terms = term_problems-nil documents.0 required_terms of_terms;
      share_terms = readme_problems-nil documents.0 language_readmes of_readmes;
      matches_matrix = matrix_problems-nil digit_value documents.0 _ (matrix_ok ∙ ap accept e4);
    }
