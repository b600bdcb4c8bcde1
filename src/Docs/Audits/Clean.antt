-- ===== src/Docs/Audits/Clean.antt =====
-- What the documents are when the checks of scripts/audit-docs.py find no problem in them.
use mathlib.Core.Path.{subst}
use cekat_event_sdk.Base.{
  Option, none, ◌≡◌, refl, ap, sym, ◌∙◌, Text, Bool, true, false, none, some, List, [], ◌∷◌, ◌++◌,
  codes, split, strip, All,
}
use cekat_event_sdk.Json.{Json}
use cekat_event_sdk.Context.{get_text}
use cekat_event_sdk.Verdicts.{accept, >>=-eq-accept, accept_injective}
use cekat_event_sdk.Patterns.{occurs}
use cekat_event_sdk.Matrix.{File, Repository, read_text}
use cekat_event_sdk.Matrix.Reads.{read_text-accept}
use cekat_event_sdk.Docs.{Problem, readme_terms}
use cekat_event_sdk.Matrix.Rendering.{said}
use cekat_event_sdk.Docs.Audits.{
  Texts, unless, if_read, document_at, require_terms, of_document, links, link_problems,
  term_problems, readme_problems, name_problems, framework_problems, read_documents,
}

pub unless-nil : (b : Bool) (p : Problem) → unless b p ≡ [] → b ≡ true
unfolding unless
unless-nil true p h = refl
unless-nil false p h = cc

pub append-nil : (xs ys : List Problem) → xs ++ ys ≡ [] → (xs ≡ []) × (ys ≡ [])
append-nil [] ys h = (refl, h)
append-nil (x ∷ xs) ys h = cc

-- This holds of the text of a document, unless it was not read.
abbrev pub OfText : Option Text → (Text → Type 0) → Type 0
OfText none P = Unit
OfText (some text) P = P text

abbrev pub IfRead : Texts → (path : Text) → (Text → Type 0) → Type 0
IfRead texts path P = OfText (get_text path texts) P

if_read-nil :
    (o : Option Text) (check : Text → List Problem) (P : Text → Type 0)
    → ((text : Text) → check text ≡ [] → P text)
    → if_read o check ≡ []
    → OfText o P
if_read-nil none check P shows h = tt
if_read-nil (some text) check P shows h = shows text h

pub of_document-nil :
    (texts : Texts) (path : Text) (check : Text → List Problem) (P : Text → Type 0)
    → ((text : Text) → check text ≡ [] → P text)
    → of_document texts path check ≡ []
    → IfRead texts path P
unfolding of_document
of_document-nil texts path check P shows h = if_read-nil (get_text path texts) check P shows h

abbrev pub Mentions : (text : Text) → List Text → Type 0
Mentions text terms = All (λ term. occurs term text ≡ true) terms

require_terms-nil :
    (path text : Text) (terms : List Text)
    → require_terms path text terms ≡ []
    → Mentions text terms
unfolding require_terms
require_terms-nil path text [] h = tt
require_terms-nil path text (term ∷ terms) h =
    let (here, rest) = append-nil (unless (occurs term text) _) (require_terms path text terms) h in
    (unless-nil (occurs term text) _ here, require_terms-nil path text terms rest)

pub link_problems-nil :
    (readme : Text) (targets : List Text)
    → link_problems readme targets ≡ []
    → All (λ target. links target readme ≡ true) targets
unfolding link_problems
link_problems-nil readme [] h = tt
link_problems-nil readme (target ∷ targets) h =
    let (here, rest) =
      append-nil (unless (links target readme) _) (link_problems readme targets) h in
    (unless-nil (links target readme) _ here, link_problems-nil readme targets rest)

pub term_problems-nil :
    (texts : Texts) (required : List (Text × List Text))
    → term_problems texts required ≡ []
    → All (λ (r : Text × List Text). IfRead texts r.0 (λ text. Mentions text r.1)) required
unfolding term_problems
term_problems-nil texts [] h = tt
term_problems-nil texts ((path, terms) ∷ rest) h =
    let (here, later) =
      append-nil (of_document texts path (λ text. require_terms path text terms))
        (term_problems texts rest) h in
    (
      of_document-nil texts path (λ text. require_terms path text terms)
          (λ text. Mentions text terms) (λ text e. require_terms-nil path text terms e) here,
      term_problems-nil texts rest later,
    )

pub readme_problems-nil :
    (texts : Texts) (paths : List Text)
    → readme_problems texts paths ≡ []
    → All (λ path. IfRead texts path (λ text. Mentions text readme_terms)) paths
unfolding readme_problems
readme_problems-nil texts [] h = tt
readme_problems-nil texts (path ∷ paths) h =
    let (here, later) =
      append-nil (of_document texts path (λ text. require_terms path text readme_terms))
        (readme_problems texts paths) h in
    (
      of_document-nil texts path (λ text. require_terms path text readme_terms)
          (λ text. Mentions text readme_terms)
          (λ text e. require_terms-nil path text readme_terms e) here,
      readme_problems-nil texts paths later,
    )

name_problems-nil :
    (path text : Text) (parts : List Text)
    → name_problems path text parts ≡ []
    → All (λ part. occurs (strip part) text ≡ true) parts
unfolding name_problems
name_problems-nil path text [] h = tt
name_problems-nil path text (part ∷ parts) h =
    let (here, later) =
      append-nil (unless (occurs (strip part) text) _) (name_problems path text parts) h in
    (unless-nil (occurs (strip part) text) _ here, name_problems-nil path text parts later)

-- Every name of the framework stands in the text.
abbrev pub NamesFramework : (text : Text) → Json → Type 0
NamesFramework text framework =
    All (λ part. occurs (strip part) text ≡ true) (split b',' (said (codes "name") framework))

pub framework_problems-nil :
    (path text : Text) (frameworks : List Json)
    → framework_problems path text frameworks ≡ []
    → All (NamesFramework text) frameworks
unfolding framework_problems
framework_problems-nil path text [] h = tt
framework_problems-nil path text (framework ∷ frameworks) h =
    let (here, later) =
      append-nil (name_problems path text (split b',' (said (codes "name") framework)))
        (framework_problems path text frameworks) h in
    (
      name_problems-nil path text (split b',' (said (codes "name") framework)) here,
      framework_problems-nil path text frameworks later,
    )

-- Every path was read, and its text has no problem of its own.
abbrev pub AreRead :
    Repository → (text_problems : (path text : Text) → List Problem) → List Text → Texts → Type 0
AreRead repository text_problems [] [] = Unit
AreRead repository text_problems [] ((p, text) ∷ texts) = ⊥
AreRead repository text_problems (path ∷ paths) [] = ⊥
AreRead repository text_problems (path ∷ paths) ((p, text) ∷ texts) =
    (p ≡ path)
    × (repository path ≡ some (some text))
    × (text_problems path text ≡ [])
    × AreRead repository text_problems paths texts

document_at-nil :
    (repository : Repository) (text_problems : (path text : Text) → List Problem) (path : Text)
    (file : File) (here : Texts × List Problem)
    → document_at text_problems path file ≡ accept here
    → here.1 ≡ []
    → (text : Text) × (file ≡ some (some text))
      × (here.0 ≡ (path, text) ∷ [])
      × (text_problems path text ≡ [])
unfolding document_at
document_at-nil repository text_problems path none here h e =
    absurd (let found = ap (λ (d : Texts × List Problem). d.1) (accept_injective h) ∙ e in cc)
document_at-nil repository text_problems path (some contents) here h e =
    let (text, reads, h1) = >>=-eq-accept (read_text contents) _ h in
    let same = accept_injective h1 in
    (
      text,
      ap some (read_text-accept contents text reads),
      sym (ap (λ (d : Texts × List Problem). d.0) same),
      ap (λ (d : Texts × List Problem). d.1) same ∙ e,
    )

pub read_documents-AreRead :
    (repository : Repository) (text_problems : (path text : Text) → List Problem)
    (paths : List Text) (documents : Texts × List Problem)
    → read_documents repository text_problems paths ≡ accept documents
    → documents.1 ≡ []
    → AreRead repository text_problems paths documents.0
unfolding read_documents
read_documents-AreRead repository text_problems [] documents h e =
    subst (λ (d : Texts × List Problem). AreRead repository text_problems [] d.0)
      (accept_injective h) tt
read_documents-AreRead repository text_problems (path ∷ paths) documents h e =
    let (here, here_ok, h1) =
      >>=-eq-accept (document_at text_problems path (repository path)) _ h in
    let (later, later_ok, h2) =
      >>=-eq-accept (read_documents repository text_problems paths) _ h1 in
    let same = accept_injective h2 in
    let (none_here, none_later) =
      append-nil here.1 later.1 (ap (λ (d : Texts × List Problem). d.1) same ∙ e) in
    let (text, is_file, one, clean) =
      document_at-nil repository text_problems path (repository path) here here_ok none_here in
    subst (λ (d : Texts × List Problem). AreRead repository text_problems (path ∷ paths) d.0) same
      (subst (λ xs. AreRead repository text_problems (path ∷ paths) (xs ++ later.0)) (sym one)
        (
          refl,
          is_file,
          clean,
          read_documents-AreRead repository text_problems paths later later_ok none_later,
        ))
