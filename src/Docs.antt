-- ===== src/Docs.antt =====
-- scripts/audit-docs.py: the audit of the documents. A problem is its path, its line and its kind;
-- its wording is left out. The patterns that audit_text searches for are not modelled: its problems
-- are a parameter of the audit.
pub mod Audits
pub mod Compatibility
pub mod Headings
pub mod Page
pub mod Prose
use cekat_event_sdk.Base.{ℕ, Text, List, [], ◌∷◌, ◌++◌, map, codes}
use cekat_event_sdk.Package.{languages}

pub data Complaint : Type 0 where
  of_text : (message : Text) → Complaint
  missing_document invalid_matrix out_of_date : Complaint
  no_link : (target : Text) → Complaint
  missing_term : (term : Text) → Complaint
  no_floor : (name token : Text) → Complaint
  not_mentioned : (name : Text) → Complaint

pub record Problem : Type 0 where
  pub path : Text
  pub line : ℕ
  pub complaint : Complaint

abbrev pub contract : Text
contract = codes "docs/sdk-contract.md"

abbrev pub propagation : Text
propagation = codes "docs/visitor-propagation.md"

abbrev pub semantics : Text
semantics = codes "docs/retry-and-error-semantics.md"

abbrev pub compatibility : Text
compatibility = codes "docs/compatibility.md"

abbrev pub checklist : Text
checklist = codes "docs/release-checklist.md"

abbrev pub root_documents : List Text
root_documents = contract ∷ propagation ∷ semantics ∷ compatibility ∷ checklist ∷ []

abbrev pub readme_of : Text → Text
readme_of language = language ++ codes "/README.md"

abbrev pub language_readmes : List Text
language_readmes = map readme_of languages

abbrev pub conformance_guide : Text
conformance_guide = codes "conformance/README.md"

abbrev pub root_readme : Text
root_readme = codes "README.md"

-- The documents that the root README links.
abbrev pub linked : List Text
linked = root_documents ++ conformance_guide ∷ language_readmes

abbrev pub audited : List Text
audited = root_readme ∷ linked

-- REQUIRED_TERMS
abbrev pub required_terms : List (Text × List Text)
required_terms =
    (
      contract,
      codes "https://t.cekat.ai"
          ∷ codes "/api/events/ingest"
          ∷ codes "Authorization: Bearer"
          ∷ codes "business_id"
          ∷ codes "User-Agent: cekat-event-sdk-"
          ∷ codes "user_registration"
          ∷ codes "user_login"
          ∷ codes "order_created"
          ∷ codes "order_paid"
          ∷ codes "is_common"
          ∷ codes "event_id"
          ∷ codes "occurred_at"
          ∷ codes "asynchronous processing"
          ∷ codes "ValidationError"
          ∷ codes "AuthenticationError"
          ∷ codes "EventDefinitionNotFoundError"
          ∷ codes "ApiError"
          ∷ codes "TransportError"
          ∷ codes "ResponseDecodeError"
          ∷ codes "conformance/README.md"
          ∷ codes "conformance/fixtures/schemas/conformance-case.schema.json"
          ∷ [],
    )
    ∷ (
      propagation,
      codes "X-Cekat-Visitor-ID"
          ∷ codes "_cekat_visitor_id"
          ∷ codes "untrusted"
          ∷ codes "precedence"
          ∷ codes "finally"
          ∷ [],
    )
    ∷ (
      semantics,
      codes "3 seconds"
          ∷ codes "429"
          ∷ codes "500"
          ∷ codes "502"
          ∷ codes "503"
          ∷ codes "504"
          ∷ codes "Retry-After"
          ∷ codes "5 seconds"
          ∷ codes "65,536"
          ∷ codes "duplicate"
          ∷ codes "event_id"
          ∷ codes "full jitter"
          ∷ codes "cancel"
          ∷ [],
    )
    ∷ (
      checklist,
      codes "release-readiness.yml"
          ∷ codes "manifest"
          ∷ codes "signing"
          ∷ codes "registry"
          ∷ codes "never publishes"
          ∷ [],
    )
    ∷ []

abbrev pub readme_terms : List Text
readme_terms =
    codes "X-Cekat-Visitor-ID"
    ∷ codes "_cekat_visitor_id"
    ∷ codes "asynchronous processing"
    ∷ codes "untrusted"
    ∷ codes "duplicate"
    ∷ codes "Retry-After"
    ∷ codes "429"
    ∷ codes "event_id"
    ∷ []
