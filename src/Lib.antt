-- ===== src/Lib.antt =====
-- Verification of the Cekat event SDK for Python (python/src/cekat_event_sdk).
--
-- A client is configured once (Shared.create), and each of its methods checks an event, builds one
-- JSON body from it and the visitor of the current scope (Validation), and sends that body until a
-- response decides the call or the retries are used up (Client). Retry says whether and how long to
-- wait, Protocol what a response means, Errors what is raised. The visitor comes from a scope of the
-- task (Context), which the framework integrations put around a request, and it also goes into Stripe
-- metadata.
--
-- Files and code (paths under python/src/cekat_event_sdk unless they start with scripts):
--   Base              texts as lists of code points, Python's strip, lower, split and partition,
--                     UTF-8, ints and doubles, and the lists and tests that all modules share
--   Objects           Python values as the SDK meets them, and the heap of mutable objects
--   Errors            errors.py: the error classes, and computations that may raise
--   Context           context.py: normalize_visitor_id, visitor_id_from_cookie_header,
--                     extract_visitor_id; Context.Scope is the ContextVar, visitor_scope and tasks
--   Retry             retry.py: parse_retry_after, retry_delay, jitter_upper_bound
--   Json              documents, and json.dumps with the separators that build_body passes
--   Responses         protocol.py: BoundedBuffer and ReceivedResponse
--   Protocol          protocol.py: decode and _acknowledgement
--   Validation        validation.py: Origin (normalize_origin and the parts of urlsplit that it
--                     uses), Config (the other checks of the configuration), Properties (_normalize
--                     and _container), Order (with_order_paid_properties), Body (build_body)
--   Timestamps        _occurred_at of validation.py: astimezone, strftime and the milliseconds
--   Models            models.py
--   Stripe            stripe.py
--   Integrations      integrations/django.py, asgi.py and flask.py
--   Shared            _shared.py: Settings.create, received, transport_error
--   Client            client.py and async_client.py: _attempt and _track of both clients
--   Api               the public methods, construction and closing of both clients
--   Package           scripts/validate-package-manifest.py: Listings is parse_manifest, Files the tree
--                     of an output directory, validate_manifest and validate_all
--   Verdicts          how both validators end: accepted, rejected, or with another exception
--   Patterns          the regular expressions of the scripts, as functions that backtrack like re
--   Matrix            scripts/validate-compatibility-matrix.py: Dates (_parse_date), Runtimes
--                     (declared_runtime), Workflows (_job_block, ci_matrix_values,
--                     release_readiness_values), Entries, Supports and Validation (validate),
--                     Rendering (markdown)
--   Docs              scripts/audit-docs.py: Prose (strip_code), Headings (anchors), Compatibility
--                     and Page (runtime_token, render_compatibility), Audits (audit)
--   Conformance       scripts/conformance.py: account, Records (parse_records), Languages
--                     (run_language)
--   Tests             the theorems at concrete inputs
--
-- State. A client's settings never change. The retry loop keeps the number of attempts; its effects
-- are the list of requests, openings and closings of a response, and pauses. The network is an
-- argument: for each attempt an exchange with the microseconds at which its parts come in, so chunk
-- boundaries, time-outs and failures at any point can be stated. A scope keeps the value of the
-- ContextVar and the tokens to reset it; tasks are numbered, and a schedule is a list of their steps.
-- The caller's mappings and lists are addresses into a heap, so shared and cyclic values can be
-- stated.
--
-- Bounds and fuel. The loop of _track has fuel retry_count + 1: a round for the first attempt and one
-- for each retry. The normalisation of properties recurses on the room that is left, max_depth + 1 at
-- the start, as the code counts its depth up to _MAX_DEPTH. A number is printed with fuel n + 1. The
-- rounding of an int to a double drops at most 972 bits, beyond which the int does not fit. Times are
-- microseconds in natural numbers, where the code has seconds in doubles.
--
-- Parameters, for what is not in the repository: json.loads (Loaded), email.utils.parsedate_to_datetime,
-- the digits of \d beyond ASCII, str.lower of a host beyond ASCII, float(Decimal), float.__repr__, the
-- NFKC and bracket checks of urlsplit, whether strftime pads years, random.uniform, the clock, the new
-- event ID and the user agent. An exception that is none of the SDK's carries the name of its type.
-- A request counts from the call of build_request on, so an attempt whose request cannot be built is
-- one that raises; closing a response is taken to raise nothing.
--
-- The scripts take SHA-256, json.loads with its hooks, and str of a value that is no text as
-- parameters. A directory is a tree of entries, and the repository that a matrix is checked against a
-- function from paths to files. What the processes of a conformance run do is a record of their output
-- and statuses.
--
-- Not modelled: the SDKs for other languages, the conformance server and how its processes
-- are started and waited for, the patterns and links of audit_text, the command lines,
-- __repr__ methods, and the internals of httpx, anyio and the frameworks.
pub mod Base
pub mod Objects
pub mod Errors
pub mod Context
pub mod Retry
pub mod Json
pub mod Responses
pub mod Protocol
pub mod Validation
pub mod Models
pub mod Timestamps
pub mod Stripe
pub mod Integrations
pub mod Shared
pub mod Client
pub mod Api
pub mod Verdicts
pub mod Patterns
pub mod Matrix
pub mod Docs
pub mod Package
pub mod Conformance
pub mod Tests
