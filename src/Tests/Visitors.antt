-- ===== src/Tests/Visitors.antt =====
-- Visitors, scopes, hooks and metadata at concrete inputs.
use cekat_event_sdk.Base.{
  ℕ, ◌≤◌, ◌≡◌, ◌≢◌, ◌↔◌, refl, Text, true, Option, none, some, List, [], ◌∷◌, codes, arith, strip,
  lower, split, partition, length, text_eq, first_some, if◌then◌else◌,
}
use cekat_event_sdk.Errors.{Error, ok, raise}
use cekat_event_sdk.Objects.{Value}
use cekat_event_sdk.Context.{get_text, extract_visitor_id, normalize_visitor_id}
use cekat_event_sdk.Context.Laws.{IsVisitorId, candidates, extract-first_some, extract-IsVisitorId}
use cekat_event_sdk.Context.Scope.{entering, leaving, World, Event, does, starts, run}
use cekat_event_sdk.Context.Scope.Binding.{
  Program, done, reading, within, serving, execute, mean, execute-mean,
}
use cekat_event_sdk.Context.Scope.Restores.{Balanced, nothing, scope, own, run-restores}
use cekat_event_sdk.Stripe.{
  visitor_metadata_key, Metadata, merge_metadata, valid_visitor_id, all_visitor_chars,
}
use cekat_event_sdk.Stripe.Laws.{merge_metadata_lem, valid_visitor_id_iff}
use cekat_event_sdk.Integrations.{Request}
use cekat_event_sdk.Integrations.Flask.{App, init_app, before, teardown, run_hooks}
use cekat_event_sdk.Integrations.Flask.Lifecycle.{run_hooks-teardown, init_app_again}

-- A blank header of the visitor, a raw cookie, and parsed cookies.
abbrev headers : List (Text × Text)
headers =
    (codes "X-Cekat-Visitor-Id", codes " ")
    ∷ (codes "Cookie", codes "a=1; _cekat_visitor_id=v%202")
    ∷ []

abbrev cookies : List (Text × Text)
cookies = (codes "_cekat_visitor_id", codes "v3") ∷ []

extract-first_some_example :
    extract_visitor_id headers (some cookies) ≡ first_some (candidates headers cookies)
extract-first_some_example = extract-first_some headers (some cookies)

abbrev found : Text
found = codes "v%202"

extracted : extract_visitor_id headers (some cookies) ≡ some found
unfolding extract_visitor_id lower strip split partition
extracted = refl

extract-IsVisitorId_example : IsVisitorId found
extract-IsVisitorId_example = extract-IsVisitorId headers (some cookies) found extracted

abbrev world : World
world task = record { current = none; tokens = [] }

abbrev visitor : Value
visitor = Value.str (codes "v1")

abbrev another : Value
another = Value.str (codes "v2")

-- Task 0 enters a scope, starts task 1, which enters one of its own, and leaves.
abbrev schedule : List Event
schedule = does 0 (entering visitor) ∷ starts 0 1 ∷ does 1 (entering another) ∷ does 0 leaving ∷ []

not_zero : ◌≢◌ {A = ℕ} 1 0
not_zero = omega arith

nested : Balanced (own 0 schedule)
unfolding own
nested = scope {v = visitor} {inner = []} {rest = []} nothing nothing

run-restores_example : run schedule world 0 ≡ record { current = none; tokens = [] }
run-restores_example = run-restores 0 schedule world (not_zero, tt) nested

abbrev metadata : Metadata
metadata = (codes "order", codes "7") ∷ []

merge_metadata_lem_example : get_text visitor_metadata_key (merge_metadata metadata visitor) ≡ (
    if text_eq visitor_metadata_key visitor_metadata_key
    then (elim (valid_visitor_id visitor) [
      | none ↦ get_text visitor_metadata_key metadata
      | some v ↦ some v
    ])
    else get_text visitor_metadata_key metadata)
merge_metadata_lem_example = merge_metadata_lem metadata visitor visitor_metadata_key

valid_visitor_id_iff_example : (valid_visitor_id visitor ≡ some (codes "v1")) ↔ (
    (normalize_visitor_id visitor ≡ some (codes "v1"))
    × (length (codes "v1") ≤ 128)
    × (all_visitor_chars (codes "v1") ≡ true))
valid_visitor_id_iff_example = valid_visitor_id_iff visitor (codes "v1")

abbrev request : Request
request = record { headers = headers; cookies = cookies }

run_hooks-teardown_example :
    run_hooks
      (before request ∷ before request ∷ teardown ∷ [])
      (record { current = some (codes "v0"); scope = none })
    ≡ record { current = some (codes "v0"); scope = none }
run_hooks-teardown_example =
    run_hooks-teardown (before request ∷ before request ∷ []) (some (codes "v0"))

abbrev app : App
app = record { extension = none; before_request = 1; teardown_request = 1 }

differs : ◌≢◌ {A = ℕ} 5 4
differs = omega arith

init_app_again_example :
    (once : App) × (init_app 4 app ≡ ok once)
    × (init_app 4 once ≡ ok once)
    × (init_app 5 once ≡ raise (Error.foreign (codes "RuntimeError")))
    × (once.before_request ≡ 2)
    × (once.teardown_request ≡ 2)
init_app_again_example = init_app_again 4 5 app refl differs

-- A request's block reads the visitor and raises; the program goes on with another scope.
abbrev program : Program (Option Text)
program =
    serving headers (some cookies) (reading (λ v. done (raise (Error.foreign (codes "KeyError")))))
      (λ r. within (Value.str (codes "w")) (reading (λ v. done (ok v))) (λ inner. done inner))

execute-mean_example :
    execute program (some (codes "old")) ≡ (mean program (some (codes "old")), some (codes "old"))
execute-mean_example = execute-mean program (some (codes "old"))
