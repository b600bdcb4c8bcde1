-- ===== src/Integrations/Flask/Lifecycle.antt =====
-- A Flask app gets the hooks once, and a request leaves no visitor behind.
use cekat_event_sdk.Base.{
  ℕ, suc, ◌≡◌, ◌≢◌, refl, ap, ◌∙◌, none, some, List, [], ◌∷◌, ◌++◌, codes, arith,
}
use cekat_event_sdk.Errors.{Error, ok, raise}
use cekat_event_sdk.Context.{extract_visitor_id, normalize_visitor_id, optional}
use cekat_event_sdk.Context.Scope.{Current, enter, leave}
use cekat_event_sdk.Integrations.{Request}
use cekat_event_sdk.Integrations.Flask.{
  App, init_app, registered, Context, exit_scope, exit, enter_request, Hook, before, teardown,
  run_hook, run_hooks,
}

-- The visitor that stood before the hooks of this context ran.
abbrev pub outside : Context → Current
outside c = elim c.scope [ none ↦ c.current | some token ↦ token ]

run_hook-outside : (h : Hook) (c : Context) → outside (run_hook h c) ≡ outside c
unfolding run_hook exit_scope
run_hook-outside (before request) c = ground arith
run_hook-outside teardown c = ground arith

run_hooks-outside : (hs : List Hook) (c : Context) → outside (run_hooks hs c) ≡ outside c
unfolding run_hooks
run_hooks-outside [] c = refl
run_hooks-outside (h ∷ hs) c = run_hooks-outside hs (run_hook h c) ∙ run_hook-outside h c

run_hooks-append :
    (hs ks : List Hook) (c : Context) → run_hooks (hs ++ ks) c ≡ run_hooks ks (run_hooks hs c)
unfolding run_hooks
run_hooks-append [] ks c = refl
run_hooks-append (h ∷ hs) ks c = run_hooks-append hs ks (run_hook h c)

exit_lem : (c : Context) → exit c ≡ record { current = outside c; scope = none }
unfolding exit leave
exit_lem c = ground arith

-- However often the hooks run, after a last teardown the visitor of before the first hook is
-- current again and no scope is open, if none was open at the start.
pub run_hooks-teardown :
    (hs : List Hook) (current : Current)
    → run_hooks (hs ++ teardown ∷ []) (record { current = current; scope = none })
      ≡ record { current = current; scope = none }
unfolding run_hooks run_hook
run_hooks-teardown hs current =
    let start : Context = record { current = current; scope = none } in
    run_hooks-append hs (teardown ∷ []) start
    ∙ exit_lem (run_hooks hs start)
    ∙ ap (λ (v : Current). record { current = v; scope = none }) (run_hooks-outside hs start)

-- While a request runs its visitor is the one that its headers and cookies hold, also where the
-- hook before it ran already.
pub enter_request-current :
    (request : Request) (c : Context)
    → (enter_request request c).current
      ≡ normalize_visitor_id (optional (extract_visitor_id request.headers (some request.cookies)))
unfolding enter_request enter
enter_request-current request c = refl

-- Registering an extension again changes nothing: a new app that took a
-- CekatVisitor takes it again, has each hook once more than before the first time, and refuses
-- every other CekatVisitor.
pub init_app_again :
    (visitor other : ℕ) (app : App)
    → app.extension ≡ none
    → other ≢ visitor
    → (once : App) × (init_app visitor app ≡ ok once)
      × (init_app visitor once ≡ ok once)
      × (init_app other once ≡ raise (Error.foreign (codes "RuntimeError")))
      × (once.before_request ≡ suc app.before_request)
      × (once.teardown_request ≡ suc app.teardown_request)
unfolding init_app registered
init_app_again visitor other app fresh differs = (
  record {
    extension = some visitor;
    before_request = suc app.before_request;
    teardown_request = suc app.teardown_request;
  },
  rw fresh,
  ground arith,
  ground arith,
  refl,
  refl,
)
