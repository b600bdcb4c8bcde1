-- ===== src/Integrations/Flask.antt =====
-- CekatVisitor of python/src/cekat_event_sdk/integrations/flask.py. An app has the extension that is
-- registered and the hooks that it was given; a request context has the current visitor and the
-- scope that `g` holds, which is the token of its visitor scope.
pub mod Lifecycle
use cekat_event_sdk.Base.{
  ℕ, suc, Text, Bool, Option, none, some, List, [], ◌∷◌, ◌==◌, if◌then◌else◌, codes,
}
use cekat_event_sdk.Errors.{Error, Result, ok, raise}
use cekat_event_sdk.Context.{extract_visitor_id, optional}
use cekat_event_sdk.Context.Scope.{Current, Token, enter, leave}
use cekat_event_sdk.Integrations.{Request}

pub record App : Type 0 where
  pub extension : Option ℕ
  pub before_request : ℕ
  pub teardown_request : ℕ

registered : Option ℕ → ℕ → App → Result App
registered none visitor app = ok (record {
  extension = some visitor;
  before_request = suc app.before_request;
  teardown_request = suc app.teardown_request;
})
registered (some other) visitor app =
    if other == visitor then ok app else raise (Error.foreign (codes "RuntimeError"))

-- init_app; a CekatVisitor is known by a number.
unfoldable pub init_app : ℕ → App → Result App
unfolding registered
init_app visitor app = registered app.extension visitor app

pub record Context : Type 0 where
  pub current : Current
  pub scope : Option Token

exit_scope : Option Token → Current → Context
unfolding leave
exit_scope none current = record { current = current; scope = none }
exit_scope (some token) current = record { current = leave token current; scope = none }

-- _exit, the teardown hook; it pops the scope of `g`.
unfoldable pub exit : Context → Context
unfolding exit_scope
exit c = exit_scope c.scope c.current

-- _enter, the hook before a request.
unfoldable pub enter_request : Request → Context → Context
unfolding exit enter
enter_request request c =
    let visitor = extract_visitor_id request.headers (some request.cookies) in
    let (token, inside) = enter (optional visitor) (exit c).current in
    record { current = inside; scope = some token }

-- What happens in one request context: hooks, in any order and number, and code that reads.
pub data Hook : Type 0 where
  before : Request → Hook
  teardown : Hook

unfoldable pub run_hook : Hook → Context → Context
unfolding enter_request exit
run_hook (before request) c = enter_request request c
run_hook teardown c = exit c

unfoldable pub run_hooks : List Hook → Context → Context
unfolding run_hook
run_hooks [] c = c
run_hooks (h ∷ hs) c = run_hooks hs (run_hook h c)
