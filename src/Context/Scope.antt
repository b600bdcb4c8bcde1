-- ===== src/Context/Scope.antt =====
-- The visitor scope of python/src/cekat_event_sdk/context.py: a ContextVar that `visitor_scope`
-- sets and resets. A block of code is a function of the variable's value, which comes back whether
-- the block returns or raises. Threads and asyncio tasks have a context each: a schedule says which
-- task enters or leaves a scope, or starts another task with a copy of its own context.
pub mod Binding
pub mod Restores
use cekat_event_sdk.Base.{ℕ, Text, Option, none, List, [], ◌∷◌, ◌==◌, if◌then◌else◌}
use cekat_event_sdk.Errors.{Result, ok}
use cekat_event_sdk.Objects.{Value}
use cekat_event_sdk.Context.{normalize_visitor_id, optional, extract_visitor_id}

abbrev pub Current : Type 0
Current = Option Text

abbrev pub Block : Type 0 → Type 0
Block A = Current → Result A × Current

-- The token of ContextVar.set holds the value that stood before.
abbrev pub Token : Type 0
Token = Option Text

unfoldable pub current_visitor_id : Block (Option Text)
current_visitor_id current = (ok current, current)

-- The part of `visitor_scope` above its `yield`, and the part below it.
unfoldable pub enter : Value → Current → Token × Current
enter visitor_id current = (current, normalize_visitor_id visitor_id)

unfoldable pub leave : Token → Current → Current
leave token current = token

unfoldable pub visitor_scope : {A : Type 0} → Value → Block A → Block A
unfolding enter leave
visitor_scope visitor_id block current =
    let (token, inside) = enter visitor_id current in
    let (result, after) = block inside in (result, leave token after)

unfoldable pub visitor_from_request :
    {A : Type 0} → List (Text × Text) → Option (List (Text × Text)) → Block A → Block A
unfolding visitor_scope
visitor_from_request headers cookies block =
    visitor_scope (optional (extract_visitor_id headers cookies)) block

-- The context of one task: the variable, and the tokens of the scopes that it is in.
pub record Task : Type 0 where
  pub current : Current
  pub tokens : List Token

pub data Action : Type 0 where
  entering : (visitor_id : Value) → Action
  leaving : Action

pop : Task → List Token → Task
unfolding leave
pop t [] = t
pop t (token ∷ tokens) = record { current = leave token t.current; tokens = tokens }

unfoldable pub act : Action → Task → Task
unfolding enter pop
act (entering v) t =
    let (token, inside) = enter v t.current in
    record { current = inside; tokens = token ∷ t.tokens }
act leaving t = pop t t.tokens

abbrev pub World : Type 0
World = ℕ → Task

pub data Event : Type 0 where
  does : (task : ℕ) → Action → Event
  starts : (parent child : ℕ) → Event

abbrev pub with_task : World → ℕ → Task → World
with_task w i t j = if i == j then t else w j

unfoldable pub step : Event → World → World
unfolding act
step (does i a) w = with_task w i (act a (w i))
step (starts i j) w = with_task w j (record { current = (w i).current; tokens = [] })

unfoldable pub run : List Event → World → World
unfolding step
run [] w = w
run (e ∷ es) w = run es (step e w)
