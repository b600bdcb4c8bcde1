-- ===== src/Context/Scope/Binding.antt =====
-- The ContextVar of python/src/cekat_event_sdk/context.py against lexical binding: programs that
-- read the visitor and nest scopes, run with the variable that is set and reset, and their meaning
-- when the visitor is a name that each scope binds.
use cekat_event_sdk.Base.{◌≡◌, refl, Text, Option, List}
use cekat_event_sdk.Errors.{Result, ok, raise}
use cekat_event_sdk.Objects.{Value}
use cekat_event_sdk.Context.{normalize_visitor_id, optional, extract_visitor_id}
use cekat_event_sdk.Context.Scope.{
  Current, Block, current_visitor_id, visitor_scope, visitor_from_request,
}

-- A program returns or raises, reads the visitor, or has a block in a scope of its own, whose
-- result or error it may go on with.
pub data Program (A : Type 0) : Type 0 where
  done : Result A → Program A
  reading : (Option Text → Program A) → Program A
  within : (visitor_id : Value) → Program A → (Result A → Program A) → Program A
  serving :
      (headers : List (Text × Text)) (cookies : Option (List (Text × Text)))
      → Program A
      → (Result A → Program A)
      → Program A

module _ {A : Type 0} where
  and_then : {B : Type 0} → Result B × Current → (B → Block A) → Result A × Current
  and_then (ok b, current) next = next b current
  and_then (raise e, current) next = (raise e, current)

  -- The code of a program: every scope sets the variable and resets it.
  unfoldable pub execute : Program A → Block A
  unfolding current_visitor_id and_then
  execute (done r) current = (r, current)
  execute (reading next) current = and_then (current_visitor_id current) (λ v. execute (next v))
  execute (within v inner next) current =
      let (result, after) = visitor_scope v (execute inner) current in execute (next result) after
  execute (serving headers cookies inner next) current =
      let (result, after) = visitor_from_request headers cookies (execute inner) current in
      execute (next result) after

  -- The meaning of a program: the visitor is an argument, and a scope passes another one.
  pub mean : Program A → Option Text → Result A
  mean (done r) visitor = r
  mean (reading next) visitor = mean (next visitor) visitor
  mean (within v inner next) visitor = mean (next (mean inner (normalize_visitor_id v))) visitor
  mean (serving headers cookies inner next) visitor =
      mean
        (next (mean inner (normalize_visitor_id (optional (extract_visitor_id headers cookies)))))
        visitor

-- The variable implements lexical binding: from any current visitor, a program has the result that
-- it has by its meaning with that visitor, whatever its blocks return or raise, and afterwards that
-- visitor is current again.
pub execute-mean :
    {A : Type 0} (p : Program A) (current : Current) → execute p current ≡ (mean p current, current)
unfolding execute mean visitor_scope visitor_from_request
execute-mean (done r) current = refl
execute-mean (reading next) current = execute-mean (next current) current
execute-mean (within v inner next) current =
    rw (execute-mean inner (normalize_visitor_id v))
      (execute-mean (next (mean inner (normalize_visitor_id v))) current)
execute-mean (serving headers cookies inner next) current =
    let visitor = normalize_visitor_id (optional (extract_visitor_id headers cookies)) in
    rw (execute-mean inner visitor) (execute-mean (next (mean inner visitor)) current)
