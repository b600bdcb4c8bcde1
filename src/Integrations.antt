-- ===== src/Integrations.antt =====
-- python/src/cekat_event_sdk/integrations: the middleware that puts a request under a visitor
-- scope. The frameworks are not under src/: a request is the headers and cookies that they hand
-- over, and what runs below the middleware is a block of code.
pub mod Flask
use cekat_event_sdk.Base.{
  ℕ, Text, Bool, Option, none, some, List, [], ◌∷◌, ◌==◌, if◌then◌else◌, codes, text_eq,
}
use cekat_event_sdk.Context.Scope.{Block, visitor_from_request}

pub record Request : Type 0 where
  pub headers : List (Text × Text)
  pub cookies : List (Text × Text)

-- DjangoVisitorMiddleware.__call__ and __acall__: the two differ by `await` alone.
unfoldable pub django : {A : Type 0} → Request → Block A → Block A
unfolding visitor_from_request
django request get_response =
    visitor_from_request request.headers (some request.cookies) get_response

-- VisitorMiddleware.__call__ of asgi.py: bytes.decode("latin-1") maps each byte to the character of
-- that number, so a header of bytes is a text as it stands.
unfoldable pub asgi : {A : Type 0} → Text → List (Text × Text) → Block A → Block A
unfolding visitor_from_request
asgi scope_type headers app =
    if text_eq scope_type (codes "http") then visitor_from_request headers none app else app
