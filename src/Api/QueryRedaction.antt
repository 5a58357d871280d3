-- ===== src/Api/QueryRedaction.antt =====
-- api/query_redaction.py: the middleware between the server, which logs its scope, and the
-- application. The scope is a mutable dict, so that the two may hold one object or two.
use pullfrog_azure.Prelude.{
  String, ◌≡◌, refl, ◌≢◌, ◌⊎◌, true, not, ◌||◌, arith, is_empty, str_eq, str_eq_iff, if◌then◌else◌,
}
use pullfrog_azure.Api.AuthCookies.{callback_path}

-- the parts of an ASGI scope that the middleware reads
pub record Scope : Type 0 where
  pub kind : String
  pub path : String
  pub query_string : String

-- The scope that the server goes on to read, and the one that the application is called with.
pub record Scopes : Type 0 where
  pub server : Scope
  pub application : Scope

unfoldable pub redact : Scope → Scopes
redact scope =
    if not (str_eq scope.kind "http")
      || not (str_eq scope.path callback_path)
      || is_empty scope.query_string
    then record { server = scope; application = scope }
    else record { server = record scope { query_string = "" }; application = scope }

-- What the middleware leaves for the server and the application.
pub record IsRedacted (scope : Scope) (s : Scopes) : Type 0 where
  pub whole : s.application ≡ scope
  pub same_path : (s.server.kind ≡ scope.kind) × (s.server.path ≡ scope.path)
  pub hidden :
      ((scope.kind ≡ "http") × (scope.path ≡ callback_path) × (s.server.query_string ≡ ""))
      ⊎ (((scope.kind ≢ "http") ⊎ (scope.path ≢ callback_path)) × (s.server ≡ scope))

is_empty_nil : (t : String) → is_empty t ≡ true → t ≡ ""
is_empty_nil String.[] h = refl
is_empty_nil (String.◌∷◌ c t) h = cc

-- The application always receives the scope as it was, its query included; the server is left
-- with an empty query for every HTTP request of the callback path, and with its own scope for
-- everything else.
pub redact-IsRedacted : (scope : Scope) → IsRedacted scope (redact scope)
unfolding redact
redact-IsRedacted scope = record {
  whole = ground arith;
  same_path = ground arith;
  hidden = ground (
    arith,
    str_eq_iff scope.kind "http",
    str_eq_iff scope.path callback_path,
    is_empty_nil scope.query_string,
  );
}
