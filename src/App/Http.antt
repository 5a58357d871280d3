-- ===== src/App/Http.antt =====
-- app.py and api/router.py, before a route runs: the redaction of the scope that the server goes on to
-- read, and the route of a method and a path. Starlette's reading of a query string is an argument.
pub mod Shielded
use pullfrog_azure.Prelude.{
  String, ◌≡◌, refl, ◌≢◌, Bool, ◌&&◌, Option, none, some, List, [], ◌∷◌, arith, str_eq, str_eq_iff,
  if◌then◌else◌, text_append,
}
use pullfrog_azure.Api.AuthCookies.{
  Response, oidc_attempt_cookie, admin_session_cookie, admin_csrf_cookie, callback_path,
}
use pullfrog_azure.Api.QueryRedaction.{Scope, Scopes, redact}
use pullfrog_azure.App.{
  Request, get_login, get_callback, get_me, post_logout, get_live, get_ready, Surroundings, handle,
}
use pullfrog_azure.Auth.Domain.{Callback, lookup}
use pullfrog_azure.Config.{Settings}
use pullfrog_azure.Exec.{Exec, return, ◌>>=◌}
use pullfrog_azure.Models.{Database}
use pullfrog_azure.Platform.{Platform}

-- A request of the HTTP server: what the middleware reads, and the cookies and headers by name.
pub record HttpRequest : Type 0 where
  pub method : String
  pub path : String
  pub query_string : String
  pub cookie : String → Option String
  pub header : String → Option String

abbrev pub scope_of : HttpRequest → Scope
scope_of r = record { kind = "http"; path = r.path; query_string = r.query_string }

-- `include_router(api_router, prefix="/api/v1")`, and the prefixes of the two routers in it
abbrev pub api_prefix : String
api_prefix = "/api/v1"

abbrev pub health_prefix : String
health_prefix = "/health"

abbrev pub auth_prefix : String
auth_prefix = "/auth"

abbrev pub csrf_header_name : String
csrf_header_name = "X-Pullfrog-CSRF"

-- The method and the path of a decorator, below the prefix of its router.
abbrev answers : HttpRequest → Scope → (method router_prefix path : String) → Bool
answers r scope method router_prefix path =
    str_eq r.method method
    && str_eq scope.path (text_append api_prefix (text_append router_prefix path))

abbrev live_route : HttpRequest → Scope → Option Request
live_route r scope = if answers r scope "GET" health_prefix "/live" then some get_live else none

abbrev ready_route : HttpRequest → Scope → Option Request
ready_route r scope = if answers r scope "GET" health_prefix "/ready" then some get_ready else none

-- `require_admin` reads the session cookie for it.
abbrev me_route : HttpRequest → Scope → Option Request
me_route r scope =
    if answers r scope "GET" auth_prefix "/me"
    then some (get_me (r.cookie admin_session_cookie))
    else none

-- `require_admin_mutation` reads the cookies and the header for it.
abbrev mutation_route : HttpRequest → Scope → Option Request
mutation_route r scope =
    if answers r scope "POST" auth_prefix "/logout"
    then some (
        post_logout (r.cookie admin_session_cookie) (r.cookie admin_csrf_cookie)
          (r.header csrf_header_name))
    else none

abbrev first_route : List (Option Request) → Option Request
first_route [] = none
first_route (some request ∷ routes) = some request
first_route (none ∷ routes) = first_route routes

module _ (parse_query : String → Callback) (r : HttpRequest) (scope : Scope) where
  abbrev login_route : Option Request
  login_route =
      if answers r scope "GET" auth_prefix "/login"
      then some (get_login (lookup "return_to" (parse_query scope.query_string)))
      else none

  abbrev callback_route : Option Request
  callback_route =
      if answers r scope "GET" auth_prefix "/callback"
      then some (get_callback (r.cookie oidc_attempt_cookie) (parse_query scope.query_string))
      else none

  -- The routes in the order in which they are included; `none` where the application has no route of
  -- its own.
  unfoldable pub route : Option Request
  unfolding lookup
  route = first_route (
      live_route r scope
      ∷ ready_route r scope
      ∷ login_route
      ∷ callback_route
      ∷ me_route r scope
      ∷ mutation_route r scope
      ∷ [])

module _ (p : Platform) (parse_query : String → Callback) (settings : Settings) where
  abbrev respond : Surroundings → Option Request → Exec Database (Option Response)
  respond w none = return none
  respond w (some request) = do response ← handle p settings w request; return (some response)

  -- The application is called with its own scope of the redaction's two.
  unfoldable pub serve : Surroundings → HttpRequest → Exec Database (Option Response)
  serve w r = respond w (route parse_query r (redact (scope_of r)).application)
