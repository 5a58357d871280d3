-- ===== src/App/Http/Shielded.antt =====
-- Which requests the callback's route receives, and what the server's log keeps of them.
use pullfrog_azure.Prelude.{String, ◌≡◌, ◌↔◌, ◌∙◌, sym, ap, Option, some, arith, str_eq_iff}
use pullfrog_azure.Api.AuthCookies.{oidc_attempt_cookie, callback_path}
use pullfrog_azure.Api.QueryRedaction.{redact, IsRedacted, redact-IsRedacted}
use pullfrog_azure.App.Http.{HttpRequest, scope_of, route}
use pullfrog_azure.App.{get_callback}
use pullfrog_azure.Auth.Domain.{Callback}
use pullfrog_azure.Config.CallbackUrl.{IsCallbackUrl, callback_url_lem}
use pullfrog_azure.Config.{Settings, callback_url}

-- A request of the callback, with its attempt cookie and its whole query.
pub record IsCallbackRequest (parse_query : String → Callback) (r : HttpRequest)
    (attempt_cookie : Option String) (query : Callback) : Type 0 where
  pub get : r.method ≡ "GET"
  pub at_path : r.path ≡ "/api/v1/auth/callback"
  pub attempt : attempt_cookie ≡ r.cookie oidc_attempt_cookie
  pub whole : query ≡ parse_query r.query_string

module _ (parse_query : String → Callback) (r : HttpRequest) (a : Option String)
    (q : Callback) where
  route-IsCallbackRequest :
      route parse_query r (scope_of r) ≡ some (get_callback a q)
      → IsCallbackRequest parse_query r a q
  unfolding route
  route-IsCallbackRequest h = record {
    get = ground (arith, str_eq_iff r.method "GET");
    at_path = ground (arith, str_eq_iff r.path callback_path);
    attempt = ground arith;
    whole = ground arith;
  }

  IsCallbackRequest-route :
      IsCallbackRequest parse_query r a q
      → route parse_query r (scope_of r) ≡ some (get_callback a q)
  unfolding route
  IsCallbackRequest-route c =
      (λ i.
        route parse_query (record r { method = c.get i })
          (record (scope_of r) { path = c.at_path i }))
      ∙ (λ i. some (get_callback (sym c.attempt i) (sym c.whole i)))

  -- The provider is told the base URL without its last slashes, and then a path, which is the
  -- callback's: its route receives exactly the `GET` requests of that path, each with its attempt
  -- cookie and its whole query; and the scope that the server goes on to read holds no query for that
  -- path, and is the request's own for any other.
  pub route-IsRedacted :
      (settings : Settings)
      → IsCallbackUrl settings.public_base_url.text (callback_url settings)
        × ((route parse_query r (redact (scope_of r)).application ≡ some (get_callback a q))
            ↔ IsCallbackRequest parse_query r a q)
        × IsRedacted (scope_of r) (redact (scope_of r))
  route-IsRedacted settings =
      let kept = redact-IsRedacted (scope_of r) in
      let same = ap (route parse_query r) kept.whole in
      (
        callback_url_lem settings,
        (λ h. route-IsCallbackRequest (sym same ∙ h), λ c. same ∙ IsCallbackRequest-route c),
        kept,
      )
