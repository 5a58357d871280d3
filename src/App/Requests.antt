-- ===== src/App/Requests.antt =====
-- Every request is a sequence of committed repository operations, so that what those keep holds
-- along any sequence of requests.
use pullfrog_azure.Prelude.{ℕ, ◌≤◌, String, ◌≡◌, Bool, Option, sym, ◌∙◌}
use pullfrog_azure.Api.Dependencies.{require_admin_mutation}
use pullfrog_azure.Api.Dependencies.Service.{compose}
use pullfrog_azure.Api.Routes.{
  login, callback, me, logout_route, callback_response, authentication_error_handler,
}
use pullfrog_azure.Api.Health.{liveness, readiness}
use pullfrog_azure.App.{
  Request, get_login, get_callback, get_me, post_logout, get_live, get_ready, Surroundings,
  service_of, dispatch, handle,
}
use pullfrog_azure.Auth.Domain.{Callback}
use pullfrog_azure.Config.{Settings, secure_cookies}
use pullfrog_azure.Config.Security.{IsSecure}
use pullfrog_azure.Outcome.{ok, ok_inj}
use pullfrog_azure.Platform.{Platform}
use pullfrog_azure.Providers.EntraClient.{entra_provider, as_oidc}
use pullfrog_azure.Services.Authentication.{AuthenticationService, require_csrf}
use pullfrog_azure.Services.Authentication.Transitions.{
  Reaches, Reaches-return, Reaches-lift, Reaches-bind, Reaches-bind_lift, Reaches-answer,
  begin_login-Reaches, complete_login-Reaches, current_admin-Reaches, logout-Reaches,
}

module _ (p : Platform) (secure : Bool) (service : AuthenticationService) where
  login-Reaches :
      (return_to : Option String) (now : ℕ) (attempt_token : String) (id : ℕ) (locked : ℕ → Bool)
      → Reaches (login p secure service return_to now attempt_token id locked)
  unfolding login
  login-Reaches return_to now attempt_token id locked =
      Reaches-bind _ _ (begin_login-Reaches p service return_to now attempt_token id locked)
        λ s. Reaches-return _

  callback-Reaches :
      (attempt_cookie : Option String) (query : Callback) (now : ℕ) (session csrf : String) (id : ℕ)
      → service.idle_lifetime ≤ service.absolute_lifetime
      → Reaches (callback p secure service attempt_cookie query now session csrf id)
  unfolding callback
  callback-Reaches attempt_cookie query now session csrf id fits =
      Reaches-answer (callback_response secure) _
        (complete_login-Reaches p service attempt_cookie query now session csrf id fits)

  me-Reaches :
      (session_cookie : Option String) (now : ℕ) → Reaches (me p secure service session_cookie now)
  unfolding me
  me-Reaches session_cookie now =
      Reaches-bind _ _ (current_admin-Reaches p service session_cookie now) λ a. Reaches-return _

  logout_route-Reaches :
      (session_cookie csrf_cookie csrf_header : Option String) (now now_after : ℕ)
      → Reaches (logout_route p secure service session_cookie csrf_cookie csrf_header now now_after)
  unfolding logout_route require_admin_mutation
  logout_route-Reaches session_cookie csrf_cookie csrf_header now now_after =
      Reaches-bind _ _
        (Reaches-bind _ _ (current_admin-Reaches p service session_cookie now) λ a.
          Reaches-bind _ _ (Reaches-lift (require_csrf p service a csrf_cookie csrf_header))
            λ _. Reaches-return a)
        λ a. Reaches-bind _ _ (logout-Reaches p service a now_after) λ _. Reaches-return _

module _ (p : Platform) (settings : Settings) (secure : IsSecure settings) where
  composed :
      (w : Surroundings) (service : AuthenticationService)
      → service_of p settings w ≡ ok service
      → service.idle_lifetime ≤ service.absolute_lifetime
  composed w service h =
      let (s, made, c) =
        compose settings (as_oidc p (entra_provider p w.msal settings) w.now_seconds) secure in
      let same : s ≡ service = ok_inj (sym made ∙ h) in rw (← same) c.idle_first

  dispatch-Reaches :
      (w : Surroundings) (request : Request) → Reaches (dispatch p settings w request)
  dispatch-Reaches w (get_login return_to) =
      Reaches-bind_lift (service_of p settings w) _ λ service made.
        login-Reaches p (secure_cookies settings) service return_to w.now w.attempt_token w.id
          w.locked
  dispatch-Reaches w (get_callback attempt_cookie query) =
      Reaches-bind_lift (service_of p settings w) _ λ service made.
        callback-Reaches p (secure_cookies settings) service attempt_cookie query w.now
          w.session_token w.csrf_token w.id (composed w service made)
  dispatch-Reaches w (get_me session_cookie) =
      Reaches-bind_lift (service_of p settings w) _
        λ service made. me-Reaches p (secure_cookies settings) service session_cookie w.now
  dispatch-Reaches w (post_logout session_cookie csrf_cookie csrf_header) =
      Reaches-bind_lift (service_of p settings w) _ λ service made.
        logout_route-Reaches p (secure_cookies settings) service session_cookie csrf_cookie
          csrf_header w.now w.now_after
  dispatch-Reaches w get_live = Reaches-return liveness
  dispatch-Reaches w get_ready = Reaches-lift (readiness w.query)

  pub handle-Reaches :
      (w : Surroundings) (request : Request) → Reaches (handle p settings w request)
  unfolding handle
  handle-Reaches w request =
      Reaches-answer (authentication_error_handler (secure_cookies settings)) _
        (dispatch-Reaches w request)
