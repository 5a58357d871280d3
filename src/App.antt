-- ===== src/App.antt =====
-- app.py, container.py and api/router.py: the application as a whole. A request is dispatched to its
-- route, over a service that it composes from the settings, inside the handler of authentication
-- errors; an exception that no handler takes is what the server answers as an internal error.
pub mod Http
pub mod Requests
pub mod Served
pub mod LogoutRoute
pub mod Logout
pub mod SignIn
pub mod SignedIn
pub mod Cookies
pub mod Steps
pub mod Visit
pub mod Forged
pub mod LogoutAnswer
pub mod Isolation
use pullfrog_azure.Prelude.{ℕ, String, Bool, Option}
use pullfrog_azure.Api.AuthCookies.{Response}
use pullfrog_azure.Api.Dependencies.{get_authentication_service}
use pullfrog_azure.Api.Health.{liveness, readiness}
use pullfrog_azure.Api.Routes.{login, callback, me, logout_route, authentication_error_handler}
use pullfrog_azure.Auth.Domain.{Callback}
use pullfrog_azure.Config.{Settings, secure_cookies}
use pullfrog_azure.Exec.{Exec, return, lift, answer, ◌>>=◌}
use pullfrog_azure.Models.{Database}
use pullfrog_azure.Outcome.{Result}
use pullfrog_azure.Platform.{Platform}
use pullfrog_azure.Providers.EntraClient.{ClientOptions, entra_provider, as_oidc}
use pullfrog_azure.Providers.EntraOidc.{Msal}
use pullfrog_azure.Services.Authentication.{AuthenticationService}
use pullfrog_azure.Services.Readiness.{Query}

-- what a browser or a probe asks for, with the cookies and headers that the route reads
pub data Request : Type 0 where
  -- `GET /api/v1/auth/login`
  get_login : (return_to : Option String) → Request
  -- `GET /api/v1/auth/callback`
  get_callback : (attempt_cookie : Option String) → Callback → Request
  -- `GET /api/v1/auth/me`
  get_me : (session_cookie : Option String) → Request
  -- `POST /api/v1/auth/logout`
  post_logout : (session_cookie csrf_cookie csrf_header : Option String) → Request
  -- `GET /api/v1/health/live` and `GET /api/v1/health/ready`
  get_live get_ready : Request

-- What a request draws from its surroundings: the clock, in microseconds, again when a logout runs,
-- and as `int(time.time())`, the random tokens, the fresh row id, the rows that other transactions
-- hold, what MSAL comes back with, and the answer of the database to `SELECT 1`.
pub record Surroundings : Type 0 where
  pub now : ℕ
  pub now_after : ℕ
  pub now_seconds : ℕ
  pub attempt_token : String
  pub session_token : String
  pub csrf_token : String
  pub id : ℕ
  pub locked : ℕ → Bool
  pub msal : ClientOptions → Msal
  pub query : Query

module _ (p : Platform) (settings : Settings) where
  abbrev pub service_of : Surroundings → Result AuthenticationService
  service_of w =
      get_authentication_service settings
        (as_oidc p (entra_provider p w.msal settings) w.now_seconds)

  abbrev pub dispatch : Surroundings → Request → Exec Database Response
  dispatch w (get_login return_to) = do
    service ← lift (service_of w)
    login p (secure_cookies settings) service return_to w.now w.attempt_token w.id w.locked
  dispatch w (get_callback attempt_cookie query) = do
    service ← lift (service_of w)
    callback p (secure_cookies settings) service attempt_cookie query w.now w.session_token
        w.csrf_token w.id
  dispatch w (get_me session_cookie) = do
    service ← lift (service_of w)
    me p (secure_cookies settings) service session_cookie w.now
  dispatch w (post_logout session_cookie csrf_cookie csrf_header) = do
    service ← lift (service_of w)
    logout_route p (secure_cookies settings) service session_cookie csrf_cookie csrf_header w.now
        w.now_after
  dispatch w get_live = return liveness
  dispatch w get_ready = lift (readiness w.query)

  unfoldable pub handle : Surroundings → Request → Exec Database Response
  handle w request =
      answer (authentication_error_handler (secure_cookies settings)) (dispatch w request)
