-- ===== src/Api/Routes.antt =====
-- api/routes/authentication.py and app.py: the four routes over the service, and the handler of
-- authentication errors that the application registers.
use pullfrog_azure.Prelude.{ℕ, String, Bool, Option, none, some, [], text_append}
use pullfrog_azure.Api.AuthCookies.{
  Body, no_body, auth_error, admin_session, Response, set_attempt_cookie, clear_attempt_cookie,
  set_admin_cookies, clear_admin_cookies,
}
use pullfrog_azure.Api.Dependencies.{require_admin, require_admin_mutation}
use pullfrog_azure.Auth.Domain.{
  AuthErrorCode, invalid_login_attempt, identity_provider_unavailable, identity_not_authorized,
  group_claim_overage, invalid_session, csrf_failed, authentication_error, Callback,
}
use pullfrog_azure.Exec.{Exec, return, answer, ◌>>=◌, ◌>>◌}
use pullfrog_azure.Models.{Database}
use pullfrog_azure.Outcome.{Result, ok, raise}
use pullfrog_azure.Platform.{Platform}
use pullfrog_azure.Services.Authentication.{
  AuthenticationService, LoginCompletion, begin_login, complete_login, logout,
}

-- `AUTH_ERROR_STATUS`
abbrev pub auth_error_status : AuthErrorCode → ℕ
auth_error_status invalid_login_attempt = 400
auth_error_status identity_not_authorized = 403
auth_error_status group_claim_overage = 403
auth_error_status invalid_session = 401
auth_error_status csrf_failed = 403
auth_error_status identity_provider_unavailable = 503

-- `code.value`
abbrev pub auth_error_value : AuthErrorCode → String
auth_error_value invalid_login_attempt = "invalid_login_attempt"
auth_error_value identity_provider_unavailable = "identity_provider_unavailable"
auth_error_value identity_not_authorized = "identity_not_authorized"
auth_error_value group_claim_overage = "group_claim_overage"
auth_error_value invalid_session = "invalid_session"
auth_error_value csrf_failed = "csrf_failed"

abbrev pub redirect : (url : String) (status_code : ℕ) → Response
redirect url status_code = record {
  status_code = status_code;
  location = some url;
  body = no_body;
  cookies = [];
}

abbrev pub reply : (status_code : ℕ) → Body → Response
reply status_code body = record {
  status_code = status_code;
  location = none;
  body = body;
  cookies = [];
}

-- The response to an authentication error; a session that is not valid loses its cookies.
abbrev pub error_response : Bool → AuthErrorCode → Response
error_response secure invalid_session =
    clear_admin_cookies (reply (auth_error_status invalid_session) (auth_error invalid_session))
      secure
error_response secure code = reply (auth_error_status code) (auth_error code)

-- Any other exception is raised again.
abbrev pub authentication_error_handler : Bool → Result Response → Result Response
authentication_error_handler secure (ok response) = ok response
authentication_error_handler secure (raise (authentication_error code)) =
    ok (error_response secure code)
authentication_error_handler secure (raise e) = raise e

abbrev pub callback_success : Bool → LoginCompletion → Response
callback_success secure completed =
    clear_attempt_cookie
      (set_admin_cookies (redirect completed.return_to 303) completed.session_token
        completed.csrf_token completed.admin.absolute_expires_at secure)
      secure

abbrev pub callback_failure : Bool → AuthErrorCode → Response
callback_failure secure code =
    clear_attempt_cookie (redirect (text_append "/?auth_error=" (auth_error_value code)) 303) secure

-- the handler of the callback's own `try`
abbrev pub callback_response : Bool → Result LoginCompletion → Result Response
callback_response secure (ok completed) = ok (callback_success secure completed)
callback_response secure (raise (authentication_error code)) = ok (callback_failure secure code)
callback_response secure (raise e) = raise e

-- `secure` is the setting `secure_cookies`.
module _ (p : Platform) (secure : Bool) (service : AuthenticationService) where
  unfoldable pub login :
      (return_to : Option String) (now : ℕ) (attempt_token : String) (id : ℕ) (locked : ℕ → Bool)
      → Exec Database Response
  login return_to now attempt_token id locked = do
    started ← begin_login p service return_to now attempt_token id locked
    return (
        set_attempt_cookie (redirect started.authorization_uri 302) started.attempt_token
          started.attempt_expires_at secure)

  unfoldable pub callback :
      (attempt_cookie : Option String)
      → Callback
      → (now : ℕ) (session_token csrf_token : String) (id : ℕ) → Exec Database Response
  callback attempt_cookie query now session_token csrf_token id =
      answer (callback_response secure)
        (complete_login p service attempt_cookie query now session_token csrf_token id)

  unfoldable pub me : (session_cookie : Option String) (now : ℕ) → Exec Database Response
  me session_cookie now = do
    admin ← require_admin p service session_cookie now
    return (
        reply 200
          (admin_session admin.display_name admin.idle_expires_at admin.absolute_expires_at))

  -- The dependency reads the clock, and then the route reads it again.
  unfoldable pub logout_route :
      (session_cookie csrf_cookie csrf_header : Option String) (now now_after : ℕ)
      → Exec Database Response
  logout_route session_cookie csrf_cookie csrf_header now now_after = do
    admin ← require_admin_mutation p service session_cookie csrf_cookie csrf_header now
    logout p service admin now_after
    return (clear_admin_cookies (reply 204 no_body) secure)
