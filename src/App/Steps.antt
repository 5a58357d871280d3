-- ===== src/App/Steps.antt =====
-- Each route of the authentication router through the application, once its service has succeeded.
use pullfrog_azure.Prelude.{String, ◌≡◌, refl, Option, ap, ◌∙◌}
use pullfrog_azure.Api.AuthCookies.{
  Response, admin_session, no_body, set_attempt_cookie, clear_admin_cookies,
}
use pullfrog_azure.Api.Dependencies.{require_admin_mutation}
use pullfrog_azure.Api.Routes.{
  login, callback, me, logout_route, callback_success, callback_response,
  authentication_error_handler, redirect, reply,
}
use pullfrog_azure.App.{
  Request, get_login, get_callback, get_me, post_logout, Surroundings, service_of, dispatch, handle,
}
use pullfrog_azure.Auth.Domain.{PyException, Callback}
use pullfrog_azure.Config.{Settings, secure_cookies}
use pullfrog_azure.Exec.{lift, >>=-of-ok, >>=-of-raise}
use pullfrog_azure.Models.{Database}
use pullfrog_azure.Outcome.{Result, ok, raise}
use pullfrog_azure.Platform.{Platform}
use pullfrog_azure.Repositories.AdminSessions.{revoke}
use pullfrog_azure.Services.Authentication.{
  AuthenticationService, AuthenticatedAdmin, LoginStart, LoginCompletion, begin_login,
  complete_login, current_admin, require_csrf, logout,
}

module _ (p : Platform) (settings : Settings) where
  handle_ok :
      (w : Surroundings) (request : Request) (db db' : Database) (response : Response)
      → dispatch p settings w request db ≡ (ok response, db')
      → handle p settings w request db ≡ (ok response, db')
  unfolding handle
  handle_ok w request db db' response h =
      ap
        (λ (x : Result Response × Database).
          (authentication_error_handler (secure_cookies settings) x.0, x.1))
        h

  abbrev pub started_response : LoginStart → Response
  started_response s =
      set_attempt_cookie (redirect s.authorization_uri 302) s.attempt_token s.attempt_expires_at
        (secure_cookies settings)

  abbrev pub logged_out_response : Response
  logged_out_response = clear_admin_cookies (reply 204 no_body) (secure_cookies settings)

  abbrev pub admin_response : AuthenticatedAdmin → Response
  admin_response a =
      reply 200 (admin_session a.display_name a.idle_expires_at a.absolute_expires_at)

  module _ (w : Surroundings) (service : AuthenticationService)
      (made : service_of p settings w ≡ ok service) (db db' : Database) where
    pub get_login_ok :
        (return_to : Option String) (s : LoginStart)
        → begin_login p service return_to w.now w.attempt_token w.id w.locked db ≡ (ok s, db')
        → handle p settings w (get_login return_to) db ≡ (ok (started_response s), db')
    unfolding login
    get_login_ok return_to s h = handle_ok w (get_login return_to) db db' (started_response s) (
        >>=-of-ok (lift (service_of p settings w)) _ (λ i. (made i, db))
        ∙ >>=-of-ok (begin_login p service return_to w.now w.attempt_token w.id w.locked) _ h)

    pub get_callback_ok :
        (attempt_cookie : Option String) (query : Callback) (c : LoginCompletion)
        → complete_login p service attempt_cookie query w.now w.session_token w.csrf_token w.id db
          ≡ (ok c, db')
        → handle p settings w (get_callback attempt_cookie query) db
          ≡ (ok (callback_success (secure_cookies settings) c), db')
    unfolding callback
    get_callback_ok attempt_cookie query c h =
        handle_ok w (get_callback attempt_cookie query) db db'
          (callback_success (secure_cookies settings) c)
          (>>=-of-ok (lift (service_of p settings w)) _ (λ i. (made i, db))
            ∙ ap
                (λ (x : Result LoginCompletion × Database).
                  (callback_response (secure_cookies settings) x.0, x.1))
                h)

    pub get_me_ok :
        (session_cookie : Option String) (a : AuthenticatedAdmin)
        → current_admin p service session_cookie w.now db ≡ (ok a, db')
        → handle p settings w (get_me session_cookie) db ≡ (ok (admin_response a), db')
    unfolding me
    get_me_ok session_cookie a h = handle_ok w (get_me session_cookie) db db' (admin_response a) (
        >>=-of-ok (lift (service_of p settings w)) _ (λ i. (made i, db))
        ∙ >>=-of-ok (current_admin p service session_cookie w.now) _ h)

    pub post_logout_ok :
        (session_cookie csrf_cookie csrf_header : Option String) (a : AuthenticatedAdmin)
        → current_admin p service session_cookie w.now db ≡ (ok a, db')
        → require_csrf p service a csrf_cookie csrf_header ≡ ok tt
        → handle p settings w (post_logout session_cookie csrf_cookie csrf_header) db
          ≡ (ok logged_out_response, (logout p service a w.now_after db').1)
    unfolding logout_route require_admin_mutation logout revoke
    post_logout_ok session_cookie csrf_cookie csrf_header a h proved =
        handle_ok w (post_logout session_cookie csrf_cookie csrf_header) db _ logged_out_response (
          >>=-of-ok (lift (service_of p settings w)) _ (λ i. (made i, db))
          ∙ >>=-of-ok
              (require_admin_mutation p service session_cookie csrf_cookie csrf_header w.now) _
              (>>=-of-ok (current_admin p service session_cookie w.now) _ h
                ∙ >>=-of-ok (lift (require_csrf p service a csrf_cookie csrf_header)) _
                    (λ i. (proved i, db')))
          ∙ refl)

    -- A logout whose proof fails.
    pub post_logout_raise :
        (session_cookie csrf_cookie csrf_header : Option String) (a : AuthenticatedAdmin)
        (e : PyException)
        → current_admin p service session_cookie w.now db ≡ (ok a, db')
        → require_csrf p service a csrf_cookie csrf_header ≡ raise e
        → handle p settings w (post_logout session_cookie csrf_cookie csrf_header) db
          ≡ (authentication_error_handler (secure_cookies settings) (raise e), db')
    unfolding handle logout_route require_admin_mutation
    post_logout_raise session_cookie csrf_cookie csrf_header a e h failed =
        ap
          (λ (x : Result Response × Database).
            (authentication_error_handler (secure_cookies settings) x.0, x.1))
          (>>=-of-ok (lift (service_of p settings w)) _ (λ i. (made i, db))
            ∙ >>=-of-raise
                (require_admin_mutation p service session_cookie csrf_cookie csrf_header w.now) _
                (>>=-of-ok (current_admin p service session_cookie w.now) _ h
                  ∙ >>=-of-raise (lift (require_csrf p service a csrf_cookie csrf_header)) _
                      (λ i. (failed i, db'))))
