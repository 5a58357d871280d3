-- ===== src/App/SignIn.antt =====
-- A provider's callback through the application: the settings, the composed service, the adapter over
-- MSAL, the two tables and the answer of the route together.
use pullfrog_azure.Prelude.{ℕ, String, ◌≡◌, refl, Option, arith, ap, sym, ◌∙◌}
use pullfrog_azure.Api.AuthCookies.{Response}
use pullfrog_azure.Api.Dependencies.Service.{IsComposed, compose}
use pullfrog_azure.Api.Routes.{
  callback, callback_response, callback_success, callback_failure, authentication_error_handler,
}
use pullfrog_azure.App.Served.{IsSound}
use pullfrog_azure.App.{get_callback, Surroundings, handle}
use pullfrog_azure.Auth.Domain.{
  PyException, authentication_error, oidc_invalid_response, oidc_provider_unavailable,
  database_unavailable, value_error, type_error, timeout_error, os_error, runtime_error,
  integrity_error, data_error, AuthErrorCode, Callback, OidcProvider,
}
use pullfrog_azure.Auth.Policy.ReturnTo.{IsLocalPath}
use pullfrog_azure.Config.{Settings, RawSettings, load, secure_cookies}
use pullfrog_azure.Config.Accepted.{load-eq-ok_iff}
use pullfrog_azure.Exec.{Exec}
use pullfrog_azure.Models.{Database}
use pullfrog_azure.Outcome.{Result, ok, raise}
use pullfrog_azure.Platform.{Platform}
use pullfrog_azure.Providers.EntraClient.{entra_provider, as_oidc}
use pullfrog_azure.Providers.EntraOidc.Exchange.{IsRedeemed, exchange_sound}
use pullfrog_azure.Repositories.LoginAttempts.{by_digest}
use pullfrog_azure.Repositories.Table.{find_by-In}
use pullfrog_azure.Services.Authentication.{
  AuthenticationService, LoginCompletion, complete_login, map_provider_error,
}
use pullfrog_azure.Services.Authentication.SignIn.{
  IsSignedIn, complete_login_sound, complete_login-eq-raise,
}

map_provider_error-eq-ok :
    {A : Type 0} (r : Result A) (a : A) → map_provider_error r ≡ ok a → r ≡ ok a
map_provider_error-eq-ok (ok x) a h = h
map_provider_error-eq-ok (raise e) a h = ground (arith, h)

module _ (p : Platform) (settings : Settings) (w : Surroundings) (attempt_cookie : Option String)
    (query : Callback) where
  abbrev oidc : OidcProvider
  oidc = as_oidc p (entra_provider p w.msal settings) w.now_seconds

  abbrev login_of : AuthenticationService → Exec Database LoginCompletion
  login_of service =
      complete_login p service attempt_cookie query w.now w.session_token w.csrf_token w.id

  -- How a callback ends.
  pub data IsConcluded (db : Database) : Result Response × Database → Type 0 where
    -- The service of the settings signed the administrator in, with an ID token that MSAL obtained as
    -- the configured client and that is valid for the configured tenant, client and nonce; he is led to
    -- a local path, with his cookies set and the attempt's cleared.
    signed_in :
        {db' : Database} (service : AuthenticationService) (c : LoginCompletion)
        → IsComposed settings oidc service
        → (s : IsSignedIn p service attempt_cookie query w.now w.session_token w.csrf_token w.id db
            c db')
        → IsRedeemed p
            (entra_provider p w.msal settings)
            w.now_seconds
            s.attempt.flow
            query
            s.claims
        → IsLocalPath c.return_to
        → IsConcluded db (ok (callback_success (secure_cookies settings) c), db')
    -- He is led to the login page with the error's code, and the attempt's cookie is cleared.
    refused :
        {db' : Database} (code : AuthErrorCode)
        → db'.admin_session ≡ db.admin_session
        → IsConcluded db (ok (callback_failure (secure_cookies settings) code), db')
    -- Another exception, which no handler takes.
    failed :
        {db' : Database} (e : PyException)
        → ((code : AuthErrorCode) → e ≡ authentication_error code → ⊥)
        → db'.admin_session ≡ db.admin_session
        → IsConcluded db (raise e, db')

  not_completed :
      {db db' : Database} (e : PyException)
      → db'.admin_session ≡ db.admin_session
      → IsConcluded db (
        authentication_error_handler
            (secure_cookies settings)
            (callback_response (secure_cookies settings) (raise e)),
        db',
      )
  not_completed (authentication_error code) kept = refused code kept
  not_completed oidc_invalid_response kept = failed _ (λ code h. cc h) kept
  not_completed oidc_provider_unavailable kept = failed _ (λ code h. cc h) kept
  not_completed database_unavailable kept = failed _ (λ code h. cc h) kept
  not_completed value_error kept = failed _ (λ code h. cc h) kept
  not_completed type_error kept = failed _ (λ code h. cc h) kept
  not_completed timeout_error kept = failed _ (λ code h. cc h) kept
  not_completed os_error kept = failed _ (λ code h. cc h) kept
  not_completed runtime_error kept = failed _ (λ code h. cc h) kept
  not_completed integrity_error kept = failed _ (λ code h. cc h) kept
  not_completed data_error kept = failed _ (λ code h. cc h) kept

  module _ (service : AuthenticationService) (composed : IsComposed settings oidc service)
      (db : Database) (sound : IsSound db) where
    completed :
        (c : LoginCompletion) (db' : Database)
        → login_of service db ≡ (ok c, db')
        → IsConcluded db (ok (callback_success (secure_cookies settings) c), db')
    completed c db' h = signed_in service c composed s redeemed local
      where
        s :
            IsSignedIn p service attempt_cookie query w.now w.session_token w.csrf_token w.id db c
              db'
        s =
            complete_login_sound p service attempt_cookie query w.now w.session_token w.csrf_token
              w.id db db' c h

        redeemed :
            IsRedeemed p
              (entra_provider p w.msal settings)
              w.now_seconds
              s.attempt.flow
              query
              s.claims
        redeemed =
            exchange_sound p (entra_provider p w.msal settings) w.now_seconds s.attempt.flow query
              s.claims
              (ap (λ (o : OidcProvider). o.exchange s.attempt.flow query) (sym composed.provider)
                ∙ map_provider_error-eq-ok (service.oidc.exchange s.attempt.flow query) s.claims
                    s.redeemed)

        local : IsLocalPath c.return_to
        local =
            rw (s.established.return_to, s.read)
              (sound.attempts.local s.row
                (find_by-In by_digest (p.sha256 s.token) db.oidc_login_attempt s.row s.stored))

    outcome :
        (x : Result LoginCompletion × Database)
        → login_of service db ≡ x
        → IsConcluded db (
          authentication_error_handler
              (secure_cookies settings)
              (callback_response (secure_cookies settings) x.0),
          x.1,
        )
    outcome (ok c, db') h = completed c db' h
    outcome (raise e, db') h = not_completed e (
        complete_login-eq-raise p service attempt_cookie query w.now w.session_token w.csrf_token
          w.id db db' e h)

  pub callback-IsConcluded :
      (read : String → Option ℕ) (raw : RawSettings) (db : Database)
      → load read raw ≡ ok settings
      → IsSound db
      → IsConcluded db (handle p settings w (get_callback attempt_cookie query) db)
  unfolding handle callback
  callback-IsConcluded read raw db loaded sound =
      let (service, made, composed) =
        compose settings oidc ((load-eq-ok_iff read raw settings).0 loaded).secure in
      rw made (outcome service composed db sound (login_of service db) refl)
