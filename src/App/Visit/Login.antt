-- ===== src/App/Visit/Login.antt =====
-- A login through the application that starts: what the browser and the database hold then.
use mathlib.Core.Option
use pullfrog_azure.Prelude.{◌+◌, String, ◌≡◌, refl, Option, some, ◌∙◌, ap}
use pullfrog_azure.Api.AuthCookies.{
  Response, set_attempt_cookie, oidc_attempt_cookie, callback_path,
}
use pullfrog_azure.Api.AuthCookies.Jar.{Jar, Cookie, receive_all, held, set_attempt_cookie_lem}
use pullfrog_azure.Api.Dependencies.{minutes}
use pullfrog_azure.Api.Dependencies.Service.{compose}
use pullfrog_azure.Api.Routes.{redirect}
use pullfrog_azure.App.Steps.{started_response, get_login_ok}
use pullfrog_azure.App.{get_login, Surroundings, handle}
use pullfrog_azure.Auth.Domain.{OidcAuthorization}
use pullfrog_azure.Auth.Policy.{validate_return_to}
use pullfrog_azure.Config.{Settings, callback_url, secure_cookies}
use pullfrog_azure.Config.Security.{IsSecure}
use pullfrog_azure.Models.{Database, OidcLoginAttempt}
use pullfrog_azure.Outcome.{ok}
use pullfrog_azure.Platform.{Platform}
use pullfrog_azure.Providers.EntraClient.{entra_provider, as_oidc}
use pullfrog_azure.Providers.EntraOidc.{begin}
use pullfrog_azure.Repositories.LoginAttempts.{by_digest}
use pullfrog_azure.Repositories.LoginAttempts.Laws.{new_attempt}
use pullfrog_azure.Repositories.Table.{find_by}
use pullfrog_azure.Services.Authentication.{LoginStart}
use pullfrog_azure.Services.Authentication.Begun.{
  IsFreshAttempt, start, with_attempt, begin_login_complete, begun-found,
}

module _ (p : Platform) (settings : Settings) (w : Surroundings) (return_to : Option String)
    (path : String) (a : OidcAuthorization) (db : Database) (jar : Jar) where
  -- the attempt of this login
  abbrev pub attempt_row : OidcLoginAttempt
  attempt_row =
      new_attempt w.id (p.sha256 w.attempt_token) a.flow path w.now
        (w.now + minutes settings.oidc_login_attempt_minutes)

  -- The browser is sent to the authorization, with the cookie of the stored attempt.
  pub record LeadsOut : Type 0 where
    pub response : Response
    pub db' : Database
    pub run : handle p settings w (get_login return_to) db ≡ (ok response, db')
    pub status : response.status_code ≡ 302
    pub location : response.location ≡ some a.authorization_uri
    pub cookie :
        held (receive_all response.cookies jar) oidc_attempt_cookie callback_path
        ≡ some w.attempt_token
    pub stored :
        find_by by_digest (p.sha256 w.attempt_token) db'.oidc_login_attempt ≡ some attempt_row
    pub sessions : db'.admin_session ≡ db.admin_session
    pub identities : db'.admin_identity ≡ db.admin_identity

  started_cookie :
      (s : LoginStart)
      → s.attempt_token ≡ w.attempt_token
      → held
          (receive_all (started_response p settings s).cookies jar)
          oidc_attempt_cookie
          callback_path
        ≡ some w.attempt_token
  started_cookie s same =
      ap (λ o. Option.map (λ (c : Cookie). c.value) o)
        (set_attempt_cookie_lem (redirect s.authorization_uri 302) (secure_cookies settings) jar
          oidc_attempt_cookie callback_path s.attempt_token s.attempt_expires_at)
      ∙ ap some same

  pub login-LeadsOut :
      IsSecure settings
      → validate_return_to p return_to ≡ ok path
      → begin (entra_provider p w.msal settings) (callback_url settings) ≡ ok a
      → IsFreshAttempt w.locked w.now w.id (p.sha256 w.attempt_token) db
      → LeadsOut
  unfolding set_attempt_cookie
  login-LeadsOut secure valid given fresh =
      let (service, made, composed) =
        compose settings (as_oidc p (entra_provider p w.msal settings) w.now_seconds) secure in
      record {
        response =
            started_response p settings
              (start p service return_to w.now w.attempt_token w.id w.locked db path a);
        db' = with_attempt p service return_to w.now w.attempt_token w.id w.locked db path a;
        run =
            get_login_ok p settings w service made db _ return_to
              (start p service return_to w.now w.attempt_token w.id w.locked db path a)
              (begin_login_complete p service return_to w.now w.attempt_token w.id w.locked db path
                a valid ((λ i. (composed.provider i).begin (composed.returns_to i)) ∙ given) fresh);
        status = refl;
        location = refl;
        cookie =
            started_cookie (start p service return_to w.now w.attempt_token w.id w.locked db path a)
              refl;
        stored =
            begun-found p service return_to w.now w.attempt_token w.id w.locked db path a ∙ (λ i.
              some (
                new_attempt w.id (p.sha256 w.attempt_token) a.flow path w.now
                  (w.now + composed.lifetimes.0 i)));
        sessions = refl;
        identities = refl;
      }
