-- ===== src/App/Visit.antt =====
-- A whole visit of an administrator through the application, from the login to the logout, with the
-- cookies that his browser holds at each request.
pub mod Between
pub mod Login
pub mod SignIn
pub mod Session
pub mod Stay
use pullfrog_azure.Prelude.{
  ℕ, ◌+◌, ◌<◌, ◌≤◌, String, ◌≡◌, refl, false, Option, some, ap, sym, ◌∙◌, is_empty, arith,
}
use pullfrog_azure.Api.AuthCookies.{Response}
use pullfrog_azure.Api.AuthCookies.Jar.{Jar, receive_all}
use pullfrog_azure.Api.Dependencies.{minutes, hours}
use pullfrog_azure.Api.Dependencies.Service.{IsComposed, compose}
use pullfrog_azure.App.Served.{IsSound, none_yet, after_request, served-IsSound, handle-IsSound}
use pullfrog_azure.App.{Request, get_login, get_callback, get_me, Surroundings, service_of, handle}
use pullfrog_azure.Auth.Domain.{Callback, OidcAuthorization, ValidatedOidcClaims}
use pullfrog_azure.Auth.Policy.{validate_return_to}
use pullfrog_azure.Auth.Tokens.Csrf.{IsAscii}
use pullfrog_azure.Config.{Settings, RawSettings, load, callback_url}
use pullfrog_azure.Config.Accepted.{load-eq-ok_iff}
use pullfrog_azure.Config.Security.{IsSecure}
use pullfrog_azure.Exec.{after_parts}
use pullfrog_azure.Models.{Database, AdminSession}
use pullfrog_azure.Outcome.{ok, ok_inj}
use pullfrog_azure.Platform.{Platform}
use pullfrog_azure.Providers.EntraClient.{entra_provider, as_oidc}
use pullfrog_azure.Providers.EntraOidc.{begin, exchange}
use pullfrog_azure.Repositories.AdminSessions.Laws.{IsActive}
use pullfrog_azure.Services.Authentication.{AuthenticationService}
use pullfrog_azure.Services.Authentication.Begun.{IsFreshAttempt}
use pullfrog_azure.Services.Authentication.Live.{IsLive-of}
use pullfrog_azure.Services.Authentication.Grounds.{
  IsAuthorized, IsFresh, IsAuthorized-of, IsFresh-of,
}
use pullfrog_azure.App.Isolation.{IsOtherSession, IsOtherLogin, Elsewhere, Elsewhere-attempt_row}
use pullfrog_azure.App.Visit.Between.{Elsewhere-IsSound, Elsewhere-identities, Elsewhere-IsLive}
use pullfrog_azure.App.Visit.Login.{attempt_row, LeadsOut, login-LeadsOut}
use pullfrog_azure.App.Visit.SignIn.{LeadsIn, callback-LeadsIn}
use pullfrog_azure.App.Visit.Session.{IsWelcome, me-IsWelcome, LogsOut, logout-LogsOut}
use pullfrog_azure.App.Visit.Stay.{Stays, secure, service_of-IsComposed, leads_on, LeadsIn-IsActive}

-- Four answered requests, on the four databases that they meet: the login sends the browser to the
-- authorization and the callback to the return path, and the rest follows.
pub record IsVisit (p : Platform) (settings : Settings) (w₁ w₂ w₃ w₄ : Surroundings)
    (return_to : Option String) (path : String) (a : OidcAuthorization) (query : Callback)
    (db₁ db₂ db₃ db₄ : Database) (jar : Jar) (service₂ : AuthenticationService) : Type 0 where
  pub started : LeadsOut p settings w₁ return_to path a db₁ jar
  pub signed_in :
      LeadsIn p settings w₂ query db₂ (receive_all started.response.cookies jar) service₂ path
  pub stays :
      Stays p settings w₂ w₃ w₄ query path db₂ db₃ db₄
        (receive_all started.response.cookies jar)
        service₂
        signed_in

module _ (p : Platform) (settings : Settings) (read : String → Option ℕ) (raw : RawSettings)
    (loaded : load read raw ≡ ok settings) where
  module _ (w₁ w₂ w₃ w₄ : Surroundings) (return_to : Option String) (path : String)
      (a : OidcAuthorization) (query : Callback) (claims : ValidatedOidcClaims)
      (service : AuthenticationService) (db₁ db₂ db₃ db₄ : Database) (jar : Jar) where
    -- With settings that loaded, sound tables and tokens as the code makes them, not empty and the
    -- CSRF token ASCII, free row ids and free digests: where the return path is valid, the provider
    -- gives an authorization and later redeems its flow, before the attempt expires, for claims of
    -- the tenant and of a user whom the settings or the database authorize, and two more requests
    -- come before both expiries of the session, then the whole visit succeeds, whatever the browser
    -- held before, whatever provider, clock and row locks the later requests meet, and whatever
    -- requests of others come in between: before the callback, such as present no attempt cookie of
    -- its digest and start no login after its expiry, and then such as present no session cookie of
    -- the session's digest. The login is answered with 302 to the authorization, the callback with
    -- 303 to the return path, the request for the administrator with 200 and the logout with 204,
    -- each with nothing but the cookies that the one before left; the callback leaves the browser
    -- without the attempt cookie, and the logout without both of the session's.
    pub login_to_logout-IsVisit :
        IsSound db₁
        → validate_return_to p return_to ≡ ok path
        → begin (entra_provider p w₁.msal settings) (callback_url settings) ≡ ok a
        → IsFreshAttempt w₁.locked w₁.now w₁.id (p.sha256 w₁.attempt_token) db₁
        → is_empty w₁.attempt_token ≡ false
        → Elsewhere p settings
            (IsOtherLogin p
              (p.sha256 w₁.attempt_token)
              (attempt_row p settings w₁ return_to path a db₁ jar))
            (handle p settings w₁ (get_login return_to) db₁).1
            db₂
        → w₂.now < w₁.now + minutes settings.oidc_login_attempt_minutes
        → exchange p (entra_provider p w₂.msal settings) w₂.now_seconds a.flow query ≡ ok claims
        → service_of p settings w₂ ≡ ok service
        → IsAuthorized p service claims db₁
        → IsFresh w₂.id (p.sha256 w₂.session_token) db₂
        → is_empty w₂.session_token ≡ false
        → IsAscii w₂.csrf_token
        → Elsewhere p settings
            (IsOtherSession p (p.sha256 w₂.session_token))
            (handle p settings w₂ (get_callback (some w₁.attempt_token) query) db₂).1
            db₃
        → w₃.now < w₂.now + minutes settings.admin_session_idle_minutes
        → w₃.now < w₂.now + hours settings.admin_session_absolute_hours
        → Elsewhere p settings
            (IsOtherSession p (p.sha256 w₂.session_token))
            (handle p settings w₃ (get_me (some w₂.session_token)) db₃).1
            db₄
        → w₄.now < w₂.now + minutes settings.admin_session_idle_minutes
        → w₄.now < w₂.now + hours settings.admin_session_absolute_hours
        → IsVisit p settings w₁ w₂ w₃ w₄ return_to path a query db₁ db₂ db₃ db₄ jar service
    login_to_logout-IsVisit sound valid given fresh token₁ others₁ early redeemed made authorized
          free token₂ ascii others₂ idle₃ over₃ others₃ idle₄ over₄ =
        let started =
          login-LeadsOut p settings w₁ return_to path a db₁ jar (secure p settings read raw loaded)
            valid given fresh in
        let jar₁ : Jar = receive_all started.response.cookies jar in
        let composed = service_of-IsComposed p settings read raw loaded w₂ service made in
        let sound₁ =
          handle-IsSound p read raw settings loaded w₁ (get_login return_to) db₁ started.db'
            started.response sound started.run in
        let between = rw (ap (λ x. x.1) started.run) at others₁ in
        let attempt = attempt_row p settings w₁ return_to path a db₁ jar in
        let pending =
          Elsewhere-attempt_row p settings (p.sha256 w₁.attempt_token) attempt started.db' db₂
            sound₁ started.stored between in
        let known = Elsewhere-identities p settings read raw loaded between ∙ started.identities in
        let signed_in =
          callback-LeadsIn p settings w₂ query db₂ jar₁ service w₁.attempt_token attempt claims
            (IsAuthorized-of p service claims db₁ db₂ known authorized) made started.cookie token₁
            pending early ((λ i. (composed.provider i).exchange a.flow query) ∙ redeemed) free in
        let sound₂ =
          handle-IsSound p read raw settings loaded w₂ _ db₂ signed_in.db' signed_in.response
            (Elsewhere-IsSound p settings read raw loaded between sound₁) signed_in.run in
        let after₂ =
          ap (λ o. (handle p settings w₂ (get_callback o query) db₂).1) (sym started.cookie)
          ∙ ap (λ x. x.1) signed_in.run in
        let stays =
          leads_on p settings read raw loaded w₂ w₃ w₄ query path db₂ db₃ db₄ jar₁ service composed
            signed_in sound₂ token₂ ascii
            (LeadsIn-IsActive p settings read raw loaded w₂ w₃ w₄ query path db₂ db₃ db₄ jar₁
              service w₃.now composed signed_in idle₃ over₃)
            (LeadsIn-IsActive p settings read raw loaded w₂ w₃ w₄ query path db₂ db₃ db₄ jar₁
              service w₄.now composed signed_in idle₄ over₄)
            (rw after₂ at others₂) others₃ in
        record { started = started; signed_in = signed_in; stays = stays }
