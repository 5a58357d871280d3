-- ===== src/App/Visit/Stay.antt =====
-- The rest of a visit, after the callback.
use pullfrog_azure.Prelude.{
  ℕ, ◌+◌, ◌<◌, ◌≤◌, String, ◌≡◌, false, Option, some, ap, sym, ◌∙◌, is_empty, arith,
}
use pullfrog_azure.Api.AuthCookies.Jar.{Jar, receive_all}
use pullfrog_azure.Api.Dependencies.{minutes, hours}
use pullfrog_azure.Api.Dependencies.Service.{IsComposed, compose}
use pullfrog_azure.App.Served.{IsSound, handle-IsSound}
use pullfrog_azure.App.{get_me, Surroundings, service_of, handle}
use pullfrog_azure.Auth.Domain.{Callback}
use pullfrog_azure.Auth.Tokens.Csrf.{IsAscii}
use pullfrog_azure.Config.{Settings, RawSettings, load}
use pullfrog_azure.Config.Accepted.{load-eq-ok_iff}
use pullfrog_azure.Config.Security.{IsSecure}
use pullfrog_azure.Models.{Database}
use pullfrog_azure.Outcome.{ok, ok_inj}
use pullfrog_azure.Platform.{Platform}
use pullfrog_azure.Providers.EntraClient.{entra_provider, as_oidc}
use pullfrog_azure.Repositories.AdminSessions.Laws.{IsActive}
use pullfrog_azure.Services.Authentication.{AuthenticationService}
use pullfrog_azure.Services.Authentication.Live.{IsLive-of}
use pullfrog_azure.App.Isolation.{IsOtherSession, Elsewhere}
use pullfrog_azure.App.Visit.Between.{Elsewhere-IsSound, Elsewhere-IsLive}
use pullfrog_azure.App.Visit.SignIn.{LeadsIn}
use pullfrog_azure.App.Visit.Session.{IsWelcome, me-IsWelcome, LogsOut, logout-LogsOut}

-- What follows a callback that has signed in: the administrator is shown, and his logout ends the
-- session, each request with the cookies that the one before left.
pub record Stays (p : Platform) (settings : Settings) (w₂ w₃ w₄ : Surroundings) (query : Callback)
    (path : String) (db₂ db₃ db₄ : Database) (jar : Jar) (service₂ : AuthenticationService)
    (s : LeadsIn p settings w₂ query db₂ jar service₂ path) : Type 0 where
  pub service₃ : AuthenticationService
  pub welcome :
      IsWelcome p settings w₂.session_token w₂.csrf_token w₃ db₃
        (receive_all s.response.cookies jar)
        service₃
        w₄.now
  pub ended :
      LogsOut p settings w₂.session_token w₂.csrf_token w₄ db₄
        (receive_all welcome.response.cookies (receive_all s.response.cookies jar))

module _ (p : Platform) (settings : Settings) (read : String → Option ℕ) (raw : RawSettings)
    (loaded : load read raw ≡ ok settings) where
  pub secure : IsSecure settings
  secure = ((load-eq-ok_iff read raw settings).0 loaded).secure

  pub service_of-IsComposed :
      (w : Surroundings) (service : AuthenticationService)
      → service_of p settings w ≡ ok service
      → IsComposed settings (as_oidc p (entra_provider p w.msal settings) w.now_seconds) service
  service_of-IsComposed w service made =
      let (service', made', composed) =
        compose settings (as_oidc p (entra_provider p w.msal settings) w.now_seconds) secure in
      let same : service' ≡ service = ok_inj (sym made' ∙ made) in rw same at composed

  -- The rest of a visit, once the callback has signed in.
  module _ (w₂ w₃ w₄ : Surroundings) (query : Callback) (path : String) (db₂ db₃ db₄ : Database)
      (jar : Jar) (service : AuthenticationService) where
    pub leads_on :
        IsComposed settings (as_oidc p (entra_provider p w₂.msal settings) w₂.now_seconds) service
        → (s : LeadsIn p settings w₂ query db₂ jar service path) → IsSound s.db'
        → is_empty w₂.session_token ≡ false
        → IsAscii w₂.csrf_token
        → IsActive w₃.now s.row
        → IsActive w₄.now s.row
        → Elsewhere p settings (IsOtherSession p (p.sha256 w₂.session_token)) s.db' db₃
        → Elsewhere p settings
            (IsOtherSession p (p.sha256 w₂.session_token))
            (handle p settings w₃ (get_me (some w₂.session_token)) db₃).1
            db₄
        → Stays p settings w₂ w₃ w₄ query path db₂ db₃ db₄ jar service s
    leads_on composed s sound given ascii active₃ active₄ others₂ others₃ =
        let (service₃, made₃, composed₃) =
          compose settings (as_oidc p (entra_provider p w₃.msal settings) w₃.now_seconds) secure in
        let (service₄, made₄, composed₄) =
          compose settings (as_oidc p (entra_provider p w₄.msal settings) w₄.now_seconds) secure in
        let sound₃ = Elsewhere-IsSound p settings read raw loaded others₂ sound in
        let live₃ =
          Elsewhere-IsLive p settings read raw loaded w₂.session_token w₂.csrf_token service₃ s.row
            others₂ sound
            (IsLive-of p w₂.session_token w₂.csrf_token service service₃ s.row s.db'
              (composed₃.identities ∙ sym composed.identities) s.live) in
        let fits : s.row.idle_expires_at ≤ s.row.last_seen_at + service₃.idle_lifetime =
          rw (s.idle, s.seen, composed.lifetimes.1, composed₃.lifetimes.1) (omega arith) in
        let welcome =
          me-IsWelcome p settings w₂.session_token w₂.csrf_token w₃ db₃
            (receive_all s.response.cookies jar) service₃ s.row made₃ s.session given live₃ active₃
            w₄.now sound₃.sessions fits active₄ in
        let after₃ =
          ap (λ o. (handle p settings w₃ (get_me o) db₃).1) (sym s.session)
          ∙ ap (λ x. x.1) welcome.run in
        let sound₄ =
          handle-IsSound p read raw settings loaded w₃ _ db₃ welcome.db' welcome.response sound₃
            welcome.run in
        let live₄ =
          Elsewhere-IsLive p settings read raw loaded w₂.session_token w₂.csrf_token service₄
            welcome.row (rw after₃ at others₃) sound₄
            (IsLive-of p w₂.session_token w₂.csrf_token service₃ service₄ welcome.row welcome.db'
              (composed₄.identities ∙ sym composed₃.identities) welcome.live) in
        record {
          service₃ = service₃;
          welcome = welcome;
          ended =
              logout-LogsOut p settings w₂.session_token w₂.csrf_token w₄ db₄
                (receive_all welcome.response.cookies (receive_all s.response.cookies jar)) service₄
                welcome.row made₄ (rw welcome.no_cookies s.session) given live₄ welcome.active
                (rw welcome.no_cookies s.csrf) ascii;
        }

    pub LeadsIn-IsActive :
        (later : ℕ)
        → IsComposed settings (as_oidc p (entra_provider p w₂.msal settings) w₂.now_seconds) service
        → (s : LeadsIn p settings w₂ query db₂ jar service path)
        → later < w₂.now + minutes settings.admin_session_idle_minutes
        → later < w₂.now + hours settings.admin_session_absolute_hours
        → IsActive later s.row
    LeadsIn-IsActive later composed s idle over = record {
      unrevoked = s.unrevoked;
      not_idle = rw (s.idle, composed.lifetimes.1) idle;
      not_over = rw (s.over, composed.lifetimes.2) over;
    }
