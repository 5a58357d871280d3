-- ===== src/App/Forged.antt =====
-- A logout that does not present the session's CSRF proof.
use pullfrog_azure.Prelude.{
  ℕ, ◌+◌, ◌≤◌, String, ◌≡◌, ◌⊎◌, inl, inr, false, true, Option, some, ◌++◌, ap, sym, ◌∙◌, is_empty,
}
use pullfrog_azure.Api.Dependencies.{minutes, configured_identities}
use pullfrog_azure.Api.Dependencies.Service.{compose}
use pullfrog_azure.Api.Routes.{error_response}
use pullfrog_azure.App.Served.{IsSound}
use pullfrog_azure.App.Steps.{admin_response, get_me_ok, post_logout_raise}
use pullfrog_azure.App.{get_me, post_logout, Surroundings, handle}
use pullfrog_azure.Auth.Domain.{authentication_error, csrf_failed, type_error}
use pullfrog_azure.Auth.Policy.{contains_ref}
use pullfrog_azure.Auth.Tokens.Csrf.{IsProof}
use pullfrog_azure.Config.{Settings, RawSettings, load, secure_cookies}
use pullfrog_azure.Config.Accepted.{load-eq-ok_iff}
use pullfrog_azure.Models.{Database, AdminSession}
use pullfrog_azure.Outcome.{ok, raise}
use pullfrog_azure.Platform.{Platform}
use pullfrog_azure.Providers.EntraClient.{entra_provider, as_oidc}
use pullfrog_azure.Repositories.AdminIdentities.Laws.{all_refs}
use pullfrog_azure.Repositories.AdminSessions.{by_digest}
use pullfrog_azure.Repositories.AdminSessions.Laws.{IsActive}
use pullfrog_azure.Repositories.Table.{find_by}
use pullfrog_azure.Services.Authentication.Csrf.{require_csrf-eq-ok_iff}
use pullfrog_azure.Services.Authentication.Live.{
  IsLive, IsLive-of, IsLive-admitted, IsLive-kept, looked_up,
}
use pullfrog_azure.Services.Authentication.Logout.{row_authorizer}
use pullfrog_azure.Services.Authentication.{AuthenticationService, AuthenticatedAdmin, require_csrf}

module _ (p : Platform) (settings : Settings) where
  -- The logout is refused, and the session's cookie still shows its administrator.
  pub record IsRefused (w later : Surroundings) (token : String)
      (csrf_cookie csrf_header : Option String) (db : Database) : Type 0 where
    pub db' : Database
    pub refused :
        (handle p settings w (post_logout (some token) csrf_cookie csrf_header) db
          ≡ (ok (error_response (secure_cookies settings) csrf_failed), db'))
        ⊎ (handle p settings w (post_logout (some token) csrf_cookie csrf_header) db
            ≡ (raise type_error, db'))
    pub admin : AuthenticatedAdmin
    pub still :
        (handle p settings later (get_me (some token)) db').0 ≡ ok (admin_response p settings admin)

  not_proved :
      (service : AuthenticationService) (admin : AuthenticatedAdmin)
      (csrf_cookie csrf_header : Option String)
      → ¬ IsProof p csrf_cookie csrf_header admin.csrf_token_digest
      → (require_csrf p service admin csrf_cookie csrf_header
          ≡ raise (authentication_error csrf_failed))
        ⊎ (require_csrf p service admin csrf_cookie csrf_header ≡ raise type_error)
  not_proved service admin csrf_cookie csrf_header forged =
      let (proof, outcome) = require_csrf-eq-ok_iff p service admin csrf_cookie csrf_header in
      elim outcome [ inl passed ↦ absurd (forged (proof.0 passed)) | inr failed ↦ failed ]

  module _ (w later : Surroundings) (token csrf : String) (csrf_cookie csrf_header : Option String)
      (row : AdminSession) (db : Database) where
    -- With settings that loaded and sound tables: a logout with the cookie of an active session, its
    -- token not empty, its authorizer configured in the settings or the database and its idle expiry
    -- at most the idle lifetime after it was last seen, is refused where cookie and header do not both
    -- present the session's ASCII CSRF token, or one with its digest: with `csrf_failed`, or with the
    -- `TypeError` of the comparison. The session goes on: until its expiry before the logout, a
    -- request for the administrator with its cookie, by whatever provider and clock, is answered with
    -- 200.
    pub post_logout-IsRefused :
        (read : String → Option ℕ) (raw : RawSettings)
        → load read raw ≡ ok settings
        → IsSound db
        → is_empty token ≡ false
        → find_by by_digest (p.sha256 token) db.admin_session ≡ some row
        → row.csrf_token_digest ≡ p.sha256 csrf
        → ¬ IsProof p csrf_cookie csrf_header (p.sha256 csrf)
        → contains_ref (configured_identities settings ++ all_refs db) (record {
          tenant_id = row.tenant_id;
          kind = row.authorizing_kind;
          object_id = row.authorizing_object_id;
        })
          ≡ true
        → row.idle_expires_at ≤ row.last_seen_at + minutes settings.admin_session_idle_minutes
        → IsActive w.now row
        → IsActive later.now row
        → IsRefused w later token csrf_cookie csrf_header db
    post_logout-IsRefused read raw loaded sound given stored own forged known fits active still =
        let secure = ((load-eq-ok_iff read raw settings).0 loaded).secure in
        let (service, made, composed) =
          compose settings (as_oidc p (entra_provider p w.msal settings) w.now_seconds) secure in
        let (service', made', composed') =
          compose settings (as_oidc p (entra_provider p later.msal settings) later.now_seconds)
            secure in
        let l : IsLive p token csrf service row db = record {
          stored = stored;
          proof = own;
          known =
              (λ i.
                contains_ref (composed.identities i ++ all_refs db) (row_authorizer p service row))
              ∙ known;
        } in
        let (admin, current, digest) =
          IsLive-admitted p token csrf service w.now row db l active given in
        let (row', l', active') =
          IsLive-kept p token csrf service w.now row db l active given later.now sound.sessions
            (rw composed.lifetimes.1 fits) still in
        let (admin', current', _) =
          IsLive-admitted p token csrf service' later.now row' _
            (IsLive-of p token csrf service service' row' _
              (composed'.identities ∙ sym composed.identities) l')
            active' given in
        record {
          db' = looked_up p token csrf service w.now row db l active given;
          refused =
              elim (not_proved service admin csrf_cookie csrf_header
                (λ q. forged (rw digest at q))) [
                  | inl e ↦ inl (
                      post_logout_raise p settings w service made db _ (some token) csrf_cookie
                        csrf_header admin _ current e)
                  | inr e ↦ inr (
                      post_logout_raise p settings w service made db _ (some token) csrf_cookie
                        csrf_header admin _ current e)
                ];
          admin = admin';
          still =
              ap (λ x. x.0)
                (get_me_ok p settings later service' made' _ _ (some token) admin' current');
        }
