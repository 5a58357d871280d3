-- ===== src/App/LogoutAnswer.antt =====
-- Which of its answers a logout with an active session gets.
use pullfrog_azure.Prelude.{
  ℕ, String, ◌≡◌, ◌⊎◌, inl, inr, false, true, Option, some, ◌++◌, ap, ◌∙◌, is_empty,
}
use pullfrog_azure.Api.Dependencies.{configured_identities}
use pullfrog_azure.Api.Dependencies.Service.{compose}
use pullfrog_azure.Api.Routes.{error_response}
use pullfrog_azure.App.Steps.{logged_out_response, post_logout_ok, post_logout_raise}
use pullfrog_azure.App.{post_logout, Surroundings, handle}
use pullfrog_azure.Auth.Domain.{csrf_failed, type_error}
use pullfrog_azure.Auth.Policy.{contains_ref}
use pullfrog_azure.Auth.Tokens.Csrf.{IsProof, IsForeign}
use pullfrog_azure.Config.{Settings, RawSettings, load, secure_cookies}
use pullfrog_azure.Config.Accepted.{load-eq-ok_iff}
use pullfrog_azure.Models.{Database, AdminSession}
use pullfrog_azure.Outcome.{ok, raise}
use pullfrog_azure.Platform.{Platform}
use pullfrog_azure.Providers.EntraClient.{entra_provider, as_oidc}
use pullfrog_azure.Repositories.AdminIdentities.Laws.{all_refs}
use pullfrog_azure.Repositories.AdminSessions.{by_digest}
use pullfrog_azure.Repositories.AdminSessions.Laws.{IsActive}
use pullfrog_azure.Repositories.Table.{find_by}
use pullfrog_azure.Services.Authentication.Csrf.{require_csrf-cases}
use pullfrog_azure.Services.Authentication.Logout.{row_authorizer}
use pullfrog_azure.Services.Authentication.Progress.{current_admin_complete}
use pullfrog_azure.Services.Authentication.{authenticated_admin}

module _ (p : Platform) (settings : Settings) (w : Surroundings) (token : String)
    (csrf_cookie csrf_header : Option String) (row : AdminSession) (db : Database) where
  -- With settings that loaded, a logout with the cookie of an active session, its token not empty and
  -- its authorizer configured in the settings or the database, has one of three answers: 204, with
  -- cookie and header presenting one ASCII token of the session's CSRF digest; the `TypeError` of the
  -- comparison, with both of them given and one not ASCII; and `csrf_failed`, with neither the one nor
  -- the other.
  pub post_logout-cases :
      (read : String → Option ℕ) (raw : RawSettings)
      → load read raw ≡ ok settings
      → is_empty token ≡ false
      → find_by by_digest (p.sha256 token) db.admin_session ≡ some row
      → contains_ref (configured_identities settings ++ all_refs db) (record {
        tenant_id = row.tenant_id;
        kind = row.authorizing_kind;
        object_id = row.authorizing_object_id;
      })
        ≡ true
      → IsActive w.now row
      → (IsProof p csrf_cookie csrf_header row.csrf_token_digest
          × ((handle p settings w (post_logout (some token) csrf_cookie csrf_header) db).0
              ≡ ok (logged_out_response p settings)))
        ⊎ (IsForeign csrf_cookie csrf_header
            × ((handle p settings w (post_logout (some token) csrf_cookie csrf_header) db).0
                ≡ raise type_error))
        ⊎ ((¬ IsProof p csrf_cookie csrf_header row.csrf_token_digest)
            × (¬ IsForeign csrf_cookie csrf_header)
            × ((handle p settings w (post_logout (some token) csrf_cookie csrf_header) db).0
                ≡ ok (error_response (secure_cookies settings) csrf_failed)))
  post_logout-cases read raw loaded given stored known active =
      let secure = ((load-eq-ok_iff read raw settings).0 loaded).secure in
      let (service, made, composed) =
        compose settings (as_oidc p (entra_provider p w.msal settings) w.now_seconds) secure in
      let (r, read, current) =
        current_admin_complete p service token w.now db row given stored active (
          (λ i. contains_ref (composed.identities i ++ all_refs db) (row_authorizer p service row))
          ∙ known) in
      let admin = authenticated_admin r in
      elim (require_csrf-cases p service admin csrf_cookie csrf_header) [
        | inl (proof, e) ↦ inl (
          rw read.csrf_token_digest at proof,
          ap (λ x. x.0)
              (post_logout_ok p settings w service made db _ (some token) csrf_cookie csrf_header
                admin current e),
        )
        | inr (inl (foreign, e)) ↦ inr (
            inl (
              foreign,
              ap (λ x. x.0)
                  (post_logout_raise p settings w service made db _ (some token) csrf_cookie
                    csrf_header admin _ current e),
            ))
        | inr (inr (forged, plain, e)) ↦ inr (
            inr (
              (λ q. forged (rw read.csrf_token_digest q)),
              plain,
              ap (λ x. x.0)
                  (post_logout_raise p settings w service made db _ (some token) csrf_cookie
                    csrf_header admin _ current e),
            ))
      ]
