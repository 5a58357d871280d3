-- ===== src/Api/Dependencies.antt =====
-- api/dependencies.py: the service that a request composes from the settings, and the two ways in
-- which a route requires an administrator.
pub mod Service
use pullfrog_azure.Prelude.{ℕ, ◌*◌, String, Option, List, ◌++◌, map}
use pullfrog_azure.Auth.Domain.{AdminIdentityRef, AdminIdentityKind, user, group, OidcProvider}
use pullfrog_azure.Config.{Settings, callback_url}
use pullfrog_azure.Exec.{Exec, return, lift, ◌>>=◌, ◌>>◌}
use pullfrog_azure.Models.{Database}
use pullfrog_azure.Outcome.{Result}
use pullfrog_azure.Platform.{Platform}
use pullfrog_azure.Services.Authentication.{
  AuthenticationService, new_service, AuthenticatedAdmin, current_admin, require_csrf,
}

abbrev pub configured_ref : ℕ → AdminIdentityKind → ℕ → AdminIdentityRef
configured_ref tenant_id kind object_id = record {
  tenant_id = tenant_id;
  kind = kind;
  object_id = object_id;
}

-- `timedelta(minutes=n)` and `timedelta(hours=n)`, in microseconds
abbrev pub minutes : ℕ → ℕ
minutes n = n * 60000000

abbrev pub hours : ℕ → ℕ
hours n = n * 3600000000

abbrev pub configured_identities : Settings → List AdminIdentityRef
configured_identities settings =
    map (configured_ref settings.entra_tenant_id user) settings.admin_user_object_ids
    ++ map (configured_ref settings.entra_tenant_id group) settings.admin_group_object_ids

-- The touch interval is the default of the service, five minutes.
unfoldable pub get_authentication_service : Settings → OidcProvider → Result AuthenticationService
get_authentication_service settings oidc =
    new_service oidc (configured_identities settings) (callback_url settings)
      (minutes settings.oidc_login_attempt_minutes) (minutes settings.admin_session_idle_minutes)
      (hours settings.admin_session_absolute_hours) (minutes 5)

module _ (p : Platform) (service : AuthenticationService) where
  abbrev pub require_admin :
      (session_token : Option String) (now : ℕ) → Exec Database AuthenticatedAdmin
  require_admin session_token now = current_admin p service session_token now

  unfoldable pub require_admin_mutation :
      (session_token csrf_cookie csrf_header : Option String) (now : ℕ)
      → Exec Database AuthenticatedAdmin
  require_admin_mutation session_token csrf_cookie csrf_header now = do
    admin ← require_admin session_token now
    lift (require_csrf p service admin csrf_cookie csrf_header)
    return admin
