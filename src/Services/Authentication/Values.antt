-- ===== src/Services/Authentication/Values.antt =====
-- services/authentication.py: what the operations take and return, the readers of claims, and the
-- constructor of the service.
use pullfrog_azure.Prelude.{ℕ, String, Option, none, some, List, [], ◌∷◌, ◌==◌, if◌then◌else◌, all}
use pullfrog_azure.Auth.Domain.{
  AdminIdentityRef, AuthErrorCode, invalid_login_attempt, identity_provider_unavailable,
  group_claim_overage, authentication_error, oidc_invalid_response, oidc_provider_unavailable,
  value_error, OidcProvider, ValidatedOidcClaims,
}
use pullfrog_azure.Outcome.{Result, ok, raise}
use pullfrog_azure.Platform.{Platform}
use pullfrog_azure.Repositories.AdminSessions.{AdminSessionRecord}

pub record AuthenticatedAdmin : Type 0 where
  pub session_id : ℕ
  pub display_name : Option String
  pub idle_expires_at : ℕ
  pub absolute_expires_at : ℕ
  pub csrf_token_digest : ℕ

pub record LoginStart : Type 0 where
  pub authorization_uri : String
  pub attempt_token : String
  pub attempt_expires_at : ℕ

pub record LoginCompletion : Type 0 where
  pub return_to : String
  pub session_token : String
  pub csrf_token : String
  pub admin : AuthenticatedAdmin

abbrev pub authenticated_admin : AdminSessionRecord → AuthenticatedAdmin
authenticated_admin r = record {
  session_id = r.session_id;
  display_name = r.display_name;
  idle_expires_at = r.idle_expires_at;
  absolute_expires_at = r.absolute_expires_at;
  csrf_token_digest = r.csrf_token_digest;
}

abbrev pub auth_raise {ℓ} : {A : Type ℓ} → AuthErrorCode → Result A
auth_raise code = raise (authentication_error code)

unfoldable pub require_claim_uuid : Platform → Option String → Result ℕ
require_claim_uuid p none = auth_raise invalid_login_attempt
require_claim_uuid p (some value) = elim (p.parse_uuid value) [
  | none ↦ auth_raise invalid_login_attempt
  | some u ↦ ok u
]

-- `UUID(group_id) for group_id in …`; `none` where one raises `ValueError`
unfoldable pub parse_all : Platform → List String → Option (List ℕ)
parse_all p [] = some []
parse_all p (s ∷ rest) = elim (p.parse_uuid s) [
  | none ↦ none
  | some u ↦ elim (parse_all p rest) [ none ↦ none | some us ↦ some (u ∷ us) ]
]

unfoldable pub require_group_ids : Platform → ValidatedOidcClaims → Result (List ℕ)
require_group_ids p claims =
    if claims.group_overage
    then auth_raise group_claim_overage
    else elim (parse_all p claims.group_object_ids) [
      | none ↦ auth_raise invalid_login_attempt
      | some groups ↦ ok groups
    ]

pub record AuthenticationService : Type 0 where
  pub oidc : OidcProvider
  pub configured_identities : List AdminIdentityRef
  pub tenant_id : ℕ
  pub callback_url : String
  pub attempt_lifetime : ℕ
  pub idle_lifetime : ℕ
  pub absolute_lifetime : ℕ
  pub touch_interval : ℕ

-- the only tenant of the identities
unfoldable pub only_tenant : List AdminIdentityRef → Option ℕ
only_tenant [] = none
only_tenant (i ∷ rest) =
    if all (λ j. j.tenant_id == i.tenant_id) rest then some i.tenant_id else none

-- `AuthenticationService(…)`
unfoldable pub new_service :
    (oidc : OidcProvider) (configured_identities : List AdminIdentityRef) (callback_url : String)
    (attempt_lifetime idle_lifetime absolute_lifetime touch_interval : ℕ)
    → Result AuthenticationService
unfolding only_tenant
new_service oidc configured_identities callback_url attempt_lifetime idle_lifetime absolute_lifetime
      touch_interval =
    elim (only_tenant configured_identities) [
      | none ↦ raise value_error
      | some tenant_id ↦ ok (record {
        oidc = oidc;
        configured_identities = configured_identities;
        tenant_id = tenant_id;
        callback_url = callback_url;
        attempt_lifetime = attempt_lifetime;
        idle_lifetime = idle_lifetime;
        absolute_lifetime = absolute_lifetime;
        touch_interval = touch_interval;
      })
    ]

-- The handlers around both calls of the provider.
abbrev pub map_provider_error {ℓ} : {A : Type ℓ} → Result A → Result A
map_provider_error (ok a) = ok a
map_provider_error (raise oidc_invalid_response) = auth_raise invalid_login_attempt
map_provider_error (raise oidc_provider_unavailable) = auth_raise identity_provider_unavailable
map_provider_error (raise e) = raise e
