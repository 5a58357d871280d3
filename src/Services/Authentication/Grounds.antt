-- ===== src/Services/Authentication/Grounds.antt =====
-- What a login needs of the claims and of the tables.
use pullfrog_azure.Prelude.{ℕ, ◌≡◌, none, List, ◌++◌}
use pullfrog_azure.Auth.Domain.{AdminIdentityRef, ValidatedOidcClaims}
use pullfrog_azure.Auth.Policy.Selection.{IsAuthorizer}
use pullfrog_azure.Models.{Database}
use pullfrog_azure.Outcome.{ok}
use pullfrog_azure.Platform.{Platform}
use pullfrog_azure.Repositories.AdminIdentities.Laws.{all_refs}
use pullfrog_azure.Repositories.AdminSessions
use pullfrog_azure.Repositories.AdminSessions.{
  AdminSessionRecord, NewAdminSession, session_record, new_row, by_id, get_active_and_touch,
}
use pullfrog_azure.Repositories.Table.{find_by}
use pullfrog_azure.Services.Authentication.Authorization.{IsGroupSet}
use pullfrog_azure.Services.Authentication.{AuthenticationService, require_claim_uuid}

-- The claims name the service's tenant and a user whom the configuration authorizes.
pub record IsAuthorized (p : Platform) (service : AuthenticationService)
    (claims : ValidatedOidcClaims) (db : Database) : Type 0 where
  pub user_object_id : ℕ
  pub groups : List ℕ
  pub authorizer : AdminIdentityRef
  pub tenant : require_claim_uuid p claims.tenant_id ≡ ok service.tenant_id
  pub user : require_claim_uuid p claims.user_object_id ≡ ok user_object_id
  pub group_set : IsGroupSet p claims groups
  pub authorized :
      IsAuthorizer
        (service.configured_identities ++ all_refs db)
        service.tenant_id
        user_object_id
        groups
        authorizer

-- The fresh row id and the digest of the fresh token are not taken.
pub record IsFresh (id digest : ℕ) (db : Database) : Type 0 where
  pub digest_free : find_by AdminSessions.by_digest digest db.admin_session ≡ none
  pub id_free : find_by by_id id db.admin_session ≡ none

-- Both depend on their own tables alone.
pub IsAuthorized-of :
    (p : Platform) (service : AuthenticationService) (claims : ValidatedOidcClaims)
    (db db' : Database)
    → db'.admin_identity ≡ db.admin_identity
    → IsAuthorized p service claims db
    → IsAuthorized p service claims db'
IsAuthorized-of p service claims db db' same a = record {
  user_object_id = a.user_object_id;
  groups = a.groups;
  authorizer = a.authorizer;
  tenant = a.tenant;
  user = a.user;
  group_set = a.group_set;
  authorized = rw same a.authorized;
}

pub IsFresh-of :
    (id digest : ℕ) (db db' : Database)
    → db'.admin_session ≡ db.admin_session
    → IsFresh id digest db
    → IsFresh id digest db'
IsFresh-of id digest db db' same f = record {
  digest_free = rw same f.digest_free;
  id_free = rw same f.id_free;
}
