-- ===== src/Services/Authentication/Established.antt =====
-- What an authorized sign-in establishes: its authorizer and its session.
use pullfrog_azure.Prelude.{ℕ, String, ◌≡◌, ◌+◌, none, List, ◌∷◌, ◌++◌}
use pullfrog_azure.Auth.Domain.{AdminIdentityRef, ValidatedOidcClaims}
use pullfrog_azure.Auth.Policy.Selection.{IsAuthorizer}
use pullfrog_azure.Models.{Database}
use pullfrog_azure.Outcome.{ok}
use pullfrog_azure.Platform.{Platform}
use pullfrog_azure.Repositories.AdminIdentities.Laws.{all_refs}
use pullfrog_azure.Repositories.AdminSessions.{by_digest, by_id}
use pullfrog_azure.Repositories.LoginAttempts.{LoginAttemptRecord}
use pullfrog_azure.Repositories.Table.{find_by}
use pullfrog_azure.Services.Authentication.Authorization.{IsGroupSet}
use pullfrog_azure.Services.Authentication.{
  AuthenticationService, LoginCompletion, require_claim_uuid, short_name,
}

-- The session that an authorized sign-in establishes from the stored attempt.
pub record IsEstablished (p : Platform) (service : AuthenticationService)
    (attempt : LoginAttemptRecord) (claims : ValidatedOidcClaims) (now : ℕ) (session csrf : String)
    (id : ℕ) (db : Database) (c : LoginCompletion) (db' : Database) : Type 0 where
  pub user_object_id : ℕ
  pub groups : List ℕ
  pub authorizer : AdminIdentityRef
  -- the token names the service's tenant and a user
  pub tenant : require_claim_uuid p claims.tenant_id ≡ ok service.tenant_id
  pub user : require_claim_uuid p claims.user_object_id ≡ ok user_object_id
  -- the authorizer is the one of this user and the groups that count, over all sources
  pub group_set : IsGroupSet p claims groups
  pub authorized :
      IsAuthorizer
        (service.configured_identities ++ all_refs db)
        service.tenant_id
        user_object_id
        groups
        authorizer
  -- one session is added, under the digests of the two tokens, with a fresh digest and id
  pub added : db' ≡ record db {
    admin_session =
        record {
          id = id;
          token_digest = p.sha256 session;
          csrf_token_digest = p.sha256 csrf;
          tenant_id = service.tenant_id;
          user_object_id = user_object_id;
          authorizing_kind = authorizer.kind;
          authorizing_object_id = authorizer.object_id;
          display_name = short_name p service claims.display_name;
          created_at = now;
          last_seen_at = now;
          idle_expires_at = now + service.idle_lifetime;
          absolute_expires_at = now + service.absolute_lifetime;
          revoked_at = none;
        }
        ∷ db.admin_session;
  }
  pub fresh :
      (find_by by_digest (p.sha256 session) db.admin_session ≡ none)
      × (find_by by_id id db.admin_session ≡ none)
  pub return_to : c.return_to ≡ attempt.return_to
  pub tokens : (c.session_token ≡ session) × (c.csrf_token ≡ csrf)
  pub admin : c.admin ≡ record {
    session_id = id;
    display_name = short_name p service claims.display_name;
    idle_expires_at = now + service.idle_lifetime;
    absolute_expires_at = now + service.absolute_lifetime;
    csrf_token_digest = p.sha256 csrf;
  }
