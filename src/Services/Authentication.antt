-- ===== src/Services/Authentication.antt =====
-- services/authentication.py: the login and session operations over the repositories and an identity
-- provider. The random tokens, the fresh row ids and the clock are arguments of the operations.
pub mod Values
pub mod Authorization
pub mod Login
pub mod Begun
pub mod Live
pub mod Isolation
pub mod Completion
pub mod Establish
pub mod Established
pub mod SignIn
pub mod Session
pub mod Logout
pub mod Grounds
pub mod Progress
pub mod Resumed
pub mod Setup
pub mod Transitions
pub mod Csrf
use pullfrog_azure.Prelude.{
  ℕ, ◌+◌, String, Bool, true, false, not, ◌&&◌, Option, none, some, List, [], ◌∷◌, ◌++◌, ◌==◌,
  if◌then◌else◌, is_empty, all, text_take,
}
use pullfrog_azure.Auth.Domain.{
  AdminIdentityRef, AuthErrorCode, invalid_login_attempt, identity_provider_unavailable,
  identity_not_authorized, group_claim_overage, invalid_session, csrf_failed, PyException,
  authentication_error, oidc_invalid_response, oidc_provider_unavailable, value_error, Callback,
  OidcProvider, OidcAuthorization, ValidatedOidcClaims,
}
use pullfrog_azure.Auth.Policy.{validate_return_to, select_authorizer, contains_ref}
use pullfrog_azure.Auth.Tokens.{digest_token, csrf_matches}
use pullfrog_azure.Exec.{Exec, return, throw, lift, ◌>>=◌, ◌>>◌}
use pullfrog_azure.Models.{Database}
use pullfrog_azure.Outcome.{Result, ok, raise}
use pullfrog_azure.Platform.{Platform}
use pullfrog_azure.Repositories.AdminIdentities.{find_matches, is_configured}
use pullfrog_azure.Repositories.AdminSessions
use pullfrog_azure.Repositories.AdminSessions.{
  AdminSessionRecord, NewAdminSession, get_active_and_touch, revoke,
}
use pullfrog_azure.Repositories.LoginAttempts
use pullfrog_azure.Repositories.LoginAttempts.{LoginAttemptRecord, consume}
pub use pullfrog_azure.Services.Authentication.Values.{
  AuthenticatedAdmin, LoginStart, LoginCompletion, authenticated_admin, auth_raise,
  AuthenticationService, map_provider_error,
}
unfoldable pub use pullfrog_azure.Services.Authentication.Values.{
  require_claim_uuid, parse_all, require_group_ids, new_service,
}

module _ (p : Platform) (service : AuthenticationService) where
  unfoldable pub begin_login :
      (return_to : Option String) (now : ℕ) (attempt_token : String) (id : ℕ) (locked : ℕ → Bool)
      → Exec Database LoginStart
  begin_login return_to now attempt_token id locked = do
    validated ← lift (validate_return_to p return_to)
    authorization ← lift (map_provider_error (service.oidc.begin service.callback_url))
    LoginAttempts.create locked id (digest_token p attempt_token) authorization.flow validated now
        (now + service.attempt_lifetime)
    return (record {
      authorization_uri = authorization.authorization_uri;
      attempt_token = attempt_token;
      attempt_expires_at = now + service.attempt_lifetime;
    })

  -- The selection of `complete_login`: with an overage the groups are unknown, and the database is
  -- asked only if the settings do not authorize the user; else all sources and groups count.
  pub resolve_authorizer :
      (tenant_id user_object_id : ℕ) → ValidatedOidcClaims → Exec Database (Option AdminIdentityRef)
  unfolding require_group_ids
  resolve_authorizer tenant_id user_object_id claims =
      let authorizer =
        select_authorizer tenant_id user_object_id [] service.configured_identities in
      if claims.group_overage
      then elim authorizer [
        | some r ↦ return (some r)
        | none ↦ do
          database_identities ← find_matches tenant_id user_object_id []
          return (select_authorizer tenant_id user_object_id [] database_identities)
      ]
      else do
        group_object_ids ← lift (require_group_ids p claims)
        database_identities ← find_matches tenant_id user_object_id group_object_ids
        return (
            select_authorizer tenant_id user_object_id group_object_ids
              (service.configured_identities ++ database_identities))

  abbrev pub require_authorizer : Bool → Option AdminIdentityRef → Exec Database AdminIdentityRef
  require_authorizer group_overage none = throw (
      authentication_error (if group_overage then group_claim_overage else identity_not_authorized))
  require_authorizer group_overage (some authorizer) = return authorizer

  -- `claims.display_name[:256]`
  abbrev pub short_name : Option String → Option String
  short_name none = none
  short_name (some name) = some (text_take 256 name)

  abbrev pub new_session :
      (tenant_id user_object_id : ℕ)
      → AdminIdentityRef
      → ValidatedOidcClaims
      → (now : ℕ) → (session_token csrf_token : String) → NewAdminSession
  new_session tenant_id user_object_id authorizer claims now session_token csrf_token = record {
    token_digest = digest_token p session_token;
    csrf_token_digest = digest_token p csrf_token;
    tenant_id = tenant_id;
    user_object_id = user_object_id;
    authorizer = authorizer;
    display_name = short_name claims.display_name;
    created_at = now;
    idle_expires_at = now + service.idle_lifetime;
    absolute_expires_at = now + service.absolute_lifetime;
  }

  -- the rest of `complete_login`, from the claims on
  pub establish :
      LoginAttemptRecord
      → ValidatedOidcClaims
      → (now : ℕ) (session_token csrf_token : String) (id : ℕ) → Exec Database LoginCompletion
  unfolding resolve_authorizer
  establish attempt claims now session_token csrf_token id = do
    tenant_id ← lift (require_claim_uuid p claims.tenant_id)
    (if tenant_id == service.tenant_id
        then return tt
        else throw (authentication_error identity_not_authorized))
    user_object_id ← lift (require_claim_uuid p claims.user_object_id)
    resolved ← resolve_authorizer tenant_id user_object_id claims
    authorizer ← require_authorizer claims.group_overage resolved
    session ←
        AdminSessions.create id
          (new_session tenant_id user_object_id authorizer claims now session_token csrf_token)
    return (record {
      return_to = attempt.return_to;
      session_token = session_token;
      csrf_token = csrf_token;
      admin = authenticated_admin session;
    })

  abbrev pub present_attempt : Option LoginAttemptRecord → Exec Database LoginAttemptRecord
  present_attempt none = throw (authentication_error invalid_login_attempt)
  present_attempt (some attempt) = return attempt

  -- a cookie value that is neither missing nor empty
  abbrev pub present_token : AuthErrorCode → Option String → Exec Database String
  present_token code none = throw (authentication_error code)
  present_token code (some token) =
      if is_empty token then throw (authentication_error code) else return token

  unfoldable pub complete_login :
      (attempt_token : Option String)
      → Callback
      → (now : ℕ) (session_token csrf_token : String) (id : ℕ) → Exec Database LoginCompletion
  unfolding establish
  complete_login attempt_token callback now session_token csrf_token id = do
    token ← present_token invalid_login_attempt attempt_token
    consumed ← consume (digest_token p token) now
    attempt ← present_attempt consumed
    claims ← lift (map_provider_error (service.oidc.exchange attempt.flow callback))
    establish attempt claims now session_token csrf_token id

  abbrev pub present_session : Option AdminSessionRecord → Exec Database AdminSessionRecord
  present_session none = throw (authentication_error invalid_session)
  present_session (some session) = return session

  -- the settings first, then the database
  abbrev pub still_configured : AdminIdentityRef → Exec Database Bool
  still_configured authorizer =
      if contains_ref service.configured_identities authorizer
      then return true
      else is_configured authorizer

  abbrev pub admit : (now : ℕ) → AdminSessionRecord → Bool → Exec Database AuthenticatedAdmin
  admit now session true = return (authenticated_admin session)
  admit now session false = do
    revoke session.session_id now
    throw (authentication_error invalid_session)

  unfoldable pub current_admin :
      (session_token : Option String) (now : ℕ) → Exec Database AuthenticatedAdmin
  current_admin session_token now = do
    token ← present_token invalid_session session_token
    found ←
        get_active_and_touch (digest_token p token) now service.idle_lifetime service.touch_interval
    session ← present_session found
    is_authorized ← still_configured session.authorizer
    admit now session is_authorized

  abbrev csrf_result : Result Bool → Result (Unit {0})
  csrf_result (ok true) = ok tt
  csrf_result (ok false) = auth_raise csrf_failed
  csrf_result (raise e) = raise e

  unfoldable pub require_csrf :
      AuthenticatedAdmin → (cookie_token header_token : Option String) → Result (Unit {0})
  require_csrf admin cookie_token header_token =
      csrf_result (csrf_matches p cookie_token header_token admin.csrf_token_digest)

  unfoldable pub logout : AuthenticatedAdmin → (now : ℕ) → Exec Database (Unit {0})
  logout admin now = revoke admin.session_id now
