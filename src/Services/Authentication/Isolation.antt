-- ===== src/Services/Authentication/Isolation.antt =====
-- What the operations of the service keep of the tables, where the calls of the repositories keep it.
pub mod Frames
use pullfrog_azure.Prelude.{
  ℕ, ◌+◌, arith, String, ◌≡◌, refl, ◌≢◌, Bool, true, false, Option, none, some, is_empty, ◌==◌, ap,
}
use pullfrog_azure.Auth.Domain.{
  AdminIdentityRef, AuthErrorCode, authentication_error, invalid_session, invalid_login_attempt,
  identity_not_authorized, Callback, ValidatedOidcClaims,
}
use pullfrog_azure.Auth.Policy.{contains_ref, validate_return_to}
use pullfrog_azure.Exec.{lift}
use pullfrog_azure.Models.{AdminSession, Database}
use pullfrog_azure.Platform.{Platform}
use pullfrog_azure.Values.{Entries}
use pullfrog_azure.Repositories.AdminIdentities.Laws.{is_configured_lem}
use pullfrog_azure.Repositories.AdminIdentities.{is_configured}
use pullfrog_azure.Repositories.AdminSessions
use pullfrog_azure.Repositories.AdminSessions.{
  AdminSessionRecord, NewAdminSession, get_active_and_touch, revoke,
}
use pullfrog_azure.Exec.Spares.{
  Spares, Spares-return, Spares-throw, Spares-if, Spares-same, Spares-bind,
}
use pullfrog_azure.Repositories.LoginAttempts
use pullfrog_azure.Repositories.LoginAttempts.{LoginAttemptRecord, consume}
use pullfrog_azure.Services.Authentication.Authorization.{resolve_authorizer-database}
use pullfrog_azure.Services.Authentication.{
  AuthenticationService, AuthenticatedAdmin, authenticated_admin, require_claim_uuid,
  require_authorizer, new_session, establish, present_attempt, present_token, present_session,
  still_configured, admit, complete_login, current_admin, begin_login, logout, map_provider_error,
  resolve_authorizer,
}

-- What the calls of the repositories keep: `Session` and `Attempt` say which tokens may be presented,
-- `Ended` which sessions may be ended, and `Instant` when a login may start.
pub record Frame (p : Platform) (Holds : Database → Type 0) (Session Attempt : String → Type 0)
    (Ended Instant : ℕ → Type 0) : Type 0 where
  pub created :
      (id : ℕ) (n : NewAdminSession) → Spares Holds (AdminSessions.create id n) (λ r. Unit)
  pub looked_up :
      (token : String) (now idle_lifetime touch_interval : ℕ)
      → Session token
      → Spares Holds
          (get_active_and_touch (p.sha256 token) now idle_lifetime touch_interval)
          (λ o. (r : AdminSessionRecord) → o ≡ some r → Ended r.session_id)
  pub revoked : (k now : ℕ) → Ended k → Spares Holds (revoke k now) (λ a. Unit)
  pub attempted :
      (locked : ℕ → Bool) (id digest : ℕ) (flow : Entries) (return_to : String)
      (created_at expires_at : ℕ)
      → Instant created_at
      → Spares Holds
          (LoginAttempts.create locked id digest flow return_to created_at expires_at)
          (λ a. Unit)
  pub consumed :
      (token : String) (now : ℕ)
      → Attempt token
      → Spares Holds (consume (p.sha256 token) now) (λ o. Unit)

-- A cookie that may be presented, or none.
abbrev pub IsForeign : (String → Type 0) → Option String → Type 0
IsForeign Ok none = Unit
IsForeign Ok (some token) = Ok token

module _ (p : Platform) (Holds : Database → Type 0) (Session Attempt : String → Type 0)
    (Ended Instant : ℕ → Type 0) (f : Frame p Holds Session Attempt Ended Instant)
    (service : AuthenticationService) where
  present_token-Spares :
      (Ok : String → Type 0) (code : AuthErrorCode) (o : Option String)
      → IsForeign Ok o
      → Spares Holds (present_token p service code o) Ok
  present_token-Spares Ok code none other = Spares-throw Holds Ok (authentication_error code)
  present_token-Spares Ok code (some token) other =
      Spares-if Holds Ok (is_empty token) _ _ (Spares-throw Holds Ok (authentication_error code))
        (Spares-return Holds Ok token other)

  present_session-Spares :
      (o : Option AdminSessionRecord)
      → ((r : AdminSessionRecord) → o ≡ some r → Ended r.session_id)
      → Spares Holds (present_session p service o) (λ r. Ended r.session_id)
  present_session-Spares none other = Spares-throw Holds _ (authentication_error invalid_session)
  present_session-Spares (some r) other = Spares-return Holds _ r (other r refl)

  still_configured-Spares :
      (r : AdminIdentityRef) → Spares Holds (still_configured p service r) (λ b. Unit)
  still_configured-Spares r =
      Spares-if Holds _ (contains_ref service.configured_identities r) _ _
        (Spares-return Holds _ true tt)
        (Spares-same Holds (is_configured r) (λ db. rw (is_configured_lem r db) refl))

  admit-Spares :
      (now : ℕ) (r : AdminSessionRecord) (b : Bool)
      → Ended r.session_id
      → Spares Holds (admit p service now r b) (λ a. Ended a.session_id)
  admit-Spares now r true other = Spares-return Holds _ (authenticated_admin r) other
  admit-Spares now r false other =
      Spares-bind Holds _ _ _ _ (f.revoked r.session_id now other)
        λ done q. Spares-throw Holds _ (authentication_error invalid_session)

  pub current_admin-Spares :
      (session_token : Option String) (now : ℕ)
      → IsForeign Session session_token
      → Spares Holds (current_admin p service session_token now) (λ a. Ended a.session_id)
  unfolding current_admin
  current_admin-Spares session_token now other =
      Spares-bind Holds _ _ _ _ (present_token-Spares Session invalid_session session_token other)
        λ token foreign.
          Spares-bind Holds _ _ _ _
            (f.looked_up token now service.idle_lifetime service.touch_interval foreign)
            λ o found. Spares-bind Holds _ _ _ _ (present_session-Spares o found) λ r own.
              Spares-bind Holds _ _ _ _ (still_configured-Spares r.authorizer)
                λ b q. admit-Spares now r b own

  pub logout-Spares :
      (admin : AuthenticatedAdmin) (now : ℕ)
      → Ended admin.session_id
      → Spares Holds (logout p service admin now) (λ a. Unit)
  unfolding logout
  logout-Spares admin now other = f.revoked admin.session_id now other

  pub begin_login-Spares :
      (return_to : Option String) (now : ℕ) (attempt_token : String) (id : ℕ) (locked : ℕ → Bool)
      → Instant now
      → Spares Holds (begin_login p service return_to now attempt_token id locked) (λ s. Unit)
  unfolding begin_login
  begin_login-Spares return_to now attempt_token id locked early =
      Spares-bind Holds _ _ _ _
        (Spares-same Holds (lift (validate_return_to p return_to)) (λ db. refl))
        λ path q.
          Spares-bind Holds _ _ _ _
            (Spares-same Holds (lift (map_provider_error (service.oidc.begin service.callback_url)))
              (λ db. refl))
            λ a q₁.
              Spares-bind Holds _ _ _ _
                (f.attempted locked id (p.sha256 attempt_token) a.flow path now
                  (now + service.attempt_lifetime) early)
                λ done q₂. Spares-return Holds _ _ tt

  require_authorizer-Spares :
      (over : Bool) (o : Option AdminIdentityRef)
      → Spares Holds (require_authorizer p service over o) (λ r. Unit)
  require_authorizer-Spares over none = Spares-throw Holds _ _
  require_authorizer-Spares over (some r) = Spares-return Holds _ r tt

  present_attempt-Spares :
      (o : Option LoginAttemptRecord) → Spares Holds (present_attempt p service o) (λ a. Unit)
  present_attempt-Spares none = Spares-throw Holds _ _
  present_attempt-Spares (some a) = Spares-return Holds _ a tt

  establish-Spares :
      (attempt : LoginAttemptRecord) (claims : ValidatedOidcClaims) (now : ℕ)
      (session csrf : String) (id : ℕ)
      → Spares Holds (establish p service attempt claims now session csrf id) (λ c. Unit)
  unfolding establish
  establish-Spares attempt claims now session csrf id =
      Spares-bind Holds _ _ _ _
        (Spares-same Holds (lift (require_claim_uuid p claims.tenant_id)) (λ db. refl))
        λ t q.
          Spares-bind Holds _ _ _ _
            (Spares-if Holds (λ a. Unit) (t == service.tenant_id) _ _ (Spares-return Holds _ tt tt)
              (Spares-throw Holds _ (authentication_error identity_not_authorized)))
            λ done q₁.
              Spares-bind Holds _ _ _ _
                (Spares-same Holds (lift (require_claim_uuid p claims.user_object_id)) (λ db. refl))
                λ u q₂.
                  Spares-bind Holds _ _ _ _
                    (Spares-same Holds (resolve_authorizer p service t u claims)
                      (resolve_authorizer-database p service t u claims))
                    λ o q₃.
                      Spares-bind Holds _ _ _ _ (require_authorizer-Spares claims.group_overage o)
                        λ r q₄.
                          Spares-bind Holds _ _ _ _
                            (f.created id (new_session p service t u r claims now session csrf))
                            λ s q₅. Spares-return Holds _ _ tt

  pub complete_login-Spares :
      (attempt_token : Option String) (callback : Callback) (now : ℕ) (session csrf : String)
      (id : ℕ)
      → IsForeign Attempt attempt_token
      → Spares Holds
          (complete_login p service attempt_token callback now session csrf id)
          (λ c. Unit)
  unfolding complete_login
  complete_login-Spares attempt_token callback now session csrf id other =
      Spares-bind Holds _ _ _ _
        (present_token-Spares Attempt invalid_login_attempt attempt_token other)
        λ token q. Spares-bind Holds _ _ _ _ (f.consumed token now q) λ o q₁.
          Spares-bind Holds _ _ _ _ (present_attempt-Spares o) λ attempt q₂.
            Spares-bind Holds _ _ _ _
              (Spares-same Holds
                (lift (map_provider_error (service.oidc.exchange attempt.flow callback)))
                (λ db. refl))
              λ claims q₃. establish-Spares attempt claims now session csrf id
