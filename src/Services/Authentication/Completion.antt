-- ===== src/Services/Authentication/Completion.antt =====
-- What `complete_login` guarantees: an attempt is used once, and only an authorizer makes a session.
use pullfrog_azure.Prelude.{
  ℕ, String, ◌≡◌, refl, inl, inr, Bool, false, Option, none, some, List, arith, ap, ◌∙◌, Bool-cases,
  is_empty, ◌==◌, ==_iff,
}
use pullfrog_azure.Auth.Domain.{
  AdminIdentityRef, authentication_error, invalid_login_attempt, identity_not_authorized, Callback,
  ValidatedOidcClaims,
}
use pullfrog_azure.Exec.{lift, after, ◌>>=◌}
use pullfrog_azure.Exec.Keeps.{Keeps, Keeps-return, Keeps-throw, Keeps-lift, Keeps-if, Keeps-bind}
use pullfrog_azure.Models.{Database, OidcLoginAttempt}
use pullfrog_azure.Outcome.{raise}
use pullfrog_azure.Platform.{Platform}
use pullfrog_azure.Repositories.AdminSessions
use pullfrog_azure.Repositories.AdminSessions.{
  AdminSessionRecord, NewAdminSession, session_record, new_row,
}
use pullfrog_azure.Repositories.LoginAttempts.{LoginAttemptRecord, consume, by_digest, unexpired}
use pullfrog_azure.Repositories.LoginAttempts.Unstored.{Meanwhile, Meanwhile-find_by}
use pullfrog_azure.Repositories.Table.{find_by, find_by-delete_by}
use pullfrog_azure.Services.Authentication.Authorization.{resolve_authorizer-database}
use pullfrog_azure.Services.Authentication.{
  AuthenticationService, authenticated_admin, require_claim_uuid, require_authorizer, new_session,
  establish, present_attempt, complete_login, map_provider_error, resolve_authorizer,
}

abbrev attempts : Database → List OidcLoginAttempt
attempts db = db.oidc_login_attempt

create-Keeps : (id : ℕ) (r : NewAdminSession) → Keeps attempts (AdminSessions.create id r)
unfolding AdminSessions.create
create-Keeps id r = record { at = λ s. ground arith }

module _ (p : Platform) (service : AuthenticationService) where
  require_authorizer-Keeps :
      (over : Bool) (o : Option AdminIdentityRef)
      → Keeps attempts (require_authorizer p service over o)
  require_authorizer-Keeps over none = Keeps-throw _
  require_authorizer-Keeps over (some r) = Keeps-return r

  resolve-Keeps :
      (t u : ℕ) (claims : ValidatedOidcClaims)
      → Keeps attempts (resolve_authorizer p service t u claims)
  resolve-Keeps t u claims = record {
    at = λ s. ap attempts (resolve_authorizer-database p service t u claims s);
  }

  -- Establishing the session does not touch the attempts.
  establish-Keeps :
      (attempt : LoginAttemptRecord) (claims : ValidatedOidcClaims) (now : ℕ)
      (session csrf : String) (id : ℕ)
      → Keeps attempts (establish p service attempt claims now session csrf id)
  unfolding establish
  establish-Keeps attempt claims now session csrf id =
      Keeps-bind _ _ (Keeps-lift (require_claim_uuid p claims.tenant_id)) λ t.
        Keeps-bind _ _
          (Keeps-if (t == service.tenant_id) _ _ (Keeps-return tt)
            (Keeps-throw (authentication_error identity_not_authorized)))
          λ _. Keeps-bind _ _ (Keeps-lift (require_claim_uuid p claims.user_object_id)) λ u.
            Keeps-bind _ _ (resolve-Keeps t u claims) λ o.
              Keeps-bind _ _ (require_authorizer-Keeps claims.group_overage o) λ r.
                Keeps-bind _ _
                  (create-Keeps id (new_session p service t u r claims now session csrf))
                  λ s. Keeps-return (record {
                    return_to = attempt.return_to;
                    session_token = session;
                    csrf_token = csrf;
                    admin = authenticated_admin s;
                  })

  -- What follows the consumption keeps the attempts, so the digest is gone from them.
  complete_login-consumed :
      (token : String) (callback : Callback) (now : ℕ) (session csrf : String) (id : ℕ)
      (db : Database)
      → is_empty token ≡ false
      → attempts (complete_login p service (some token) callback now session csrf id db).1
        ≡ attempts (consume (p.sha256 token) now db).1
  unfolding complete_login consume
  complete_login-consumed token callback now session csrf id db given =
      let db' = (consume (p.sha256 token) now db).1 in
      rw given (go (unexpired now (find_by by_digest (p.sha256 token) db.oidc_login_attempt)))
    where
      db₁ : Database
      db₁ = (consume (p.sha256 token) now db).1

      go :
          (o : Option LoginAttemptRecord)
          → attempts
              (after (present_attempt p service o db₁) λ attempt.
                lift (map_provider_error (service.oidc.exchange attempt.flow callback))
                >>= λ claims. establish p service attempt claims now session csrf id).1
            ≡ attempts db₁
      go none = refl
      go (some attempt) =
          (Keeps-bind _ _
              (Keeps-lift (map_provider_error (service.oidc.exchange attempt.flow callback)))
              (λ claims. establish-Keeps attempt claims now session csrf id)).at
            db₁

  complete_login-absent :
      (token : String) (callback : Callback) (now : ℕ) (session csrf : String) (id : ℕ)
      (db : Database)
      → is_empty token ≡ false
      → find_by by_digest (p.sha256 token) (attempts db) ≡ none
      → (complete_login p service (some token) callback now session csrf id db).0
        ≡ raise (authentication_error invalid_login_attempt)
  unfolding complete_login consume
  complete_login-absent token callback now session csrf id db given absent = rw (given, absent)

  consumed-absent :
      (d now : ℕ) (db : Database) → find_by by_digest d (attempts (consume d now db).1) ≡ none
  unfolding consume
  consumed-absent d now db =
      rw (find_by-delete_by by_digest d d db.oidc_login_attempt, (==_iff d d).1 refl)

-- After any call of `complete_login` with a token, whether it returned a session or raised, and any
-- operations of the repositories after it that store no login attempt under that token's digest,
-- every further call with the token is rejected as an invalid login attempt.
pub complete_login-replay :
    (p : Platform) (service : AuthenticationService) (token : String)
    (callback callback' : Callback) (now later id id' : ℕ) (session session' csrf csrf' : String)
    (db db' : Database)
    → Meanwhile
        (p.sha256 token)
        (complete_login p service (some token) callback now session csrf id db).1
        db'
    → (complete_login p service (some token) callback' later session' csrf' id' db').0
      ≡ raise (authentication_error invalid_login_attempt)
complete_login-replay p service token callback callback' now later id id' session session' csrf
      csrf' db db' m =
    elim (Bool-cases (is_empty token)) [
      | inl empty ↦ unfold complete_login in rw empty
      | inr given ↦
          complete_login-absent p service token callback' later session' csrf' id' db' given (
            Meanwhile-find_by (p.sha256 token) m (
              ap (find_by by_digest (p.sha256 token))
                (complete_login-consumed p service token callback now session csrf id db given)
              ∙ consumed-absent p service (p.sha256 token) now db))
    ]
