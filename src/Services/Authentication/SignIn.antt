-- ===== src/Services/Authentication/SignIn.antt =====
-- A whole sign-in: what a returned completion rests on, and what a raised one leaves alone.
use pullfrog_azure.Prelude.{
  ℕ, ◌<◌, String, ◌≡◌, refl, inl, inr, Bool, false, Option, none, some, List, arith, ap, sym, ◌∙◌,
  Bool-cases, is_empty, ◌==◌,
}
use pullfrog_azure.Auth.Domain.{
  AdminIdentityRef, AuthErrorCode, PyException, authentication_error, invalid_login_attempt,
  identity_not_authorized, Callback, ValidatedOidcClaims,
}
use pullfrog_azure.Exec.{lift, >>=-eq-ok, runs, after_parts}
use pullfrog_azure.Exec.Keeps.{
  Keeps, Keeps-return, Keeps-throw, Keeps-lift, Keeps-if, KeepsRaising, KeepsRaising-bind,
  KeepsRaising-return,
}
use pullfrog_azure.Models.{Database, OidcLoginAttempt, AdminSession}
use pullfrog_azure.Outcome.{ok, raise}
use pullfrog_azure.Platform.{Platform}
use pullfrog_azure.Repositories.AdminSessions
use pullfrog_azure.Repositories.AdminSessions.{
  AdminSessionRecord, NewAdminSession, session_record, new_row,
}
use pullfrog_azure.Repositories.LoginAttempts.{LoginAttemptRecord, consume, by_digest}
use pullfrog_azure.Repositories.LoginAttempts.Laws.{consume_sound}
use pullfrog_azure.Repositories.Table.{find_by, delete_by}
use pullfrog_azure.Services.Authentication.Establish.{establish_sound}
use pullfrog_azure.Services.Authentication.Established.{IsEstablished}
use pullfrog_azure.Services.Authentication.Authorization.{resolve_authorizer-database}
use pullfrog_azure.Services.Authentication.{
  AuthenticationService, LoginCompletion, authenticated_admin, require_claim_uuid,
  require_authorizer, new_session, establish, present_attempt, present_token, complete_login,
  map_provider_error, resolve_authorizer,
}

-- A completed sign-in: a stored, unexpired attempt was consumed, the provider redeemed its flow, and
-- the claims established the session.
pub record IsSignedIn (p : Platform) (service : AuthenticationService)
    (attempt_token : Option String) (callback : Callback) (now : ℕ) (session csrf : String) (id : ℕ)
    (db : Database) (c : LoginCompletion) (db' : Database) : Type 0 where
  pub token : String
  pub row : OidcLoginAttempt
  pub attempt : LoginAttemptRecord
  pub claims : ValidatedOidcClaims
  pub between : Database
  pub given : attempt_token ≡ some token
  pub not_empty : is_empty token ≡ false
  pub stored : find_by by_digest (p.sha256 token) db.oidc_login_attempt ≡ some row
  pub unexpired_then : now < row.expires_at
  pub read :
      attempt ≡ record { flow = row.flow; return_to = row.return_to; expires_at = row.expires_at }
  pub deleted : between ≡ record db {
    oidc_login_attempt = delete_by by_digest (p.sha256 token) db.oidc_login_attempt;
  }
  pub redeemed : map_provider_error (service.oidc.exchange attempt.flow callback) ≡ ok claims
  pub established : IsEstablished p service attempt claims now session csrf id between c db'

module _ (p : Platform) (service : AuthenticationService) where
  pub present_token_sound :
      (code : AuthErrorCode) (o : Option String) (token : String) (s t : Database)
      → present_token p service code o s ≡ (ok token, t)
      → (o ≡ some token) × (is_empty token ≡ false) × (s ≡ t)
  present_token_sound code none token s t h = cc (after_parts h).0
  present_token_sound code (some given) token s t h = elim (Bool-cases (is_empty given)) [
    | inl empty ↦ cc (after_parts (rw empty at h)).0
    | inr filled ↦
        let h' = (rw filled at h) in
        let same = injected (after_parts h').0 in
        (ap some same, ap is_empty (sym same) ∙ filled, (after_parts h').1)
  ]
    where
      injected : ok given ≡ ok token → given ≡ token
      injected e = cc

  present_attempt_sound :
      (o : Option LoginAttemptRecord) (a : LoginAttemptRecord) (s t : Database)
      → present_attempt p service o s ≡ (ok a, t)
      → (o ≡ some a) × (s ≡ t)
  present_attempt_sound none a s t h = cc (after_parts h).0
  present_attempt_sound (some b) a s t h = (injected (after_parts h).0, (after_parts h).1)
    where
      injected : ok b ≡ ok a → some b ≡ some a
      injected e = cc

  module _ (attempt_token : Option String) (callback : Callback) (now : ℕ) (session csrf : String)
      (id : ℕ) (db db' : Database) (c : LoginCompletion) where
    -- the parts of a sign-in, put together
    signed_in :
        (token : String) (s₀ s₁ s₂ s₃ : Database) (o : Option LoginAttemptRecord)
        (attempt : LoginAttemptRecord) (claims : ValidatedOidcClaims)
        → present_token p service invalid_login_attempt attempt_token db ≡ (ok token, s₀)
        → consume (p.sha256 token) now s₀ ≡ (ok o, s₁)
        → present_attempt p service o s₁ ≡ (ok attempt, s₂)
        → lift (map_provider_error (service.oidc.exchange attempt.flow callback)) s₂
          ≡ (ok claims, s₃)
        → establish p service attempt claims now session csrf id s₃ ≡ (ok c, db')
        → IsSignedIn p service attempt_token callback now session csrf id db c db'
    signed_in token s₀ s₁ s₂ s₃ o attempt claims e₀ e₁ e₂ e₃ h =
        let (given, not_empty, start) =
          present_token_sound invalid_login_attempt attempt_token token db s₀ e₀ in
        let (found, same) = present_attempt_sound o attempt s₁ s₂ e₂ in
        let taken =
          (λ i. consume (p.sha256 token) now (start i)) ∙ e₁ ∙ (λ i. (ok (found i), s₁)) in
        let (row, stored, early, read, deleted) =
          consume_sound (p.sha256 token) now db s₁ attempt taken in
        record {
          token = token;
          row = row;
          attempt = attempt;
          claims = claims;
          between = s₃;
          given = given;
          not_empty = not_empty;
          stored = stored;
          unexpired_then = early;
          read = read;
          deleted = sym (after_parts e₃).1 ∙ sym same ∙ deleted;
          redeemed = (after_parts e₃).0;
          established = establish_sound p service attempt claims now session csrf id s₃ c db' h;
        }

    -- When `complete_login` returns, its token was not empty and named a stored attempt that had not
    -- expired, the provider redeemed the attempt's flow for this callback, and the claims name the
    -- service's tenant and a user whose authorizer, by his own reference or by the groups of the token,
    -- is configured in the settings or the database; the new database is the old one without the
    -- attempts of the token and with one new session of that authorizer, under the digests of the two
    -- returned tokens.
    pub complete_login_sound :
        complete_login p service attempt_token callback now session csrf id db ≡ (ok c, db')
        → IsSignedIn p service attempt_token callback now session csrf id db c db'
    unfolding complete_login
    complete_login_sound h =
        elim (>>=-eq-ok (present_token p service invalid_login_attempt attempt_token) _ h) [
          | runs token s₀ e₀ h ↦ elim (>>=-eq-ok (consume (p.sha256 token) now) _ h) [
            | runs o s₁ e₁ h ↦ elim (>>=-eq-ok (present_attempt p service o) _ h) [
              | runs attempt s₂ e₂ h ↦
                  elim (>>=-eq-ok
                    (lift (map_provider_error (service.oidc.exchange attempt.flow callback))) _ h) [
                      | runs claims s₃ e₃ h ↦
                          signed_in token s₀ s₁ s₂ s₃ o attempt claims e₀ e₁ e₂ e₃ h
                    ]
            ]
          ]
        ]

  abbrev sessions : Database → List AdminSession
  sessions db = db.admin_session

  create-KeepsRaising :
      (id : ℕ) (r : NewAdminSession) → KeepsRaising sessions (AdminSessions.create id r)
  unfolding AdminSessions.create
  create-KeepsRaising id r = record { raised = λ s t e h. ground (arith, after_parts h) }

  resolve-Keeps :
      (t u : ℕ) (claims : ValidatedOidcClaims)
      → Keeps sessions (resolve_authorizer p service t u claims)
  resolve-Keeps t u claims = record {
    at = λ s. ap sessions (resolve_authorizer-database p service t u claims s);
  }

  require_authorizer-Keeps :
      (over : Bool) (o : Option AdminIdentityRef)
      → Keeps sessions (require_authorizer p service over o)
  require_authorizer-Keeps over none = Keeps-throw _
  require_authorizer-Keeps over (some r) = Keeps-return r

  establish-KeepsRaising :
      (attempt : LoginAttemptRecord) (claims : ValidatedOidcClaims) (now : ℕ)
      (session csrf : String) (id : ℕ)
      → KeepsRaising sessions (establish p service attempt claims now session csrf id)
  unfolding establish
  establish-KeepsRaising attempt claims now session csrf id =
      KeepsRaising-bind _ _ (Keeps-lift (require_claim_uuid p claims.tenant_id)) λ t.
        KeepsRaising-bind _ _
          (Keeps-if (t == service.tenant_id) _ _ (Keeps-return tt)
            (Keeps-throw (authentication_error identity_not_authorized)))
          λ _. KeepsRaising-bind _ _ (Keeps-lift (require_claim_uuid p claims.user_object_id)) λ u.
            KeepsRaising-bind _ _ (resolve-Keeps t u claims) λ o.
              KeepsRaising-bind _ _ (require_authorizer-Keeps claims.group_overage o) λ r.
                KeepsRaising-return _
                  (λ s. record {
                    return_to = attempt.return_to;
                    session_token = session;
                    csrf_token = csrf;
                    admin = authenticated_admin s;
                  })
                  (create-KeepsRaising id (new_session p service t u r claims now session csrf))

  present_attempt-Keeps :
      (o : Option LoginAttemptRecord) → Keeps sessions (present_attempt p service o)
  present_attempt-Keeps none = Keeps-throw _
  present_attempt-Keeps (some a) = Keeps-return a

  present_token-Keeps :
      (code : AuthErrorCode) (o : Option String) → Keeps sessions (present_token p service code o)
  present_token-Keeps code none = Keeps-throw _
  present_token-Keeps code (some token) =
      Keeps-if (is_empty token) _ _ (Keeps-throw (authentication_error code)) (Keeps-return token)

  consume-Keeps : (d now : ℕ) → Keeps sessions (consume d now)
  unfolding consume
  consume-Keeps d now = record { at = λ s. refl }

  -- A sign-in that raises leaves the sessions as they were, whatever it raises.
  pub complete_login-eq-raise :
      (attempt_token : Option String) (callback : Callback) (now : ℕ) (session csrf : String)
      (id : ℕ) (db db' : Database) (e : PyException)
      → complete_login p service attempt_token callback now session csrf id db ≡ (raise e, db')
      → db'.admin_session ≡ db.admin_session
  unfolding complete_login
  complete_login-eq-raise attempt_token callback now session csrf id db db' e h =
      (KeepsRaising-bind _ _ (present_token-Keeps invalid_login_attempt attempt_token) λ token.
          KeepsRaising-bind _ _ (consume-Keeps (p.sha256 token) now) λ o.
            KeepsRaising-bind _ _ (present_attempt-Keeps o) λ attempt.
              KeepsRaising-bind _ _
                (Keeps-lift (map_provider_error (service.oidc.exchange attempt.flow callback)))
                λ claims. establish-KeepsRaising attempt claims now session csrf id).raised
        db db' e h
