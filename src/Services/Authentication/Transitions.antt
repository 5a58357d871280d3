-- ===== src/Services/Authentication/Transitions.antt =====
-- Every operation of the service is a sequence of committed repository operations.
use pullfrog_azure.Prelude.{
  ℕ, ◌+◌, ◌≤◌, String, ◌≡◌, refl, Bool, true, false, Option, none, some, arith, ◌==◌, if◌then◌else◌,
  is_empty,
}
use pullfrog_azure.Auth.Domain.{
  AdminIdentityRef, AuthErrorCode, PyException, authentication_error, identity_not_authorized,
  invalid_login_attempt, invalid_session, Callback, ValidatedOidcClaims,
}
use pullfrog_azure.Auth.Policy.{contains_ref, validate_return_to}
use pullfrog_azure.Exec.{Exec, return, throw, lift, answer, after, ◌>>=◌}
use pullfrog_azure.Models.{Database}
use pullfrog_azure.Outcome.{Result, ok, raise}
use pullfrog_azure.Platform.{Platform}
use pullfrog_azure.Repositories.AdminIdentities.Laws.{is_configured_lem}
use pullfrog_azure.Repositories.AdminIdentities.{is_configured}
use pullfrog_azure.Repositories.AdminSessions
use pullfrog_azure.Repositories.AdminSessions.{
  AdminSessionRecord, NewAdminSession, get_active_and_touch, revoke,
}
use pullfrog_azure.Repositories.AdminSessions.Lifetime.{
  Step, created, looked_up, revoked, attempted, consumed, Reach, start, next,
}
use pullfrog_azure.Repositories.LoginAttempts
use pullfrog_azure.Repositories.LoginAttempts.{LoginAttemptRecord, consume}
use pullfrog_azure.Services.Authentication.Authorization.{resolve_authorizer-database}
use pullfrog_azure.Services.Authentication.Login.{validate_return_to-IsLocalPath}
use pullfrog_azure.Services.Authentication.{
  AuthenticationService, AuthenticatedAdmin, authenticated_admin, require_claim_uuid,
  require_authorizer, new_session, establish, present_attempt, present_token, present_session,
  still_configured, admit, complete_login, current_admin, begin_login, logout, map_provider_error,
  resolve_authorizer,
}

pub Reach-trans : {a b c : Database} → Reach a b → Reach b c → Reach a c
Reach-trans r start = r
Reach-trans r (next q st) = next (Reach-trans r q) st

-- However the method ends, it leaves a database that repository operations reach.
pub record Reaches {A : Type 0} (m : Exec Database A) : Type 0 where
  pub from : (db : Database) → Reach db (m db).1

module _ {A : Type 0} where
  pub Reaches-return : (a : A) → Reaches (return a)
  Reaches-return a = record { from = λ db. start }

  pub Reaches-throw : (e : PyException) → Reaches (throw {A = A} e)
  Reaches-throw e = record { from = λ db. start }

  pub Reaches-lift : (r : Result A) → Reaches (lift r)
  Reaches-lift r = record { from = λ db. start }

  pub Reaches-if :
      (b : Bool) (m n : Exec Database A) → Reaches m → Reaches n → Reaches (if b then m else n)
  Reaches-if true m n rm rn = rm
  Reaches-if false m n rm rn = rn

  pub Reaches-step : (m : Exec Database A) → ((db : Database) → Step db (m db).1) → Reaches m
  Reaches-step m st = record { from = λ db. next start (st db) }

  pub Reaches-same : (m : Exec Database A) → ((db : Database) → (m db).1 ≡ db) → Reaches m
  Reaches-same m same = record { from = λ db. rw (same db) start }

module _ {A B : Type 0} where
  pub Reaches-bind :
      (m : Exec Database A) (f : A → Exec Database B)
      → Reaches m
      → ((a : A) → Reaches (f a))
      → Reaches (m >>= f)
  Reaches-bind m f rm rf = record { from = λ db. go (m db) (rm.from db) }
    where
      go : {db : Database} (x : Result A × Database) → Reach db x.1 → Reach db (after x f).1
      go (ok a, u) r = Reach-trans r ((rf a).from u)
      go (raise e, u) r = r

  -- a bind after a call that does not touch the database
  pub Reaches-bind_lift :
      (r : Result A) (f : A → Exec Database B)
      → ((a : A) → r ≡ ok a → Reaches (f a))
      → Reaches (lift r >>= f)
  Reaches-bind_lift r f rf = record { from = λ db. go db r (λ a e. rf a e) }
    where
      go :
          (db : Database) (x : Result A)
          → ((a : A) → x ≡ ok a → Reaches (f a))
          → Reach db (after (x, db) f).1
      go db (ok a) k = (k a refl).from db
      go db (raise e) k = start

  pub Reaches-answer :
      (f : Result A → Result B) (m : Exec Database A) → Reaches m → Reaches (answer f m)
  Reaches-answer f m rm = record { from = rm.from }

module _ (p : Platform) (service : AuthenticationService) where
  create-Reaches :
      (id : ℕ) (n : NewAdminSession)
      → n.idle_expires_at ≤ n.absolute_expires_at
      → Reaches (AdminSessions.create id n)
  create-Reaches id n fits = Reaches-step (AdminSessions.create id n) (λ db. created id n fits)

  consume-Reaches : (d now : ℕ) → Reaches (consume d now)
  consume-Reaches d now = Reaches-step (consume d now) (λ db. consumed d now)

  revoke-Reaches : (k now : ℕ) → Reaches (revoke k now)
  revoke-Reaches k now = Reaches-step (revoke k now) (λ db. revoked k now)

  present_token-Reaches :
      (code : AuthErrorCode) (o : Option String) → Reaches (present_token p service code o)
  present_token-Reaches code none = Reaches-throw _
  present_token-Reaches code (some token) =
      Reaches-if (is_empty token) _ _ (Reaches-throw (authentication_error code))
        (Reaches-return token)

  present_attempt-Reaches : (o : Option LoginAttemptRecord) → Reaches (present_attempt p service o)
  present_attempt-Reaches none = Reaches-throw _
  present_attempt-Reaches (some a) = Reaches-return a

  present_session-Reaches : (o : Option AdminSessionRecord) → Reaches (present_session p service o)
  present_session-Reaches none = Reaches-throw _
  present_session-Reaches (some a) = Reaches-return a

  require_authorizer-Reaches :
      (over : Bool) (o : Option AdminIdentityRef) → Reaches (require_authorizer p service over o)
  require_authorizer-Reaches over none = Reaches-throw _
  require_authorizer-Reaches over (some r) = Reaches-return r

  still_configured-Reaches : (r : AdminIdentityRef) → Reaches (still_configured p service r)
  still_configured-Reaches r =
      Reaches-if (contains_ref service.configured_identities r) _ _ (Reaches-return true)
        (Reaches-same (is_configured r) (λ db. rw (is_configured_lem r db) refl))

  admit-Reaches : (now : ℕ) (s : AdminSessionRecord) (b : Bool) → Reaches (admit p service now s b)
  admit-Reaches now s true = Reaches-return (authenticated_admin s)
  admit-Reaches now s false =
      Reaches-bind _ _ (revoke-Reaches s.session_id now)
        λ _. Reaches-throw (authentication_error invalid_session)

  pub begin_login-Reaches :
      (return_to : Option String) (now : ℕ) (attempt_token : String) (id : ℕ) (locked : ℕ → Bool)
      → Reaches (begin_login p service return_to now attempt_token id locked)
  unfolding begin_login
  begin_login-Reaches return_to now attempt_token id locked =
      Reaches-bind_lift (validate_return_to p return_to) _ λ path valid.
        Reaches-bind _ _
          (Reaches-lift (map_provider_error (service.oidc.begin service.callback_url)))
          λ a.
            Reaches-bind _ _
              (Reaches-step
                (LoginAttempts.create locked id (p.sha256 attempt_token) a.flow path now
                  (now + service.attempt_lifetime))
                (λ db.
                  attempted locked id (p.sha256 attempt_token) a.flow path now
                    (now + service.attempt_lifetime)
                    (validate_return_to-IsLocalPath p return_to path valid)))
              λ _. Reaches-return _

  establish-Reaches :
      (attempt : LoginAttemptRecord) (claims : ValidatedOidcClaims) (now : ℕ)
      (session csrf : String) (id : ℕ)
      → service.idle_lifetime ≤ service.absolute_lifetime
      → Reaches (establish p service attempt claims now session csrf id)
  unfolding establish
  establish-Reaches attempt claims now session csrf id fits =
      Reaches-bind _ _ (Reaches-lift (require_claim_uuid p claims.tenant_id)) λ t.
        Reaches-bind _ _
          (Reaches-if (t == service.tenant_id) _ _ (Reaches-return tt)
            (Reaches-throw (authentication_error identity_not_authorized)))
          λ _. Reaches-bind _ _ (Reaches-lift (require_claim_uuid p claims.user_object_id)) λ u.
            Reaches-bind _ _
              (Reaches-same (resolve_authorizer p service t u claims)
                (resolve_authorizer-database p service t u claims))
              λ o. Reaches-bind _ _ (require_authorizer-Reaches claims.group_overage o) λ r.
                Reaches-bind _ _
                  (create-Reaches id (new_session p service t u r claims now session csrf)
                    (omega arith))
                  λ s. Reaches-return _

  pub complete_login-Reaches :
      (attempt_token : Option String) (callback : Callback) (now : ℕ) (session csrf : String)
      (id : ℕ)
      → service.idle_lifetime ≤ service.absolute_lifetime
      → Reaches (complete_login p service attempt_token callback now session csrf id)
  unfolding complete_login
  complete_login-Reaches attempt_token callback now session csrf id fits =
      Reaches-bind _ _ (present_token-Reaches invalid_login_attempt attempt_token) λ token.
        Reaches-bind _ _ (consume-Reaches (p.sha256 token) now) λ o.
          Reaches-bind _ _ (present_attempt-Reaches o) λ attempt.
            Reaches-bind _ _
              (Reaches-lift (map_provider_error (service.oidc.exchange attempt.flow callback)))
              λ claims. establish-Reaches attempt claims now session csrf id fits

  pub current_admin-Reaches :
      (session_token : Option String) (now : ℕ)
      → Reaches (current_admin p service session_token now)
  unfolding current_admin
  current_admin-Reaches session_token now =
      Reaches-bind _ _ (present_token-Reaches invalid_session session_token) λ token.
        Reaches-bind _ _
          (Reaches-step
            (get_active_and_touch (p.sha256 token) now service.idle_lifetime service.touch_interval)
            (λ db. looked_up (p.sha256 token) now service.idle_lifetime service.touch_interval))
          λ o.
            Reaches-bind _ _ (present_session-Reaches o) λ s.
              Reaches-bind _ _ (still_configured-Reaches s.authorizer) λ b. admit-Reaches now s b

  pub logout-Reaches : (admin : AuthenticatedAdmin) (now : ℕ) → Reaches (logout p service admin now)
  unfolding logout
  logout-Reaches admin now = revoke-Reaches admin.session_id now
