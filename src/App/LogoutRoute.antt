-- ===== src/App/LogoutRoute.antt =====
-- The route of a logout: what a response of it rests on.
use pullfrog_azure.Prelude.{ℕ, String, ◌≡◌, Bool, Option, arith, ap, sym, ◌∙◌}
use pullfrog_azure.Api.AuthCookies.{Response, clear_admin_cookies, no_body}
use pullfrog_azure.Api.Dependencies.{require_admin_mutation}
use pullfrog_azure.Api.Routes.{logout_route, error_response, authentication_error_handler, reply}
use pullfrog_azure.Auth.Domain.{
  authentication_error, AuthErrorCode, invalid_login_attempt, identity_provider_unavailable,
  identity_not_authorized, group_claim_overage, invalid_session, csrf_failed,
}
use pullfrog_azure.Exec.{lift, >>=-eq-ok, runs, after_parts}
use pullfrog_azure.Models.{Database}
use pullfrog_azure.Outcome.{Result, ok, raise}
use pullfrog_azure.Platform.{Platform}
use pullfrog_azure.Repositories.AdminSessions.{revoke}
use pullfrog_azure.Services.Authentication.{
  AuthenticationService, AuthenticatedAdmin, current_admin, require_csrf, logout,
}

-- What the handler passes on with another status than an error's is the route's own response.
pub handler-success :
    (secure : Bool) (r : Result Response) (response : Response)
    → authentication_error_handler secure r ≡ ok response
    → response.status_code ≡ 204
    → r ≡ ok response
unfolding clear_admin_cookies
handler-success secure (ok x) response h k = h
handler-success secure (raise (authentication_error code)) response h k =
    absurd (is_error code (ap (λ (x : Response). x.status_code) (injected h) ∙ k))
  where
    injected : ok (error_response secure code) ≡ ok response → error_response secure code ≡ response
    injected e = cc

    is_error : (c : AuthErrorCode) → (error_response secure c).status_code ≡ 204 → ⊥
    is_error invalid_login_attempt e = omega arith
    is_error identity_provider_unavailable e = omega arith
    is_error identity_not_authorized e = omega arith
    is_error group_claim_overage e = omega arith
    is_error invalid_session e = omega arith
    is_error csrf_failed e = omega arith
handler-success secure (raise e) response h k = cc

module _ (p : Platform) (secure : Bool) (service : AuthenticationService) where
  -- A logout that went through: the request's administrator proved the CSRF token, and his session was
  -- revoked.
  pub record IsLoggedOut (session_cookie csrf_cookie csrf_header : Option String)
      (now now_after : ℕ) (db db' : Database) (response : Response) : Type 0 where
    pub admin : AuthenticatedAdmin
    pub between : Database
    pub current : current_admin p service session_cookie now db ≡ (ok admin, between)
    pub proved : require_csrf p service admin csrf_cookie csrf_header ≡ ok tt
    pub ended : (logout p service admin now_after between).1 ≡ db'
    pub response_is : response ≡ clear_admin_cookies (reply 204 no_body) secure

  pub logout_route_sound :
      (session_cookie csrf_cookie csrf_header : Option String) (now now_after : ℕ)
      (db db' : Database) (response : Response)
      → logout_route p secure service session_cookie csrf_cookie csrf_header now now_after db
        ≡ (ok response, db')
      → IsLoggedOut session_cookie csrf_cookie csrf_header now now_after db db' response
  unfolding logout_route require_admin_mutation logout revoke
  logout_route_sound session_cookie csrf_cookie csrf_header now now_after db db' response h =
      elim (>>=-eq-ok (require_admin_mutation p service session_cookie csrf_cookie csrf_header now)
        _ h) [
          | runs admin s₁ e₁ h₁ ↦
              let (admin', s₂, current, proved, same_admin, same_db) = mutation admin s₁ e₁ in
              record {
                admin = admin';
                between = s₂;
                current = current;
                proved = proved;
                ended =
                    (λ i. (logout p service (same_admin i) now_after (same_db i)).1)
                    ∙ (after_parts h₁).1;
                response_is = sym (injected (after_parts h₁).0);
              }
        ]
    where
      injected : {x y : Response} → ok x ≡ ok y → x ≡ y
      injected e = cc

      mutation :
          (admin : AuthenticatedAdmin) (s₁ : Database)
          → require_admin_mutation p service session_cookie csrf_cookie csrf_header now db
            ≡ (ok admin, s₁)
          → (a : AuthenticatedAdmin) × (u : Database) × (current_admin p service session_cookie now
                db
              ≡ (ok a, u))
            × (require_csrf p service a csrf_cookie csrf_header ≡ ok tt)
            × (a ≡ admin)
            × (u ≡ s₁)
      mutation admin s₁ e₁ = elim (>>=-eq-ok (current_admin p service session_cookie now) _ e₁) [
        | runs a u c k ↦
            elim (>>=-eq-ok (lift (require_csrf p service a csrf_cookie csrf_header)) _ k) [
              | runs t v proved k' ↦ (
                a,
                u,
                c,
                checked t (after_parts proved).0,
                same_admin (after_parts k').0,
                (after_parts proved).1 ∙ (after_parts k').1,
              )
            ]
      ]
        where
          same_admin : {x y : AuthenticatedAdmin} → ok x ≡ ok y → x ≡ y
          same_admin e = cc

          checked : {r : Result (Unit {0})} (u : Unit {0}) → r ≡ ok u → r ≡ ok tt
          checked u e = e
