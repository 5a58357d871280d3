-- ===== src/Services/Authentication/Csrf.antt =====
-- `require_csrf`: what a mutation of an authenticated administrator has to prove.
use pullfrog_azure.Prelude.{String, ◌≡◌, refl, ◌↔◌, ◌⊎◌, inl, inr, Bool, true, false, Option, arith}
use pullfrog_azure.Auth.Domain.{authentication_error, csrf_failed, type_error}
use pullfrog_azure.Auth.Tokens.{csrf_matches}
use pullfrog_azure.Auth.Tokens.Csrf.{
  IsProof, IsForeign, csrf_matches-eq-true_iff, csrf_matches-eq-raise_iff,
}
use pullfrog_azure.Outcome.{Result, ok, raise}
use pullfrog_azure.Platform.{Platform}
use pullfrog_azure.Services.Authentication.{
  AuthenticationService, AuthenticatedAdmin, require_csrf, csrf_result,
}

csrf_result-ok :
    (p : Platform) (service : AuthenticationService) (r : Result Bool)
    → csrf_result p service r ≡ ok tt
    → r ≡ ok true
csrf_result-ok p service (ok true) h = refl
csrf_result-ok p service r h = cc

csrf_result-raise :
    (p : Platform) (service : AuthenticationService) (r : Result Bool)
    → csrf_result p service r ≡ raise type_error
    → r ≡ raise type_error
csrf_result-raise p service (ok true) h = cc
csrf_result-raise p service (ok false) h = cc
csrf_result-raise p service (raise e) h = cc

-- `require_csrf` returns exactly when cookie and header present one ASCII token whose digest is that
-- of the administrator's session; and else it raises `AuthenticationError(CSRF_FAILED)`, or the
-- `TypeError` of the comparison.
pub require_csrf-eq-ok_iff :
    (p : Platform) (service : AuthenticationService) (admin : AuthenticatedAdmin)
    (cookie header : Option String)
    → ((require_csrf p service admin cookie header ≡ ok tt)
        ↔ IsProof p cookie header admin.csrf_token_digest)
      × ((require_csrf p service admin cookie header ≡ ok tt)
          ⊎ (require_csrf p service admin cookie header ≡ raise (authentication_error csrf_failed))
          ⊎ (require_csrf p service admin cookie header ≡ raise type_error))
unfolding require_csrf csrf_matches
require_csrf-eq-ok_iff p service admin cookie header = (
  (
    λ h.
        (csrf_matches-eq-true_iff p cookie header admin.csrf_token_digest).0
          (csrf_result-ok p service _ h),
    λ h. rw ((csrf_matches-eq-true_iff p cookie header admin.csrf_token_digest).1 h) refl,
  ),
  ground arith,
)

-- The outcome of `require_csrf` from what cookie and header present.
pub require_csrf-cases :
    (p : Platform) (service : AuthenticationService) (admin : AuthenticatedAdmin)
    (cookie header : Option String)
    → (IsProof p cookie header admin.csrf_token_digest
        × (require_csrf p service admin cookie header ≡ ok tt))
      ⊎ (IsForeign cookie header × (require_csrf p service admin cookie header ≡ raise type_error))
      ⊎ ((¬ IsProof p cookie header admin.csrf_token_digest)
          × (¬ IsForeign cookie header)
          × (require_csrf p service admin cookie header ≡ raise (authentication_error csrf_failed)))
unfolding require_csrf
require_csrf-cases p service admin cookie header =
    let (proof, outcome) = require_csrf-eq-ok_iff p service admin cookie header in
    elim outcome [
      | inl passed ↦ inl (proof.0 passed, passed)
      | inr (inr broken) ↦ inr (
          inl (
            (csrf_matches-eq-raise_iff p cookie header admin.csrf_token_digest).0
                (csrf_result-raise p service _ broken),
            broken,
          ))
      | inr (inl failed) ↦
          inr (inr ((λ q. cc (failed, proof.1 q)), (λ f. cc (failed, broke f)), failed))
    ]
  where
    broke : IsForeign cookie header → require_csrf p service admin cookie header ≡ raise type_error
    broke f = rw ((csrf_matches-eq-raise_iff p cookie header admin.csrf_token_digest).1 f) refl
