-- ===== src/Services/Authentication/Setup.antt =====
-- The constructor of the service: it wants identities of exactly one tenant.
use pullfrog_azure.Prelude.{
  ℕ, String, ◌≡◌, refl, ◌≢◌, true, some, List, [], ◌∷◌, ◌++◌, ◌==◌, ==_iff, all,
}
use pullfrog_azure.Auth.Domain.{AdminIdentityRef, OidcProvider}
use pullfrog_azure.Outcome.{ok}
use pullfrog_azure.Services.Authentication.Values.{new_service, only_tenant}

-- Every reference is of the tenant.
abbrev pub AreOf : ℕ → List AdminIdentityRef → Type 0
AreOf t [] = Unit
AreOf t (r ∷ rs) = (r.tenant_id ≡ t) × AreOf t rs

pub AreOf-append :
    (t : ℕ) (xs ys : List AdminIdentityRef) → AreOf t xs → AreOf t ys → AreOf t (xs ++ ys)
AreOf-append t [] ys h k = k
AreOf-append t (x ∷ xs) ys h k = (h.0, AreOf-append t xs ys h.1 k)

all-AreOf :
    (t : ℕ) (rs : List AdminIdentityRef) → AreOf t rs → all (λ j. j.tenant_id == t) rs ≡ true
unfolding all
all-AreOf t [] h = refl
all-AreOf t (r ∷ rs) h = rw ((==_iff r.tenant_id t).1 h.0, all-AreOf t rs h.1)

only_tenant-AreOf :
    (t : ℕ) (rs : List AdminIdentityRef) → AreOf t rs → rs ≢ [] → only_tenant rs ≡ some t
unfolding only_tenant
only_tenant-AreOf t [] h ne = absurd (ne refl)
only_tenant-AreOf t (r ∷ rs) h ne = rw (h.0, all-AreOf t rs h.1)

-- Identities of one tenant, at least one of them, always make a service, of that tenant.
pub new_service-AreOf :
    (t : ℕ) (oidc : OidcProvider) (refs : List AdminIdentityRef) (callback_url : String)
    (attempt_lifetime idle_lifetime absolute_lifetime touch_interval : ℕ)
    → AreOf t refs
    → refs ≢ []
    → new_service oidc refs callback_url attempt_lifetime idle_lifetime absolute_lifetime
        touch_interval
      ≡ ok (record {
        oidc = oidc;
        configured_identities = refs;
        tenant_id = t;
        callback_url = callback_url;
        attempt_lifetime = attempt_lifetime;
        idle_lifetime = idle_lifetime;
        absolute_lifetime = absolute_lifetime;
        touch_interval = touch_interval;
      })
unfolding new_service
new_service-AreOf t oidc refs callback_url attempt_lifetime idle_lifetime absolute_lifetime
      touch_interval h ne =
    rw (only_tenant-AreOf t refs h ne, new_service)
