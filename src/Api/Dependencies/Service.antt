-- ===== src/Api/Dependencies/Service.antt =====
-- That accepted settings always compose a service, and which one.
use pullfrog_azure.Prelude.{
  ℕ, ◌≤◌, ◌<◌, ◌*◌, String, ◌≡◌, refl, sym, ◌≢◌, ◌↔◌, ◌⊎◌, inl, inr, In, In-map, map-In, In-append,
  append-In_left, append-In_right, Option, List, [], ◌∷◌, ◌++◌, map, arith,
}
use pullfrog_azure.Api.Dependencies.{
  configured_ref, minutes, hours, configured_identities, get_authentication_service,
}
use pullfrog_azure.Auth.Domain.{AdminIdentityKind, AdminIdentityRef, user, group, OidcProvider}
use pullfrog_azure.Config.{RawSettings, Settings, callback_url, load}
use pullfrog_azure.Config.Accepted.{load-eq-ok_iff}
use pullfrog_azure.Config.CallbackUrl.{IsCallbackUrl, callback_url_lem}
use pullfrog_azure.Config.Security.{IsSecure}
use pullfrog_azure.Outcome.{ok}
use pullfrog_azure.Services.Authentication.{AuthenticationService}
use pullfrog_azure.Services.Authentication.Setup.{AreOf, AreOf-append, new_service-AreOf}

-- The service of the settings.
pub record IsComposed (settings : Settings) (oidc : OidcProvider) (service : AuthenticationService)
    : Type 0 where
  pub provider : service.oidc ≡ oidc
  pub tenant : service.tenant_id ≡ settings.entra_tenant_id
  pub identities : service.configured_identities ≡ configured_identities settings
  pub returns_to : service.callback_url ≡ callback_url settings
  pub lifetimes :
      (service.attempt_lifetime ≡ minutes settings.oidc_login_attempt_minutes)
      × (service.idle_lifetime ≡ minutes settings.admin_session_idle_minutes)
      × (service.absolute_lifetime ≡ hours settings.admin_session_absolute_hours)
  pub touch : service.touch_interval ≡ minutes 5
  pub idle_first : service.idle_lifetime ≤ service.absolute_lifetime

AreOf-map :
    (t : ℕ) (kind : AdminIdentityKind) (ids : List ℕ) → AreOf t (map (configured_ref t kind) ids)
AreOf-map t kind [] = tt
AreOf-map t kind (i ∷ ids) = (refl, AreOf-map t kind ids)

someone_configured : (settings : Settings) → IsSecure settings → configured_identities settings ≢ []
someone_configured settings s = elim s.someone [
  | inl users ↦ left settings.admin_user_object_ids settings.admin_group_object_ids users
  | inr groups ↦ right settings.admin_user_object_ids settings.admin_group_object_ids groups
]
  where
    left :
        (users groups : List ℕ)
        → users ≢ []
        → map (configured_ref settings.entra_tenant_id user) users
            ++ map (configured_ref settings.entra_tenant_id group) groups
          ≢ []
    left [] groups ne e = ne refl
    left (u ∷ users) groups ne e = cc

    right :
        (users groups : List ℕ)
        → groups ≢ []
        → map (configured_ref settings.entra_tenant_id user) users
            ++ map (configured_ref settings.entra_tenant_id group) groups
          ≢ []
    right (u ∷ users) groups ne e = cc
    right [] [] ne e = ne refl
    right [] (g ∷ groups) ne e = cc

pub compose :
    (settings : Settings) (oidc : OidcProvider)
    → IsSecure settings
    → (service : AuthenticationService) × (get_authentication_service settings oidc ≡ ok service)
      × IsComposed settings oidc service
unfolding get_authentication_service
compose settings oidc s = (
  _,
  new_service-AreOf settings.entra_tenant_id oidc (configured_identities settings)
      (callback_url settings) (minutes settings.oidc_login_attempt_minutes)
      (minutes settings.admin_session_idle_minutes) (hours settings.admin_session_absolute_hours)
      (minutes 5)
      (AreOf-append settings.entra_tenant_id
        (map (configured_ref settings.entra_tenant_id user) settings.admin_user_object_ids)
        (map (configured_ref settings.entra_tenant_id group) settings.admin_group_object_ids)
        (AreOf-map settings.entra_tenant_id user settings.admin_user_object_ids)
        (AreOf-map settings.entra_tenant_id group settings.admin_group_object_ids))
      (someone_configured settings s),
  record {
    provider = refl;
    tenant = refl;
    identities = refl;
    returns_to = refl;
    lifetimes = (refl, refl, refl);
    touch = refl;
    idle_first = omega (arith, s.idle_first);
  },
)

-- A configured identity: a user or a group of the settings, in their tenant.
pub record IsConfigured (settings : Settings) (r : AdminIdentityRef) : Type 0 where
  pub tenant : r.tenant_id ≡ settings.entra_tenant_id
  pub listed :
      ((r.kind ≡ user) × In r.object_id settings.admin_user_object_ids)
      ⊎ ((r.kind ≡ group) × In r.object_id settings.admin_group_object_ids)

module _ (settings : Settings) (r : AdminIdentityRef) where
  In-IsConfigured : In r (configured_identities settings) → IsConfigured settings r
  In-IsConfigured i =
      elim (In-append
        (map (configured_ref settings.entra_tenant_id user) settings.admin_user_object_ids) _ i) [
          | inl j ↦
              let (u, k, e) = In-map (configured_ref settings.entra_tenant_id user) _ j in
              rw (← e) (record { tenant = refl; listed = inl (refl, k) })
          | inr j ↦
              let (g, k, e) = In-map (configured_ref settings.entra_tenant_id group) _ j in
              rw (← e) (record { tenant = refl; listed = inr (refl, k) })
        ]

  IsConfigured-In : IsConfigured settings r → In r (configured_identities settings)
  IsConfigured-In c = elim c.listed [
    | inl (kind, i) ↦
        rw (← same user c.tenant kind)
          (append-In_left _ (map-In (configured_ref settings.entra_tenant_id user) i))
    | inr (kind, i) ↦
        rw (← same group c.tenant kind)
          (append-In_right _ (map-In (configured_ref settings.entra_tenant_id group) i))
  ]
    where
      same :
          (k : AdminIdentityKind)
          → r.tenant_id ≡ settings.entra_tenant_id
          → r.kind ≡ k
          → configured_ref settings.entra_tenant_id k r.object_id ≡ r
      same k tenant kind i = record {
        tenant_id = sym tenant i;
        kind = sym kind i;
        object_id = r.object_id;
      }

-- The service of the settings, in their own terms; a lifetime is in microseconds.
pub record IsServiceOf (settings : Settings) (oidc : OidcProvider) (service : AuthenticationService)
    : Type 0 where
  pub provider : service.oidc ≡ oidc
  pub tenant : service.tenant_id ≡ settings.entra_tenant_id
  pub identities :
      (r : AdminIdentityRef) → In r service.configured_identities ↔ IsConfigured settings r
  pub returns_to : IsCallbackUrl settings.public_base_url.text service.callback_url
  pub attempt_lifetime : service.attempt_lifetime ≡ settings.oidc_login_attempt_minutes * 60000000
  pub idle_lifetime : service.idle_lifetime ≡ settings.admin_session_idle_minutes * 60000000
  pub absolute_lifetime :
      service.absolute_lifetime ≡ settings.admin_session_absolute_hours * 3600000000
  pub touch_interval : service.touch_interval ≡ 300000000
  pub idle_first : service.idle_lifetime < service.absolute_lifetime

IsComposed-IsServiceOf :
    (settings : Settings) (oidc : OidcProvider) (service : AuthenticationService)
    → IsSecure settings
    → IsComposed settings oidc service
    → IsServiceOf settings oidc service
IsComposed-IsServiceOf settings oidc service s c = record {
  provider = c.provider;
  tenant = c.tenant;
  identities = λ r. rw c.identities (In-IsConfigured settings r, IsConfigured-In settings r);
  returns_to = rw c.returns_to (callback_url_lem settings);
  attempt_lifetime = c.lifetimes.0;
  idle_lifetime = c.lifetimes.1;
  absolute_lifetime = c.lifetimes.2;
  touch_interval = c.touch;
  idle_first = omega (arith, s.idle_first, c.lifetimes.1, c.lifetimes.2);
}

-- Whenever the settings load, a request composes its service: with the given provider, of the
-- configured tenant; its identities are exactly the configured users and the configured groups, in
-- that tenant; its callback URL is the base URL without its last slashes, and then the path of the
-- callback; its lifetimes are the configured ones, the idle one below the absolute one, and its touch
-- interval is five minutes.
pub get_authentication_service-load :
    (read : String → Option ℕ) (raw : RawSettings) (settings : Settings) (oidc : OidcProvider)
    → load read raw ≡ ok settings
    → (service : AuthenticationService) × (get_authentication_service settings oidc ≡ ok service)
      × IsServiceOf settings oidc service
get_authentication_service-load read raw settings oidc h =
    let secure = ((load-eq-ok_iff read raw settings).0 h).secure in
    let (service, made, composed) = compose settings oidc secure in
    (service, made, IsComposed-IsServiceOf settings oidc service secure composed)
