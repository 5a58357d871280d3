-- ===== src/Config/Security.antt =====
-- The validators of the public URL and of the deployment's security.
use pullfrog_azure.Prelude.{
  ℕ, ◌*◌, ◌<◌, String, ◌≡◌, refl, ◌≢◌, ◌↔◌, ◌⊎◌, inl, inr, true, false, ◌||◌, Option, none, some,
  List, [], ◌∷◌, arith, str_eq, str_eq_iff, is_empty, ap, sym, ◌∙◌,
}
use pullfrog_azure.Config.{
  is_nil, is_given, BaseUrl, Settings, require_origin_only_public_base_url,
  validate_deployment_security, is_loopback, secure_cookies,
}
use pullfrog_azure.Outcome.{ok, ok_inj}

-- No credentials, query, fragment or path.
pub record IsOrigin (u : BaseUrl) : Type 0 where
  pub no_credentials : (u.username ≡ none) × (u.password ≡ none)
  pub no_suffix : (u.query ≡ none) × (u.fragment ≡ none)
  pub no_path : (u.path ≡ "") ⊎ (u.path ≡ "/")

abbrev pub IsLoopback : Option String → Type 0
IsLoopback host = (host ≡ some "localhost") ⊎ (host ≡ some "127.0.0.1") ⊎ (host ≡ some "::1")

-- Settings that the deployment is safe with.
pub record IsSecure (s : Settings) : Type 0 where
  -- cookies go without `Secure` exactly over HTTP, and that only on a loopback host
  pub transport :
      ((s.public_base_url.scheme ≡ "http")
        × (secure_cookies s ≡ false)
        × IsLoopback s.public_base_url.hostname)
      ⊎ ((s.public_base_url.scheme ≢ "http") × (secure_cookies s ≡ true))
  pub someone : (s.admin_user_object_ids ≢ []) ⊎ (s.admin_group_object_ids ≢ [])
  pub idle_first : s.admin_session_idle_minutes < s.admin_session_absolute_hours * 60

is_loopback-IsLoopback : (host : Option String) → is_loopback host ≡ true → IsLoopback host
is_loopback-IsLoopback none h = cc
is_loopback-IsLoopback (some name) h =
    ground (arith, str_eq_iff name "localhost", str_eq_iff name "127.0.0.1", str_eq_iff name "::1")

IsLoopback-is_loopback : (host : Option String) → IsLoopback host → is_loopback host ≡ true
IsLoopback-is_loopback none h = ground arith
IsLoopback-is_loopback (some name) h =
    ground (arith, str_eq_iff name "localhost", str_eq_iff name "127.0.0.1", str_eq_iff name "::1")

is_nil-false : (xs : List ℕ) → is_nil xs ≡ false → xs ≢ []
is_nil-false [] h e = cc
is_nil-false (x ∷ xs) h e = cc

ne_nil-is_nil : (xs : List ℕ) → xs ≢ [] → is_nil xs ≡ false
ne_nil-is_nil [] h = absurd (h refl)
ne_nil-is_nil (x ∷ xs) h = refl

module _ (s : Settings) where
  ok-IsSecure : (t : Settings) → validate_deployment_security s ≡ ok t → IsSecure s
  unfolding validate_deployment_security
  ok-IsSecure t h = record {
    transport = ground (
      arith,
      str_eq_iff s.public_base_url.scheme "http",
      is_loopback-IsLoopback s.public_base_url.hostname,
    );
    someone =
        ground (arith, is_nil-false s.admin_user_object_ids, is_nil-false s.admin_group_object_ids);
    idle_first = ground arith;
  }

  pub IsSecure-ok : IsSecure s → validate_deployment_security s ≡ ok s
  unfolding validate_deployment_security
  IsSecure-ok h = ground (
    arith,
    h.transport,
    h.someone,
    h.idle_first,
    str_eq_iff s.public_base_url.scheme "http",
    IsLoopback-is_loopback s.public_base_url.hostname,
    ne_nil-is_nil s.admin_user_object_ids,
    ne_nil-is_nil s.admin_group_object_ids,
  )

  ok_same : (t : Settings) → validate_deployment_security s ≡ ok t → s ≡ t
  ok_same t h = ok_inj (sym (IsSecure-ok (ok-IsSecure t h)) ∙ h)

-- The model's own validation passes exactly secure settings, and leaves them as they are.
pub validate_deployment_security-eq-ok_iff :
    (s t : Settings) → (validate_deployment_security s ≡ ok t) ↔ ((s ≡ t) × IsSecure s)
validate_deployment_security-eq-ok_iff s t =
    (λ h. (ok_same s t h, ok-IsSecure s t h), λ h. IsSecure-ok s h.1 ∙ ap ok h.0)

is_given-none : (o : Option String) → is_given o ≡ false → o ≡ none
is_given-none none h = refl
is_given-none (some t) h = cc

is_empty_nil : (t : String) → is_empty t ≡ true → t ≡ ""
is_empty_nil String.[] h = refl
is_empty_nil (String.◌∷◌ c t) h = cc

module _ (u : BaseUrl) where
  ok-IsOrigin : (v : BaseUrl) → require_origin_only_public_base_url u ≡ ok v → IsOrigin u
  unfolding require_origin_only_public_base_url
  ok-IsOrigin v h = record {
    no_credentials =
        (is_given-none u.username (ground arith), is_given-none u.password (ground arith));
    no_suffix = (is_given-none u.query (ground arith), is_given-none u.fragment (ground arith));
    no_path = ground (arith, is_empty_nil u.path, str_eq_iff u.path "/");
  }

  pub IsOrigin-ok : IsOrigin u → require_origin_only_public_base_url u ≡ ok u
  unfolding require_origin_only_public_base_url
  IsOrigin-ok h = rw (
    h.no_credentials.0,
    h.no_credentials.1,
    h.no_suffix.0,
    h.no_suffix.1,
    no_path u.path h.no_path,
  )
    where
      no_path :
          (path : String) → (path ≡ "") ⊎ (path ≡ "/") → (is_empty path || str_eq path "/") ≡ true
      no_path path (inl e) = rw e
      no_path path (inr e) = rw e ((str_eq_iff "/" "/").1 refl)

pub require_origin_only_public_base_url-eq-ok_iff :
    (u v : BaseUrl) → (require_origin_only_public_base_url u ≡ ok v) ↔ ((u ≡ v) × IsOrigin u)
require_origin_only_public_base_url-eq-ok_iff u v = (
  λ h. let o = ok-IsOrigin u v h in (ok_inj (sym (IsOrigin-ok u o) ∙ h), o),
  λ h. IsOrigin-ok u h.1 ∙ ap ok h.0,
)
