-- ===== src/Config/Accepted.antt =====
-- Which settings load, and what they guarantee.
use pullfrog_azure.Prelude.{ℕ, String, ◌≡◌, refl, ◌↔◌, Option, List, arith, ap, sym, ◌∙◌}
use pullfrog_azure.Prelude.Int.{pos}
use pullfrog_azure.Config.{
  BaseUrl, RawSettings, Settings, identity_ids, require_origin_only_public_base_url,
  validate_deployment_security, load, bounded, float_up_to, infinity_bits, thirty_bits, sixty_bits,
}
use pullfrog_azure.Outcome.{ok, >>=-eq-ok, >>=-of-ok}
use pullfrog_azure.Config.Ranges.{
  IsWithin, bounded_sound, float_sound, bounded_complete, float_complete,
  identity_ids-IsDistinctList,
}
use pullfrog_azure.Config.Security.{
  IsSecure, IsOrigin, IsOrigin-ok, IsSecure-ok, validate_deployment_security-eq-ok_iff,
  require_origin_only_public_base_url-eq-ok_iff,
}

-- Accepted settings are secure, of an origin, within their ranges and without duplicates; the
-- identities are those that were given, and the URL is the one that was given.
pub record IsAccepted (read : String → Option ℕ) (raw : RawSettings) (s : Settings) : Type 0 where
  pub secure : IsSecure s
  pub origin : IsOrigin s.public_base_url
  pub within : IsWithin s
  pub same_url : s.public_base_url ≡ raw.public_base_url
  pub same_tenant : s.entra_tenant_id ≡ raw.entra_tenant_id
  pub same_client :
      (s.entra_client_id ≡ raw.entra_client_id) × (s.entra_client_secret ≡ raw.entra_client_secret)
  pub same_flag : s.allow_insecure_local_cookies ≡ raw.allow_insecure_local_cookies
  pub same_idle : raw.admin_session_idle_minutes ≡ pos s.admin_session_idle_minutes
  pub same_absolute : raw.admin_session_absolute_hours ≡ pos s.admin_session_absolute_hours
  pub same_attempt : raw.oidc_login_attempt_minutes ≡ pos s.oidc_login_attempt_minutes
  pub same_readiness : raw.readiness_timeout_seconds ≡ s.readiness_timeout_seconds
  pub same_http : raw.oidc_http_timeout_seconds ≡ s.oidc_http_timeout_seconds
  pub same_operation : raw.oidc_operation_timeout_seconds ≡ s.oidc_operation_timeout_seconds
  pub users_given : identity_ids read raw.admin_user_object_ids ≡ ok s.admin_user_object_ids
  pub groups_given : identity_ids read raw.admin_group_object_ids ≡ ok s.admin_group_object_ids

module _ (read : String → Option ℕ) (raw : RawSettings) where
  abbrev assembled :
      (readiness : ℕ) (url : BaseUrl) (users groups : List ℕ)
      (idle absolute attempt http operation : ℕ)
      → Settings
  assembled readiness url users groups idle absolute attempt http operation = record {
    readiness_timeout_seconds = readiness;
    entra_tenant_id = raw.entra_tenant_id;
    entra_client_id = raw.entra_client_id;
    entra_client_secret = raw.entra_client_secret;
    public_base_url = url;
    admin_user_object_ids = users;
    admin_group_object_ids = groups;
    admin_session_idle_minutes = idle;
    admin_session_absolute_hours = absolute;
    oidc_login_attempt_minutes = attempt;
    allow_insecure_local_cookies = raw.allow_insecure_local_cookies;
    oidc_http_timeout_seconds = http;
    oidc_operation_timeout_seconds = operation;
  }

  accepted :
      (readiness : ℕ) (url : BaseUrl) (users groups : List ℕ)
      (idle absolute attempt http operation : ℕ) (s : Settings)
      → float_up_to raw.readiness_timeout_seconds infinity_bits ≡ ok readiness
      → require_origin_only_public_base_url raw.public_base_url ≡ ok url
      → identity_ids read raw.admin_user_object_ids ≡ ok users
      → identity_ids read raw.admin_group_object_ids ≡ ok groups
      → bounded raw.admin_session_idle_minutes 10 1440 ≡ ok idle
      → bounded raw.admin_session_absolute_hours 1 168 ≡ ok absolute
      → bounded raw.oidc_login_attempt_minutes 1 10 ≡ ok attempt
      → float_up_to raw.oidc_http_timeout_seconds thirty_bits ≡ ok http
      → float_up_to raw.oidc_operation_timeout_seconds sixty_bits ≡ ok operation
      → validate_deployment_security
          (assembled readiness url users groups idle absolute attempt http operation)
        ≡ ok s
      → IsAccepted read raw s
  accepted readiness url users groups idle absolute attempt http operation s e₁ e₂ e₃ e₄ e₅ e₆ e₇ e₈
        e₉ h =
      let (same, secure) =
        (validate_deployment_security-eq-ok_iff
            (assembled readiness url users groups idle absolute attempt http operation) s).0
          h in
      let (same_url, origin) =
        (require_origin_only_public_base_url-eq-ok_iff raw.public_base_url url).0 e₂ in
      rw (← same) (record {
        secure = secure;
        origin = rw (← same_url) origin;
        within = record {
          idle = (bounded_sound raw.admin_session_idle_minutes 10 1440 idle e₅).1;
          absolute = (bounded_sound raw.admin_session_absolute_hours 1 168 absolute e₆).1;
          attempt = (bounded_sound raw.oidc_login_attempt_minutes 1 10 attempt e₇).1;
          timeouts = (
            (float_sound raw.readiness_timeout_seconds infinity_bits readiness e₁ (omega arith)).1,
            (float_sound raw.oidc_http_timeout_seconds thirty_bits http e₈ (omega arith)).1,
            (float_sound raw.oidc_operation_timeout_seconds sixty_bits operation e₉
                (omega arith)).1,
          );
          users = identity_ids-IsDistinctList read raw.admin_user_object_ids users e₃;
          groups = identity_ids-IsDistinctList read raw.admin_group_object_ids groups e₄;
        };
        same_url = sym same_url;
        same_tenant = refl;
        same_client = (refl, refl);
        same_flag = refl;
        same_idle = (bounded_sound raw.admin_session_idle_minutes 10 1440 idle e₅).0;
        same_absolute = (bounded_sound raw.admin_session_absolute_hours 1 168 absolute e₆).0;
        same_attempt = (bounded_sound raw.oidc_login_attempt_minutes 1 10 attempt e₇).0;
        same_readiness =
            (float_sound raw.readiness_timeout_seconds infinity_bits readiness e₁ (omega arith)).0;
        same_http = (float_sound raw.oidc_http_timeout_seconds thirty_bits http e₈ (omega arith)).0;
        same_operation =
            (float_sound raw.oidc_operation_timeout_seconds sixty_bits operation e₉
              (omega arith)).0;
        users_given = e₃;
        groups_given = e₄;
      })

load-IsAccepted :
    (read : String → Option ℕ) (raw : RawSettings) (s : Settings)
    → load read raw ≡ ok s
    → IsAccepted read raw s
unfolding load
load-IsAccepted read raw s h =
    let (readiness, e₁, h₁) =
      >>=-eq-ok (float_up_to raw.readiness_timeout_seconds infinity_bits) _ h in
    let (url, e₂, h₂) = >>=-eq-ok (require_origin_only_public_base_url raw.public_base_url) _ h₁ in
    let (users, e₃, h₃) = >>=-eq-ok (identity_ids read raw.admin_user_object_ids) _ h₂ in
    let (groups, e₄, h₄) = >>=-eq-ok (identity_ids read raw.admin_group_object_ids) _ h₃ in
    let (idle, e₅, h₅) = >>=-eq-ok (bounded raw.admin_session_idle_minutes 10 1440) _ h₄ in
    let (absolute, e₆, h₆) = >>=-eq-ok (bounded raw.admin_session_absolute_hours 1 168) _ h₅ in
    let (attempt, e₇, h₇) = >>=-eq-ok (bounded raw.oidc_login_attempt_minutes 1 10) _ h₆ in
    let (http, e₈, h₈) = >>=-eq-ok (float_up_to raw.oidc_http_timeout_seconds thirty_bits) _ h₇ in
    let (operation, e₉, h₉) =
      >>=-eq-ok (float_up_to raw.oidc_operation_timeout_seconds sixty_bits) _ h₈ in
    accepted read raw readiness url users groups idle absolute attempt http operation s e₁ e₂ e₃ e₄
      e₅ e₆ e₇ e₈ e₉ h₉

IsAccepted-load :
    (read : String → Option ℕ) (raw : RawSettings) (s : Settings)
    → IsAccepted read raw s
    → load read raw ≡ ok s
unfolding load
IsAccepted-load read raw s a =
    let w = a.within in
    >>=-of-ok _ _ (float_complete a.same_readiness w.timeouts.0 (omega arith))
    ∙ >>=-of-ok _ _ (
        ap require_origin_only_public_base_url (sym a.same_url)
        ∙ IsOrigin-ok s.public_base_url a.origin)
    ∙ >>=-of-ok _ _ a.users_given
    ∙ >>=-of-ok _ _ a.groups_given
    ∙ >>=-of-ok _ _ (bounded_complete a.same_idle w.idle)
    ∙ >>=-of-ok _ _ (bounded_complete a.same_absolute w.absolute)
    ∙ >>=-of-ok _ _ (bounded_complete a.same_attempt w.attempt)
    ∙ >>=-of-ok _ _ (float_complete a.same_http w.timeouts.1 (omega arith))
    ∙ >>=-of-ok _ _ (float_complete a.same_operation w.timeouts.2 (omega arith))
    ∙ ap validate_deployment_security same
    ∙ IsSecure-ok s a.secure
  where
    same :
        assembled read raw s.readiness_timeout_seconds s.public_base_url s.admin_user_object_ids
          s.admin_group_object_ids s.admin_session_idle_minutes s.admin_session_absolute_hours
          s.oidc_login_attempt_minutes s.oidc_http_timeout_seconds s.oidc_operation_timeout_seconds
        ≡ s
    same i = record s {
      entra_tenant_id = sym a.same_tenant i;
      entra_client_id = sym a.same_client.0 i;
      entra_client_secret = sym a.same_client.1 i;
      allow_insecure_local_cookies = sym a.same_flag i;
    }

pub load-eq-ok_iff :
    (read : String → Option ℕ) (raw : RawSettings) (s : Settings)
    → (load read raw ≡ ok s) ↔ IsAccepted read raw s
load-eq-ok_iff read raw s = (load-IsAccepted read raw s, IsAccepted-load read raw s)
