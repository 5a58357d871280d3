-- ===== src/Tests/Config.antt =====
-- The settings, the readiness and the redaction at concrete inputs.
use pullfrog_azure.Prelude.{ℕ, ◌≡◌, refl, true, none, some, [], ◌∷◌, text_length, arith}
use pullfrog_azure.Prelude.Int.{pos}
use pullfrog_azure.Api.Dependencies.{get_authentication_service}
use pullfrog_azure.Api.Dependencies.Service.{IsServiceOf, get_authentication_service-load}
use pullfrog_azure.Config.{
  BaseUrl, RawSettings, Settings, uuids, texts, one_text, load, parse_identity_ids, identity_ids,
  reject_duplicate_identity_ids, require_origin_only_public_base_url, validate_deployment_security,
}
use pullfrog_azure.Config.Identities.{Entry, IsEntry, parse_identity_ids-join}
use pullfrog_azure.Outcome.{ok}
use pullfrog_azure.Services.Authentication.{AuthenticationService}
use pullfrog_azure.Tests.Data.{small_platform, small_oidc}

abbrev small_url : BaseUrl
small_url = record {
  text = "http://localhost/";
  scheme = "http";
  hostname = some "localhost";
  username = none;
  password = none;
  path = "/";
  query = none;
  fragment = none;
}

-- 3.0
abbrev three_bits : ℕ
three_bits = 0x4008000000000000

abbrev pub small_raw : RawSettings
small_raw = record {
  readiness_timeout_seconds = three_bits;
  entra_tenant_id = 1;
  entra_client_id = 2;
  entra_client_secret = "s";
  public_base_url = small_url;
  admin_user_object_ids = uuids (9 ∷ []);
  admin_group_object_ids = texts ("gggg" ∷ []);
  admin_session_idle_minutes = pos 30;
  admin_session_absolute_hours = pos 8;
  oidc_login_attempt_minutes = pos 10;
  allow_insecure_local_cookies = true;
  oidc_http_timeout_seconds = three_bits;
  oidc_operation_timeout_seconds = three_bits;
}

abbrev pub small_settings : Settings
small_settings = record {
  readiness_timeout_seconds = three_bits;
  entra_tenant_id = 1;
  entra_client_id = 2;
  entra_client_secret = "s";
  public_base_url = small_url;
  admin_user_object_ids = 9 ∷ [];
  admin_group_object_ids = 4 ∷ [];
  admin_session_idle_minutes = 30;
  admin_session_absolute_hours = 8;
  oidc_login_attempt_minutes = 10;
  allow_insecure_local_cookies = true;
  oidc_http_timeout_seconds = three_bits;
  oidc_operation_timeout_seconds = three_bits;
}

pub loaded : load small_platform.parse_uuid small_raw ≡ ok small_settings
unfolding load require_origin_only_public_base_url identity_ids parse_identity_ids
    reject_duplicate_identity_ids validate_deployment_security text_length
loaded = refl

get_authentication_service-load_example :
    (service : AuthenticationService) × (get_authentication_service small_settings small_oidc
      ≡ ok service)
    × IsServiceOf small_settings small_oidc service
get_authentication_service-load_example =
    get_authentication_service-load small_platform.parse_uuid small_raw small_settings small_oidc
      loaded

abbrev spaced : Entry
spaced = record { before = " "; name = "a-b"; behind = "" }

abbrev plain : Entry
plain = record { before = ""; name = "c"; behind = " " }

spaced-IsEntry : IsEntry spaced
spaced-IsEntry = record {
  blank_before = (refl, tt);
  trimmed = record { starts = refl; stops = ground arith };
  no_comma = (refl, (refl, (refl, tt)));
  blank_behind = tt;
}

plain-IsEntry : IsEntry plain
plain-IsEntry = record {
  blank_before = tt;
  trimmed = record { starts = refl; stops = ground arith };
  no_comma = (refl, tt);
  blank_behind = (refl, tt);
}

parse_identity_ids-join_example :
    parse_identity_ids (one_text " a-b,c ") ≡ ok (texts ("a-b" ∷ "c" ∷ []))
parse_identity_ids-join_example =
    parse_identity_ids-join spaced (plain ∷ []) spaced-IsEntry (plain-IsEntry, tt)
