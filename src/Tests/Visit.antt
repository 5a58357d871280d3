-- ===== src/Tests/Visit.antt =====
-- A whole visit at a concrete input.
use pullfrog_azure.Prelude.{
  ◌≡◌, refl, ap, inr, some, [], ◌∷◌, arith, text_length, any, all, is_ascii, any_char, sort_by,
  keep,
}
use pullfrog_azure.Api.Dependencies.{minutes, hours, get_authentication_service}
use pullfrog_azure.App.Isolation.{IsOtherSession, Elsewhere, none_else, after_other}
use pullfrog_azure.App.Visit.Login.{login-LeadsOut}
use pullfrog_azure.Config.Accepted.{load-eq-ok_iff}
use pullfrog_azure.Models.{Database}
use pullfrog_azure.App.{get_login, get_callback, get_me, handle, Surroundings, service_of}
use pullfrog_azure.App.Visit.{IsVisit, login_to_logout-IsVisit}
use pullfrog_azure.Auth.Domain.{AdminIdentityRef, group, ref_eq, lookup}
use pullfrog_azure.Auth.Policy.{
  validate_return_to, has_unsafe_characters, urlsplit, contains_ref, select_authorizer,
}
use pullfrog_azure.Auth.Policy.Selection.{select_authorizer-eq-some_iff}
use pullfrog_azure.Config.{callback_url}
use pullfrog_azure.Outcome.{ok}
use pullfrog_azure.Providers.EntraClient.{entra_provider, as_oidc}
use pullfrog_azure.Providers.EntraOidc.{
  begin, exchange, validate_id_token_claims, retained_claims, optional_string, group_claims,
  has_group_overage, require_json_object, is_json_value,
}
use pullfrog_azure.Repositories.LoginAttempts.{without_expired, expired_ids}
use pullfrog_azure.Repositories.Table.{find_by}
use pullfrog_azure.Services.Authentication.{
  AuthenticationService, new_service, parse_all, require_claim_uuid,
}
use pullfrog_azure.Services.Authentication.Begun.{IsFreshAttempt}
use pullfrog_azure.Services.Authentication.Grounds.{IsAuthorized, IsFresh, IsFresh-of}
use pullfrog_azure.Tests.App.{at_instant, database-IsSound, full_jar}
use pullfrog_azure.Tests.Config.{small_raw, small_settings, loaded}
use pullfrog_azure.Tests.Data.{
  small_platform, small_authorization, small_callback, small_claims, small_database, other_user,
  some_group,
}
use pullfrog_azure.Values.{get}

abbrev w₂ : Surroundings
w₂ = at_instant 21

abbrev four_group : AdminIdentityRef
four_group = record { tenant_id = 1; kind = group; object_id = 4 }

abbrev service : AuthenticationService
service = record {
  oidc = as_oidc small_platform (entra_provider small_platform w₂.msal small_settings) 5;
  configured_identities = other_user ∷ four_group ∷ [];
  tenant_id = 1;
  callback_url = callback_url small_settings;
  attempt_lifetime = minutes 10;
  idle_lifetime = minutes 30;
  absolute_lifetime = hours 8;
  touch_interval = minutes 5;
}

made : service_of small_platform small_settings w₂ ≡ ok service
unfolding get_authentication_service new_service all
made = refl

valid : validate_return_to small_platform (some "/y") ≡ ok "/y"
unfolding validate_return_to text_length any has_unsafe_characters any_char urlsplit
valid = refl

given :
    begin
      (entra_provider small_platform (at_instant 20).msal small_settings)
      (callback_url small_settings)
    ≡ ok small_authorization
unfolding begin entra_provider get require_json_object is_json_value
given = refl

redeemed :
    exchange small_platform
      (entra_provider small_platform w₂.msal small_settings)
      5
      small_authorization.flow
      small_callback
    ≡ ok small_claims
unfolding exchange entra_provider validate_id_token_claims retained_claims optional_string
    group_claims has_group_overage get lookup is_ascii
redeemed = refl

fresh_attempt : IsFreshAttempt (at_instant 20).locked 20 8 6 small_database
unfolding find_by keep without_expired any expired_ids sort_by
fresh_attempt = record { digest_free = refl; id_free = refl }

authorized : IsAuthorized small_platform service small_claims small_database
unfolding require_claim_uuid text_length select_authorizer sort_by contains_ref any ref_eq parse_all
authorized = record {
  user_object_id = 2;
  groups = 3 ∷ [];
  authorizer = some_group;
  tenant = refl;
  user = refl;
  group_set = inr (refl, refl);
  authorized =
      (select_authorizer-eq-some_iff (other_user ∷ four_group ∷ some_group ∷ []) 1 2 (3 ∷ [])
          some_group).0
        refl;
}

abbrev at_callback : Database
at_callback =
    (handle small_platform small_settings (at_instant 20) (get_login (some "/y")) small_database).1

free_before : IsFresh 8 3 small_database
unfolding find_by
free_before = record { digest_free = refl; id_free = refl }

free : IsFresh 8 3 at_callback
unfolding text_length
free =
    let started =
      login-LeadsOut small_platform small_settings (at_instant 20) (some "/y") "/y"
        small_authorization small_database full_jar
        ((load-eq-ok_iff small_platform.parse_uuid small_raw small_settings).0 loaded).secure valid
        given fresh_attempt in
    rw (ap (λ x. x.1) started.run)
      (IsFresh-of 8 3 small_database started.db' started.sessions free_before)

abbrev signed_in : Database
signed_in =
    (handle small_platform small_settings w₂ (get_callback (some "abcdef") small_callback)
      at_callback).1

-- another administrator's request
abbrev at_me : Database
at_me = (handle small_platform small_settings (at_instant 21) (get_me (some "abcde")) signed_in).1

abbrev at_logout : Database
at_logout = (handle small_platform small_settings (at_instant 22) (get_me (some "abc")) at_me).1

other_me : Elsewhere small_platform small_settings (IsOtherSession small_platform 3) signed_in at_me
unfolding text_length
other_me = after_other none_else (at_instant 21) (get_me (some "abcde")) (λ e. omega arith)

login_to_logout-IsVisit_example :
    IsVisit small_platform small_settings
      (at_instant 20)
      w₂
      (at_instant 22)
      (at_instant 1800000020)
      (some "/y")
      "/y"
      small_authorization
      small_callback
      small_database
      at_callback
      at_me
      at_logout
      full_jar
      service
unfolding text_length
login_to_logout-IsVisit_example =
    login_to_logout-IsVisit small_platform small_settings small_platform.parse_uuid small_raw loaded
      (at_instant 20) w₂ (at_instant 22) (at_instant 1800000020) (some "/y") "/y"
      small_authorization small_callback small_claims service small_database at_callback at_me
      at_logout full_jar database-IsSound valid given fresh_attempt refl none_else (omega arith)
      redeemed made authorized free refl
      (ground arith, (ground arith, (ground arith, (ground arith, tt)))) other_me (omega arith)
      (omega arith) none_else (omega arith) (omega arith)
