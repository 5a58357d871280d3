-- ===== src/Tests/Service.antt =====
-- The operations of a login at concrete inputs.
use pullfrog_azure.Prelude.{
  ℕ, Bool, ◌⊎◌, inr, any_char, ◌≤◌, refl, false, none, some, [], ◌∷◌, ◌≡◌, text_length, arith,
  sort_by, any, keep,
}
use pullfrog_azure.Auth.Domain.{
  authentication_error, invalid_login_attempt, ref_eq, integrity_error,
}
use pullfrog_azure.Auth.Policy.{
  contains_ref, select_authorizer, validate_return_to, urlsplit, has_unsafe_characters,
}
use pullfrog_azure.Models.{Database}
use pullfrog_azure.Outcome.{ok, raise}
use pullfrog_azure.Repositories.AdminIdentities.{find_matches}
use pullfrog_azure.Repositories.AdminSessions
use pullfrog_azure.Repositories.AdminSessions.{get_active_and_touch, revoke}
use pullfrog_azure.Repositories.LoginAttempts
use pullfrog_azure.Repositories.LoginAttempts.{consume, without_expired}
use pullfrog_azure.Repositories.AdminSessions.Lifetime.{attempted, revoked}
use pullfrog_azure.Repositories.LoginAttempts.Unstored.{at_once, after_step}
use pullfrog_azure.Repositories.Table.{find_by, delete_by}
use pullfrog_azure.Services.Authentication.{
  LoginCompletion, LoginStart, map_provider_error, complete_login, parse_all, require_claim_uuid,
  begin_login, resolve_authorizer,
}
use pullfrog_azure.Services.Authentication.Completion.{complete_login-replay}
use pullfrog_azure.Services.Authentication.SignIn.{IsSignedIn, complete_login_sound}
use pullfrog_azure.Services.Authentication.Login.{
  IsStarted, begin_login_sound, begin_login-eq-raise,
}
use pullfrog_azure.Services.Authentication.Authorization.{resolve_authorizer_lem}
use pullfrog_azure.Auth.Policy.Selection.{select_authorizer-eq-some_iff}
use pullfrog_azure.Repositories.AdminSessions.{AdminSessionRecord}
use pullfrog_azure.Services.Authentication.Grounds.{IsAuthorized}
use pullfrog_azure.Tests.Data.{
  other_user, some_group, small_claims, small_platform, small_service, small_callback,
  small_database, small_flow,
}

abbrev signed_in_database : Database
signed_in_database =
    (complete_login small_platform small_service (some "ab") small_callback 2 "abc" "abcd" 8
      small_database).1

abbrev completion : LoginCompletion
completion = record {
  return_to = "/x";
  session_token = "abc";
  csrf_token = "abcd";
  admin = record {
    session_id = 8;
    display_name = none;
    idle_expires_at = 32;
    absolute_expires_at = 102;
    csrf_token_digest = 4;
  };
}

complete_login_run :
    complete_login small_platform small_service
      (some "ab")
      small_callback
      2
      "abc"
      "abcd"
      8
      small_database
    ≡ (ok completion, signed_in_database)
unfolding complete_login require_claim_uuid consume find_by delete_by parse_all find_matches
    select_authorizer AdminSessions.create text_length contains_ref sort_by any keep ref_eq
complete_login_run = refl

complete_login_sound_example :
    IsSignedIn small_platform small_service
      (some "ab")
      small_callback
      2
      "abc"
      "abcd"
      8
      small_database
      completion
      signed_in_database
complete_login_sound_example =
    complete_login_sound small_platform small_service (some "ab") small_callback 2 "abc" "abcd" 8
      small_database signed_in_database completion complete_login_run

abbrev unlocked : ℕ → Bool
unlocked k = false

-- another login has started, and the new session was revoked
abbrev meanwhile_database : Database
meanwhile_database =
    (revoke 8 3 (LoginAttempts.create unlocked 6 9 small_flow "/" 2 12 signed_in_database).1).1

short_path : text_length "/" ≤ 2048
unfolding text_length
short_path = omega arith

complete_login-replay_example :
    (complete_login small_platform small_service
      (some "ab")
      small_callback
      3
      "s"
      "c"
      9
      meanwhile_database).0
    ≡ raise (authentication_error invalid_login_attempt)
unfolding text_length
complete_login-replay_example =
    complete_login-replay small_platform small_service "ab" small_callback small_callback 2 3 8 9
      "abc" "s" "abcd" "c" small_database meanwhile_database
      (after_step
        (after_step at_once
          (attempted unlocked 6 9 small_flow "/" 2 12
            (record { fits = short_path; safe = ground arith; rooted = refl }))
          (λ e. omega (arith, e)))
        (revoked 8 3) tt)

abbrev started_database : Database
started_database =
    (begin_login small_platform small_service (some "/x") 11 "abcdef" 5 unlocked small_database).1

abbrev login_start : LoginStart
login_start = record { authorization_uri = "u"; attempt_token = "abcdef"; attempt_expires_at = 21 }

begin_login_run :
    begin_login small_platform small_service (some "/x") 11 "abcdef" 5 unlocked small_database
    ≡ (ok login_start, started_database)
unfolding begin_login validate_return_to urlsplit has_unsafe_characters any_char
    LoginAttempts.create LoginAttempts.expired_ids without_expired text_length sort_by keep any
    find_by
begin_login_run = refl

begin_login_sound_example :
    IsStarted small_platform small_service
      (some "/x")
      11
      "abcdef"
      5
      unlocked
      small_database
      login_start
      started_database
begin_login_sound_example =
    begin_login_sound small_platform small_service (some "/x") 11 "abcdef" 5 unlocked small_database
      login_start started_database (record { digests = (tt, tt); ids = (tt, tt) }) begin_login_run

begin_login_fails :
    begin_login small_platform small_service (some "x") 11 "abcdef" 5 unlocked small_database
    ≡ (raise (authentication_error invalid_login_attempt), small_database)
unfolding begin_login validate_return_to urlsplit has_unsafe_characters any_char text_length
begin_login_fails = refl

begin_login-eq-raise_example :
    (small_database ≡ small_database)
    × ((validate_return_to small_platform (some "x")
          ≡ raise (authentication_error invalid_login_attempt))
        ⊎ (map_provider_error (small_service.oidc.begin small_service.callback_url)
            ≡ raise (authentication_error invalid_login_attempt))
        ⊎ (authentication_error invalid_login_attempt ≡ integrity_error))
begin_login-eq-raise_example =
    begin_login-eq-raise small_platform small_service (some "x") 11 "abcdef" 5 unlocked
      small_database (authentication_error invalid_login_attempt) small_database begin_login_fails

grouped : parse_all small_platform ("ggg" ∷ []) ≡ some (3 ∷ [])
unfolding parse_all text_length
grouped = refl

resolve_authorizer_lem_example :
    resolve_authorizer small_platform small_service 1 2 small_claims small_database
    ≡ (ok (select_authorizer 1 2 (3 ∷ []) (other_user ∷ some_group ∷ [])), small_database)
resolve_authorizer_lem_example =
    resolve_authorizer_lem small_platform small_service 1 2 small_claims (3 ∷ []) small_database
      (inr (refl, grouped))

authorized : IsAuthorized small_platform small_service small_claims small_database
unfolding require_claim_uuid text_length select_authorizer sort_by contains_ref any ref_eq
authorized = record {
  user_object_id = 2;
  groups = 3 ∷ [];
  authorizer = some_group;
  tenant = refl;
  user = refl;
  group_set = inr (refl, grouped);
  authorized =
      (select_authorizer-eq-some_iff (other_user ∷ some_group ∷ []) 1 2 (3 ∷ []) some_group).0 refl;
}
