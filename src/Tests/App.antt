-- ===== src/Tests/App.antt =====
-- Requests through the application at concrete inputs.
use pullfrog_azure.Prelude.{
  none, ℕ, ◌+◌, keep, sort_by, ◌≡◌, refl, false, some, arith, here, there, text_length, any, all,
  is_ascii,
}
use pullfrog_azure.Prelude.Int.{pos}
use pullfrog_azure.Api.AuthCookies.{Response, no_body, clear_admin_cookies}
use pullfrog_azure.Api.AuthCookies.Jar.{Jar, receive_all}
use pullfrog_azure.App.Cookies.{IsLeft, callback-IsLeft}
use pullfrog_azure.Api.Dependencies.{get_authentication_service}
use pullfrog_azure.Api.Routes.{reply, callback, callback_success}
use pullfrog_azure.App.{Surroundings, get_me, get_callback, post_logout, handle}
use pullfrog_azure.App.Served.{none_yet, after_request, IsSound, served-IsSound}
use pullfrog_azure.Auth.Domain.{lookup, ref_eq}
use pullfrog_azure.Auth.Policy.{contains_ref, select_authorizer}
use pullfrog_azure.Models.{Database}
use pullfrog_azure.Outcome.{ok}
use pullfrog_azure.Providers.EntraOidc.{
  Msal, exchange, validate_id_token_claims, retained_claims, optional_string, group_claims,
  has_group_overage,
}
use pullfrog_azure.Repositories.AdminIdentities.{find_matches}
use pullfrog_azure.Repositories.Table.{find_by, delete_by}
use pullfrog_azure.Repositories.AdminSessions
use pullfrog_azure.Repositories.LoginAttempts.{consume}
use pullfrog_azure.Providers.EntraClient.{entra_provider}
use pullfrog_azure.Services.Authentication.{
  LoginCompletion, complete_login, require_claim_uuid, parse_all, new_service,
}
use pullfrog_azure.Services.Readiness.{answered}
use pullfrog_azure.Tests.Config.{small_raw, small_settings, loaded}
use pullfrog_azure.Tests.Data.{
  small_platform, small_flow, small_callback, small_database, sessions-IsConsistent,
}
use pullfrog_azure.Values.{get, Entries, end, entry, str, int, dict, list, nil, cons}

-- a token of the tenant and the client of the settings
abbrev entra_token : Entries
entra_token = entry (str "iss") (str "https://login.microsoftonline.com/t/v2.0") (
    entry (str "aud") (str "a") (
      entry (str "exp") (int (pos 10)) (
        entry (str "nonce") (str "0f") (
          entry (str "tid") (str "t") (
            entry (str "oid") (str "uu")
              (entry (str "groups") (list (cons (str "ggg") nil)) end))))))

abbrev pub entra_msal : Msal
entra_msal = record {
  initiate_auth_code_flow = λ uri. ok (dict small_flow);
  acquire_token_by_auth_code_flow =
      λ flow callback. ok (dict (entry (str "id_token_claims") (dict entra_token) end));
}

abbrev pub at_instant : ℕ → Surroundings
at_instant now = record {
  now = now;
  now_after = now + 1;
  now_seconds = 5;
  attempt_token = "abcdef";
  session_token = "abc";
  csrf_token = "abcd";
  id = 8;
  locked = λ k. false;
  msal = λ options. entra_msal;
  query = answered (ok tt);
}

pub database-IsSound : IsSound small_database
unfolding text_length
database-IsSound = record {
  sessions = sessions-IsConsistent;
  attempts = record {
    consistent = record { digests = (tt, tt); ids = (tt, tt) };
    local = λ row i. elim i [
      | here e ↦
          rw (← e) (record { fits = omega arith; safe = ground arith; rooted = ground arith })
      | there j ↦ elim j [ ]
    ];
  };
}

served-IsSound_example :
    IsSound
      (handle small_platform small_settings
        (at_instant 20)
        (get_me (some "abcde"))
        small_database).1
served-IsSound_example =
    served-IsSound small_platform small_platform.parse_uuid small_raw small_settings small_database
      (handle small_platform small_settings (at_instant 20) (get_me (some "abcde"))
        small_database).1
      loaded database-IsSound (after_request none_yet (at_instant 20) (get_me (some "abcde")))

abbrev logged_out : Response
logged_out = clear_admin_cookies (reply 204 no_body) false

abbrev database_after : Database
database_after =
    (handle small_platform small_settings (at_instant 20)
      (post_logout (some "abcde") (some "abcdef") (some "abcdef")) small_database).1

-- a browser with a cookie of every name and path
abbrev pub full_jar : Jar
full_jar key path = some (record { value = "v"; expires = 100; secure = false; httponly = false })

abbrev completion : LoginCompletion
completion = record {
  return_to = "/x";
  session_token = "abc";
  csrf_token = "abcd";
  admin = record {
    session_id = 8;
    display_name = none;
    idle_expires_at = 1800000002;
    absolute_expires_at = 28800000002;
    csrf_token_digest = 4;
  };
}

abbrev database_signed_in : Database
database_signed_in =
    (handle small_platform small_settings (at_instant 2) (get_callback (some "ab") small_callback)
      small_database).1

callback_run :
    handle small_platform small_settings
      (at_instant 2)
      (get_callback (some "ab") small_callback)
      small_database
    ≡ (ok (callback_success false completion), database_signed_in)
unfolding handle get_authentication_service new_service callback complete_login require_claim_uuid
    consume find_by delete_by parse_all find_matches select_authorizer AdminSessions.create
    text_length contains_ref sort_by any keep ref_eq exchange entra_provider all get lookup
    validate_id_token_claims is_ascii retained_claims optional_string group_claims has_group_overage
callback_run = refl

-- another administrator's request in between
abbrev database_later : Database
database_later =
    (handle small_platform small_settings (at_instant 10) (get_me (some "abcde"))
      database_signed_in).1

callback-IsLeft_example :
    IsLeft small_settings
      (at_instant 2)
      small_database
      database_signed_in
      (callback_success false completion)
      full_jar
      (receive_all (callback_success false completion).cookies full_jar)
callback-IsLeft_example =
    callback-IsLeft small_platform small_settings (at_instant 2) (some "ab") small_callback
      small_platform.parse_uuid small_raw small_database database_signed_in
      (callback_success false completion) full_jar loaded database-IsSound callback_run
