-- ===== src/Tests/Session.antt =====
-- The operations of a session at concrete inputs.
use pullfrog_azure.Prelude.{◌⊎◌, refl, false, none, some, [], ◌≡◌, text_length, arith, any, find}
use pullfrog_azure.Auth.Domain.{authentication_error, invalid_session, ref_eq}
use pullfrog_azure.Auth.Policy.{contains_ref}
use pullfrog_azure.Models.{Database}
use pullfrog_azure.Outcome.{ok, raise}
use pullfrog_azure.Repositories.AdminIdentities.{is_configured}
use pullfrog_azure.Repositories.AdminSessions
use pullfrog_azure.Repositories.AdminSessions.{get_active_and_touch}
use pullfrog_azure.Repositories.Table.{find_by, update_by}
use pullfrog_azure.Services.Authentication.{AuthenticatedAdmin, current_admin}
use pullfrog_azure.Services.Authentication.Session.{IsCurrent, current_admin_sound}
use pullfrog_azure.Services.Authentication.Session.{known_refs}
use pullfrog_azure.Repositories.AdminSessions.{new_row}
use pullfrog_azure.Services.Authentication.Logout.{logged_out_forever, deauthorized_forever}
use pullfrog_azure.Services.Authentication.Csrf.{require_csrf-eq-ok_iff}
use pullfrog_azure.Services.Authentication.{logout, require_csrf}
use pullfrog_azure.Auth.Domain.{csrf_failed, type_error}
use pullfrog_azure.Auth.Tokens.Csrf.{IsProof}
use pullfrog_azure.Prelude.{◌↔◌}
use pullfrog_azure.Repositories.AdminSessions.Lifetime.{start}
use pullfrog_azure.Tests.Data.{
  sessions-IsConsistent, session_row, some_group, small_platform, small_service, small_database,
}

abbrev seen_database : Database
seen_database = (current_admin small_platform small_service (some "abcde") 20 small_database).1

abbrev seen_admin : AuthenticatedAdmin
seen_admin = record {
  session_id = 7;
  display_name = none;
  idle_expires_at = 50;
  absolute_expires_at = 100;
  csrf_token_digest = 6;
}

current_admin_run :
    current_admin small_platform small_service (some "abcde") 20 small_database
    ≡ (ok seen_admin, seen_database)
unfolding current_admin get_active_and_touch find_by update_by is_configured contains_ref ref_eq
    find any text_length
current_admin_run = refl

current_admin_sound_example :
    IsCurrent small_platform small_service (some "abcde") 20 small_database seen_admin
current_admin_sound_example =
    current_admin_sound small_platform small_service (some "abcde") 20 small_database seen_database
      seen_admin current_admin_run

own_session :
    find_by AdminSessions.by_digest (small_platform.sha256 "abcde") small_database.admin_session
    ≡ some session_row
unfolding find_by text_length
own_session = refl

logged_out_forever_example :
    (current_admin small_platform small_service
      (some "abcde")
      22
      (logout small_platform small_service seen_admin 21 small_database).1).0
    ≡ raise (authentication_error invalid_session)
logged_out_forever_example =
    logged_out_forever small_platform small_service "abcde" seen_admin 21 22 small_database
      (logout small_platform small_service seen_admin 21 small_database).1 session_row
      sessions-IsConsistent own_session refl start

abbrev bare_database : Database
bare_database = record small_database { admin_identity = [] }

unknown : contains_ref (known_refs small_platform small_service bare_database) some_group ≡ false
unfolding contains_ref any ref_eq
unknown = refl

deauthorized_forever_example :
    ((current_admin small_platform small_service (some "abcde") 20 bare_database).0
      ≡ raise (authentication_error invalid_session))
    × ((current_admin small_platform small_service
          (some "abcde")
          25
          (current_admin small_platform small_service (some "abcde") 20 bare_database).1).0
        ≡ raise (authentication_error invalid_session))
deauthorized_forever_example =
    deauthorized_forever small_platform small_service "abcde" 20 bare_database session_row 25
      (current_admin small_platform small_service (some "abcde") 20 bare_database).1 refl
      sessions-IsConsistent own_session
      (record { unrevoked = refl; not_idle = omega arith; not_over = omega arith }) unknown start

require_csrf-eq-ok_iff_example :
    ((require_csrf small_platform small_service seen_admin (some "abcdef") (some "abcdef") ≡ ok tt)
      ↔ IsProof small_platform (some "abcdef") (some "abcdef") 6)
    × ((require_csrf small_platform small_service seen_admin (some "abcdef") (some "abcdef")
          ≡ ok tt)
        ⊎ (require_csrf small_platform small_service seen_admin (some "abcdef") (some "abcdef")
            ≡ raise (authentication_error csrf_failed))
        ⊎ (require_csrf small_platform small_service seen_admin (some "abcdef") (some "abcdef")
            ≡ raise type_error))
require_csrf-eq-ok_iff_example =
    require_csrf-eq-ok_iff small_platform small_service seen_admin (some "abcdef") (some "abcdef")
