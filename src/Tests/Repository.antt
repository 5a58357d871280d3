-- ===== src/Tests/Repository.antt =====
-- The repositories at concrete inputs.
use pullfrog_azure.Prelude.{
  ℕ, ◌≡◌, refl, Bool, false, some, none, List, [], ◌∷◌, arith, text_length, In, here, there, keep,
  any, sort_by,
}
use pullfrog_azure.Auth.Domain.{integrity_error}
use pullfrog_azure.Models.{AdminSession, OidcLoginAttempt, Database}
use pullfrog_azure.Outcome.{ok, raise}
use pullfrog_azure.Repositories.AdminSessions
use pullfrog_azure.Repositories.AdminSessions.{
  AdminSessionRecord, session_record, touched, by_digest, new_row, get_active_and_touch, revoke,
}
use pullfrog_azure.Repositories.AdminSessions.Laws as Sessions
use pullfrog_azure.Repositories.AdminSessions.Laws.{IsActive, Evolves}
use pullfrog_azure.Repositories.AdminSessions.Lifetime.{
  start, next, looked_up, revoked_forever, expired_forever, Reach-Evolves,
}
use pullfrog_azure.Repositories.AdminSessions.Lookup.{IsRecordOf, get_active_and_touch_sound}
use pullfrog_azure.Repositories.AdminSessions.Store.{
  admin_session_repository, Call, create_call, lookup_call, revoke_call, replies,
}
use pullfrog_azure.Repositories.LoginAttempts
use pullfrog_azure.Repositories.LoginAttempts.{consume, without_expired}
use pullfrog_azure.Repositories.LoginAttempts.Laws as Attempts
use pullfrog_azure.Repositories.LoginAttempts.Laws.{new_attempt, consume-create}
use pullfrog_azure.Repositories.LoginAttempts.Cleanup.{IsCleanup, create-IsCleanup}
use pullfrog_azure.Repositories.Table.{find_by, update_by}
use pullfrog_azure.Tests.Data.{small_database, small_flow, session_row, small_session}

sessions-IsConsistent : Sessions.IsConsistent small_database.admin_session
sessions-IsConsistent = record { digests = (tt, tt); ids = (tt, tt); valid = only }
  where
    only : (row : AdminSession) → In row (session_row ∷ []) → Sessions.IsValidRow row
    only row (here e) = ground arith
    only row (there i) = elim i [ ]

attempts-IsConsistent : Attempts.IsConsistent small_database.oidc_login_attempt
attempts-IsConsistent = record { digests = (tt, tt); ids = (tt, tt) }

session_found : find_by by_digest 5 small_database.admin_session ≡ some session_row
unfolding find_by
session_found = refl

abbrev revoked_database : Database
revoked_database = (revoke 7 10 small_database).1

revoked_forever_example :
    (get_active_and_touch 5 12 30 5 (get_active_and_touch 5 11 30 5 revoked_database).1).0 ≡ ok none
revoked_forever_example =
    revoked_forever 5 10 12 30 5 small_database (get_active_and_touch 5 11 30 5 revoked_database).1
      session_row sessions-IsConsistent session_found (next start (looked_up 5 11 30 5))

expired_forever_example :
    (get_active_and_touch 5 100 30 5 (get_active_and_touch 5 20 30 5 small_database).1).0 ≡ ok none
expired_forever_example =
    expired_forever 5 100 30 5 small_database (get_active_and_touch 5 20 30 5 small_database).1
      session_row sessions-IsConsistent session_found (next start (looked_up 5 20 30 5))
      (omega arith)

Reach-Evolves_example :
    (row' : AdminSession) × (find_by by_digest 5
        (get_active_and_touch 5 20 30 5 small_database).1.admin_session
      ≡ some row')
    × Evolves session_row row'
    × Sessions.IsConsistent (get_active_and_touch 5 20 30 5 small_database).1.admin_session
Reach-Evolves_example =
    Reach-Evolves 5 small_database (get_active_and_touch 5 20 30 5 small_database).1 session_row
      sessions-IsConsistent session_found (next start (looked_up 5 20 30 5))

abbrev unmoved : AdminSessionRecord
unmoved = session_record session_row

looked : (get_active_and_touch 5 3 30 5 small_database).0 ≡ ok (some unmoved)
unfolding get_active_and_touch find_by
looked = refl

get_active_and_touch_sound_example :
    (row : AdminSession) × (find_by by_digest 5 small_database.admin_session ≡ some row)
    × IsActive 3 row
    × IsRecordOf 3 30 5 row unmoved
get_active_and_touch_sound_example =
    get_active_and_touch_sound 5 3 30 5 small_database unmoved looked

abbrev created_database : Database
created_database = (AdminSessions.create 8 small_session small_database).1

created :
    AdminSessions.create 8 small_session small_database
    ≡ (ok (session_record (new_row 8 small_session)), created_database)
unfolding AdminSessions.create find_by
created = refl

unlocked : ℕ → Bool
unlocked k = false

abbrev attempted_database : Database
attempted_database = (LoginAttempts.create unlocked 5 6 small_flow "/y" 12 22 small_database).1

attempted :
    LoginAttempts.create unlocked 5 6 small_flow "/y" 12 22 small_database
    ≡ (ok tt, attempted_database)
unfolding LoginAttempts.create LoginAttempts.expired_ids without_expired unlocked text_length
    find_by sort_by keep any
attempted = refl

create-IsCleanup_example :
    (kept : List OidcLoginAttempt) × (attempted_database.oidc_login_attempt
      ≡ new_attempt 5 6 small_flow "/y" 12 22 ∷ kept)
    × IsCleanup unlocked 12 small_database.oidc_login_attempt kept
create-IsCleanup_example =
    create-IsCleanup unlocked 5 6 small_flow "/y" 12 22 small_database attempted_database
      attempts-IsConsistent attempted

abbrev some_calls : List Call
some_calls =
    create_call 8 small_session
    ∷ lookup_call 3 9 30 5
    ∷ create_call 7 small_session
    ∷ revoke_call 8 10
    ∷ lookup_call 3 11 30 5
    ∷ []

-- a creation, a lookup that refreshes, a creation with taken keys, a revocation, and a lookup after it
calls_run :
    replies admin_session_repository some_calls small_database
    ≡ ok (some (session_record (new_row 8 small_session)))
      ∷ ok (some (session_record (touched 9 30 (new_row 8 small_session))))
      ∷ raise integrity_error
      ∷ ok none
      ∷ ok none
      ∷ []
unfolding AdminSessions.create get_active_and_touch revoke find_by update_by
calls_run = refl
