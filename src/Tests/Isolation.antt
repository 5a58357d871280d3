-- ===== src/Tests/Isolation.antt =====
-- A session and the requests of another browser, at a concrete input.
use pullfrog_azure.Prelude.{◌≡◌, refl, none, some, arith, text_length}
use pullfrog_azure.App.{get_me, get_login, get_callback, handle}
use pullfrog_azure.App.Isolation.{
  IsOtherSession, IsOtherLogin, Elsewhere-attempt_row, Elsewhere, none_else, after_other,
  Elsewhere-session_row,
}
use pullfrog_azure.Models.{Database}
use pullfrog_azure.Repositories.AdminSessions.{by_digest}
use pullfrog_azure.Repositories.LoginAttempts
use pullfrog_azure.Repositories.Table.{find_by}
use pullfrog_azure.Tests.App.{at_instant, database-IsSound}
use pullfrog_azure.Tests.Config.{small_settings}
use pullfrog_azure.Tests.Data.{
  small_platform, small_callback, small_database, session_row, attempt_row,
}

-- another browser signs in, and asks for its administrator
abbrev database₁ : Database
database₁ =
    (handle small_platform small_settings (at_instant 2) (get_callback (some "ab") small_callback)
      small_database).1

abbrev database₂ : Database
database₂ = (handle small_platform small_settings (at_instant 9) (get_me (some "abc")) database₁).1

others :
    Elsewhere small_platform small_settings
      (IsOtherSession small_platform 5)
      small_database
      database₂
unfolding text_length
others =
    after_other (after_other none_else (at_instant 2) (get_callback (some "ab") small_callback) tt)
      (at_instant 9) (get_me (some "abc")) (λ e. omega arith)

Elsewhere-session_row_example : find_by by_digest 5 database₂.admin_session ≡ some session_row
unfolding find_by
Elsewhere-session_row_example =
    Elsewhere-session_row small_platform small_settings 5 session_row small_database database₂
      database-IsSound refl others

-- another browser starts a login, and calls back with a cookie that is none of an attempt
abbrev database₃ : Database
database₃ = (handle small_platform small_settings (at_instant 2) (get_login none) small_database).1

abbrev database₄ : Database
database₄ =
    (handle small_platform small_settings (at_instant 3) (get_callback (some "zzz") small_callback)
      database₃).1

other_logins :
    Elsewhere small_platform small_settings
      (IsOtherLogin small_platform 2 attempt_row)
      small_database
      database₄
unfolding text_length
other_logins =
    after_other (after_other none_else (at_instant 2) (get_login none) (omega arith)) (at_instant 3)
      (get_callback (some "zzz") small_callback) (λ e. omega arith)

Elsewhere-attempt_row_example :
    find_by LoginAttempts.by_digest 2 database₄.oidc_login_attempt ≡ some attempt_row
unfolding find_by
Elsewhere-attempt_row_example =
    Elsewhere-attempt_row small_platform small_settings 2 attempt_row small_database database₄
      database-IsSound refl other_logins
