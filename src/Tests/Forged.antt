-- ===== src/Tests/Forged.antt =====
-- Logouts without a CSRF proof at concrete inputs: the browser sends the cookies, but no header, or a
-- header that is not ASCII.
use pullfrog_azure.Prelude.{◌≡◌, ◌⊎◌, refl, false, none, some, arith, any, text_length}
use pullfrog_azure.App.Forged.{IsRefused, post_logout-IsRefused}
use pullfrog_azure.Api.Routes.{error_response}
use pullfrog_azure.App.LogoutAnswer.{post_logout-cases}
use pullfrog_azure.App.Steps.{logged_out_response}
use pullfrog_azure.App.{handle, post_logout}
use pullfrog_azure.Auth.Domain.{csrf_failed, ref_eq, type_error}
use pullfrog_azure.Auth.Tokens.Csrf.{IsForeign, IsProof}
use pullfrog_azure.Outcome.{ok, raise}
use pullfrog_azure.Auth.Policy.{contains_ref}
use pullfrog_azure.Repositories.Table.{find_by}
use pullfrog_azure.Tests.App.{at_instant, database-IsSound}
use pullfrog_azure.Tests.Config.{small_raw, small_settings, loaded}
use pullfrog_azure.Tests.Data.{small_platform, small_database, session_row}

post_logout-IsRefused_example :
    IsRefused small_platform small_settings
      (at_instant 20)
      (at_instant 25)
      "abcde"
      (some "abcdef")
      none
      small_database
unfolding find_by text_length contains_ref any ref_eq
post_logout-IsRefused_example =
    post_logout-IsRefused small_platform small_settings (at_instant 20) (at_instant 25) "abcde"
      "abcdef" (some "abcdef") none session_row small_database small_platform.parse_uuid small_raw
      loaded database-IsSound refl refl refl (λ q. cc q.in_header) refl (omega arith)
      (record { unrevoked = refl; not_idle = omega arith; not_over = omega arith })
      (record { unrevoked = refl; not_idle = omega arith; not_over = omega arith })

post_logout-cases_example :
    (IsProof small_platform (some "abcdef") (some "abcdé") 6
      × ((handle small_platform small_settings
            (at_instant 20)
            (post_logout (some "abcde") (some "abcdef") (some "abcdé"))
            small_database).0
          ≡ ok (logged_out_response small_platform small_settings)))
    ⊎ (IsForeign (some "abcdef") (some "abcdé")
        × ((handle small_platform small_settings
              (at_instant 20)
              (post_logout (some "abcde") (some "abcdef") (some "abcdé"))
              small_database).0
            ≡ raise type_error))
    ⊎ ((¬ IsProof small_platform (some "abcdef") (some "abcdé") 6)
        × (¬ IsForeign (some "abcdef") (some "abcdé"))
        × ((handle small_platform small_settings
              (at_instant 20)
              (post_logout (some "abcde") (some "abcdef") (some "abcdé"))
              small_database).0
            ≡ ok (error_response false csrf_failed)))
unfolding find_by text_length contains_ref any ref_eq
post_logout-cases_example =
    post_logout-cases small_platform small_settings (at_instant 20) "abcde" (some "abcdef")
      (some "abcdé") session_row small_database small_platform.parse_uuid small_raw loaded refl refl
      refl (record { unrevoked = refl; not_idle = omega arith; not_over = omega arith })
