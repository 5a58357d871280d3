-- ===== src/App/Cookies.antt =====
-- The cookies of a browser after a callback.
use pullfrog_azure.Prelude.{
  ℕ, String, ◌≡◌, refl, ◌⊎◌, inl, inr, Bool, true, false, Option, none, some, ap, ◌∙◌,
  if◌then◌else◌,
}
use pullfrog_azure.Api.AuthCookies.{
  Response, oidc_attempt_cookie, admin_session_cookie, admin_csrf_cookie, callback_path,
  set_admin_cookies,
}
use pullfrog_azure.Api.AuthCookies.Jar.{
  Jar, Cookie, receive_all, clear_attempt_cookie_lem, set_admin_cookies_lem, with_cookie,
  without_cookie, is_at,
}
use pullfrog_azure.Api.Routes.{callback_success, callback_failure, redirect}
use pullfrog_azure.App.Served.{IsSound}
use pullfrog_azure.App.SignIn.{IsConcluded, signed_in, refused, failed, callback-IsConcluded}
use pullfrog_azure.App.{get_callback, Surroundings, handle}
use pullfrog_azure.Auth.Domain.{AuthErrorCode, Callback}
use pullfrog_azure.Config.{Settings, RawSettings, load, secure_cookies}
use pullfrog_azure.Exec.{after_parts}
use pullfrog_azure.Models.{Database}
use pullfrog_azure.Outcome.{Result, ok, ok_inj}
use pullfrog_azure.Platform.{Platform}
use pullfrog_azure.Services.Authentication.{LoginCompletion}

abbrev pub cookie : (value : String) (expires : ℕ) (secure httponly : Bool) → Cookie
cookie value expires secure httponly = record {
  value = value;
  expires = expires;
  secure = secure;
  httponly = httponly;
}

-- The browser holds the session and the CSRF proof of this sign-in until the session's absolute
-- expiry; scripts read only the proof.
pub record HoldsSession (secure : Bool) (session csrf : String) (c : LoginCompletion) (jar : Jar)
    : Type 0 where
  pub session_cookie :
      jar admin_session_cookie "/" ≡ some (cookie session c.admin.absolute_expires_at secure true)
  pub csrf_cookie :
      jar admin_csrf_cookie "/" ≡ some (cookie csrf c.admin.absolute_expires_at secure false)

module _ (secure : Bool) (jar : Jar) where
  pub success_jar :
      (c : LoginCompletion) (key path : String)
      → receive_all (callback_success secure c).cookies jar key path
        ≡ without_cookie oidc_attempt_cookie callback_path
            (with_cookie admin_csrf_cookie "/"
              (cookie c.csrf_token c.admin.absolute_expires_at secure false)
              (with_cookie admin_session_cookie "/"
                (cookie c.session_token c.admin.absolute_expires_at secure true)
                jar))
            key
            path
  success_jar c key path =
      clear_attempt_cookie_lem
        (set_admin_cookies (redirect c.return_to 303) c.session_token c.csrf_token
          c.admin.absolute_expires_at secure)
        secure jar key path
      ∙ ap (λ o. if is_at oidc_attempt_cookie callback_path key path then none else o)
          (set_admin_cookies_lem (redirect c.return_to 303) secure jar key path c.session_token
            c.csrf_token c.admin.absolute_expires_at)

  failure_jar :
      (code : AuthErrorCode) (key path : String)
      → receive_all (callback_failure secure code).cookies jar key path
        ≡ without_cookie oidc_attempt_cookie callback_path jar key path
  failure_jar code key path = clear_attempt_cookie_lem _ secure jar key path

-- What a callback leaves in the browser: no attempt cookie; and, where it signed in, the session, with
-- the configured `Secure`, and else both administrator cookies as they were.
pub record IsLeft (settings : Settings) (w : Surroundings) (db db' : Database) (response : Response)
    (jar jar' : Jar) : Type 0 where
  pub attempt : jar' oidc_attempt_cookie callback_path ≡ none
  pub session :
      ((c : LoginCompletion) × (response ≡ callback_success (secure_cookies settings) c)
        × HoldsSession (secure_cookies settings) w.session_token w.csrf_token c jar')
      ⊎ ((db'.admin_session ≡ db.admin_session)
          × (jar' admin_session_cookie "/" ≡ jar admin_session_cookie "/")
          × (jar' admin_csrf_cookie "/" ≡ jar admin_csrf_cookie "/"))

module _ (p : Platform) (settings : Settings) (w : Surroundings) (attempt_cookie : Option String)
    (query : Callback) where
  -- With settings that loaded and sound tables: after every answered callback the browser has no
  -- attempt cookie any more; and either the callback signed in, and the browser holds the session
  -- and the CSRF token with the configured `Secure`, the session hidden from scripts, or it did
  -- not, and both cookies and the sessions are as before.
  pub callback-IsLeft :
      (read : String → Option ℕ) (raw : RawSettings) (db db' : Database) (response : Response)
      (jar : Jar)
      → load read raw ≡ ok settings
      → IsSound db
      → handle p settings w (get_callback attempt_cookie query) db ≡ (ok response, db')
      → IsLeft settings w db db' response jar (receive_all response.cookies jar)
  callback-IsLeft read raw db db' response jar loaded sound h =
      conclude (handle p settings w (get_callback attempt_cookie query) db) h
        (callback-IsConcluded p settings w attempt_cookie query read raw db loaded sound)
    where
      secure : Bool
      secure = secure_cookies settings

      conclude :
          (x : Result Response × Database)
          → x ≡ (ok response, db')
          → IsConcluded p settings w attempt_cookie query db x
          → IsLeft settings w db db' response jar (receive_all response.cookies jar)
      conclude x e (signed_in _ c _ s _ _) =
          let (session, csrf) = s.established.tokens in
          rw (← ok_inj (after_parts e).0) (record {
            attempt = success_jar secure jar c oidc_attempt_cookie callback_path;
            session = inl (
              c,
              refl,
              record {
                session_cookie =
                    success_jar secure jar c admin_session_cookie "/"
                    ∙ (λ i. some (cookie (session i) c.admin.absolute_expires_at secure true));
                csrf_cookie =
                    success_jar secure jar c admin_csrf_cookie "/"
                    ∙ (λ i. some (cookie (csrf i) c.admin.absolute_expires_at secure false));
              },
            );
          })
      conclude x e (refused code kept) =
          rw (← ok_inj (after_parts e).0, ← (after_parts e).1)
            (record {
              attempt = failure_jar secure jar code oidc_attempt_cookie callback_path;
              session = inr (
                kept,
                failure_jar secure jar code admin_session_cookie "/",
                failure_jar secure jar code admin_csrf_cookie "/",
              );
            })
      conclude x e (failed _ _ _) = cc (after_parts e).0
