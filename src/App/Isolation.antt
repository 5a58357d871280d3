-- ===== src/App/Isolation.antt =====
-- What the requests of other browsers leave of a session, and of a login that has started.
use pullfrog_azure.Prelude.{ℕ, ◌<◌, String, ◌≡◌, refl, ◌≢◌, some, ap, sym, ◌∙◌}
use pullfrog_azure.Api.Dependencies.{require_admin_mutation}
use pullfrog_azure.Api.Routes.{
  login, callback, me, logout_route, callback_response, authentication_error_handler,
}
use pullfrog_azure.Api.Health.{liveness, readiness}
use pullfrog_azure.App.Requests.{handle-Reaches}
use pullfrog_azure.App.Served.{IsSound}
use pullfrog_azure.App.{
  Request, get_login, get_callback, get_me, post_logout, get_live, get_ready, Surroundings,
  service_of, dispatch, handle,
}
use pullfrog_azure.Config.{Settings, secure_cookies}
use pullfrog_azure.Config.Security.{IsSecure}
use pullfrog_azure.Exec.{lift}
use pullfrog_azure.Models.{AdminSession, OidcLoginAttempt, Database}
use pullfrog_azure.Platform.{Platform}
use pullfrog_azure.Repositories.AdminSessions
use pullfrog_azure.Repositories.LoginAttempts
use pullfrog_azure.Repositories.AdminSessions.Lifetime.{Reach, start}
use pullfrog_azure.Exec.Spares.{Spares, Spares-return, Spares-same, Spares-bind, Spares-answer}
use pullfrog_azure.Repositories.Table.{find_by, find_by-In, find_by-key, find_by-In_self}
use pullfrog_azure.Services.Authentication.{require_csrf}
use pullfrog_azure.Services.Authentication.Transitions.{Reach-trans}
use pullfrog_azure.Services.Authentication.Isolation.{
  Frame, IsForeign, current_admin-Spares, logout-Spares, begin_login-Spares, complete_login-Spares,
}
use pullfrog_azure.Services.Authentication.Isolation.Frames.{session-Frame, attempt-Frame}
use pullfrog_azure.Repositories.AdminSessions.Spared.{IsStored}
use pullfrog_azure.Repositories.LoginAttempts.Pending.{IsPending}

-- A request at an instant that presents only tokens which may be presented.
abbrev pub IsElsewhere :
    (Session Attempt : String → Type 0) (Instant : ℕ → Type 0) → Surroundings → Request → Type 0
IsElsewhere Session Attempt Instant w (get_login return_to) = Instant w.now
IsElsewhere Session Attempt Instant w (get_callback attempt_cookie query) =
    IsForeign Attempt attempt_cookie
IsElsewhere Session Attempt Instant w (get_me session_cookie) = IsForeign Session session_cookie
IsElsewhere Session Attempt Instant w (post_logout session_cookie csrf_cookie csrf_header) =
    IsForeign Session session_cookie
IsElsewhere Session Attempt Instant w get_live = Unit
IsElsewhere Session Attempt Instant w get_ready = Unit

-- A request without the cookie of the digest's session; a login and a callback read no such cookie.
abbrev pub IsOtherSession : Platform → ℕ → Surroundings → Request → Type 0
IsOtherSession p d = IsElsewhere (λ token. p.sha256 token ≢ d) (λ token. Unit) (λ now. Unit)

-- A request without the cookie of the digest's attempt, and no login once that attempt has expired.
abbrev pub IsOtherLogin : Platform → ℕ → OidcLoginAttempt → Surroundings → Request → Type 0
IsOtherLogin p d row =
    IsElsewhere (λ token. Unit) (λ token. p.sha256 token ≢ d) (λ now. now < row.expires_at)

module _ (p : Platform) (settings : Settings) where
  -- The databases that such requests lead to, one after the other, each with surroundings of its own.
  pub data Elsewhere (Other : Surroundings → Request → Type 0) (db : Database)
      : Database → Type 0 where
    none_else : Elsewhere Other db db
    after_other :
        {db' : Database}
        → Elsewhere Other db db'
        → (w : Surroundings) (request : Request) → Other w request
        → Elsewhere Other db (handle p settings w request db').1

  pub Elsewhere-Reach :
      {Other : Surroundings → Request → Type 0}
      → IsSecure settings
      → {db db' : Database} → Elsewhere Other db db'
      → Reach db db'
  Elsewhere-Reach secure none_else = start
  Elsewhere-Reach secure (after_other {db'} e w request other) =
      Reach-trans (Elsewhere-Reach secure e) ((handle-Reaches p settings secure w request).from db')

  module _ (Holds : Database → Type 0) (Session Attempt : String → Type 0)
      (Ended Instant : ℕ → Type 0) (f : Frame p Holds Session Attempt Ended Instant) where
    dispatch-Spares :
        (w : Surroundings) (request : Request)
        → IsElsewhere Session Attempt Instant w request
        → Spares Holds (dispatch p settings w request) (λ r. Unit)
    unfolding login callback me logout_route require_admin_mutation
    dispatch-Spares w (get_login return_to) other =
        Spares-bind Holds _ _ _ _ (Spares-same Holds (lift (service_of p settings w)) (λ db. refl))
          λ service q.
            Spares-bind Holds _ _ _ _
              (begin_login-Spares p Holds Session Attempt Ended Instant f service return_to w.now
                w.attempt_token w.id w.locked other)
              λ s q₁. Spares-return Holds _ _ tt
    dispatch-Spares w (get_callback attempt_cookie query) other =
        Spares-bind Holds _ _ _ _ (Spares-same Holds (lift (service_of p settings w)) (λ db. refl))
          λ service q. Spares-answer Holds (callback_response (secure_cookies settings)) _ (
            complete_login-Spares p Holds Session Attempt Ended Instant f service attempt_cookie
              query w.now w.session_token w.csrf_token w.id other)
    dispatch-Spares w (get_me session_cookie) other =
        Spares-bind Holds _ _ _ _ (Spares-same Holds (lift (service_of p settings w)) (λ db. refl))
          λ service q.
            Spares-bind Holds _ _ _ _
              (current_admin-Spares p Holds Session Attempt Ended Instant f service session_cookie
                w.now other)
              λ a own. Spares-return Holds _ _ tt
    dispatch-Spares w (post_logout session_cookie csrf_cookie csrf_header) other =
        Spares-bind Holds _ _ _ _ (Spares-same Holds (lift (service_of p settings w)) (λ db. refl))
          λ service q.
            Spares-bind Holds _ _ _ _
              (Spares-bind Holds _ _ _ _
                (current_admin-Spares p Holds Session Attempt Ended Instant f service session_cookie
                  w.now other)
                λ a own.
                  Spares-bind Holds _ _ _ _
                    (Spares-same Holds (lift (require_csrf p service a csrf_cookie csrf_header))
                      (λ db. refl))
                    λ done q₁. Spares-return Holds _ a own)
              λ a own.
                Spares-bind Holds _ _ _ _
                  (logout-Spares p Holds Session Attempt Ended Instant f service a w.now_after own)
                  λ done q₁. Spares-return Holds _ _ tt
    dispatch-Spares w get_live other = Spares-return Holds _ liveness tt
    dispatch-Spares w get_ready other = Spares-same Holds (lift (readiness w.query)) (λ db. refl)

    Elsewhere-Holds :
        {db db' : Database}
        → Elsewhere (IsElsewhere Session Attempt Instant) db db'
        → Holds db
        → Holds db'
    unfolding handle
    Elsewhere-Holds none_else h = h
    Elsewhere-Holds (after_other {db'} e w request other) h =
        ((Spares-answer Holds (authentication_error_handler (secure_cookies settings)) _
            (dispatch-Spares w request other)).from
          db' (Elsewhere-Holds e h)).0

  -- On sound tables, no sequence of requests, whatever they carry and whatever they come back with,
  -- changes the row of a session of whose token digest none of them presents a session cookie: logins,
  -- callbacks, requests for other administrators and their logouts neither refresh it nor end it.
  pub Elsewhere-session_row :
      (d : ℕ) (row : AdminSession) (db db' : Database)
      → IsSound db
      → find_by AdminSessions.by_digest d db.admin_session ≡ some row
      → Elsewhere (IsOtherSession p d) db db'
      → find_by AdminSessions.by_digest d db'.admin_session ≡ some row
  Elsewhere-session_row d row db db' sound found e =
      (Elsewhere-Holds (IsStored d row) _ _ (λ id. id ≢ row.id) _ (session-Frame p d row) e
        (record {
          keyed = record { digests = sound.sessions.digests; ids = sound.sessions.ids };
          stored = found;
        })).stored

  -- On sound tables, no sequence of requests, whatever they carry and whatever they come back with,
  -- changes the row of a login attempt of whose token digest none of their callbacks presents an
  -- attempt cookie, as long as none of their logins starts at or after the attempt's expiry: logins
  -- clean up other rows, and callbacks consume others.
  pub Elsewhere-attempt_row :
      (d : ℕ) (row : OidcLoginAttempt) (db db' : Database)
      → IsSound db
      → find_by LoginAttempts.by_digest d db.oidc_login_attempt ≡ some row
      → Elsewhere (IsOtherLogin p d row) db db'
      → find_by LoginAttempts.by_digest d db'.oidc_login_attempt ≡ some row
  Elsewhere-attempt_row d row db db' sound found e =
      let own = find_by-key LoginAttempts.by_digest d db.oidc_login_attempt row found in
      let kept =
        Elsewhere-Holds (IsPending row) _ _ (λ id. Unit) _ (attempt-Frame p d row own) e
          (record {
            consistent = sound.attempts.consistent;
            stored = find_by-In LoginAttempts.by_digest d db.oidc_login_attempt row found;
          }) in
      ap (λ k. find_by LoginAttempts.by_digest k db'.oidc_login_attempt) (sym own)
      ∙ find_by-In_self LoginAttempts.by_digest db'.oidc_login_attempt kept.consistent.digests
          kept.stored
