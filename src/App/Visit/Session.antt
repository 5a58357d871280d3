-- ===== src/App/Visit/Session.antt =====
-- Requests through the application with the cookies of a live session.
use mathlib.Core.Option
use pullfrog_azure.Prelude.{
  ℕ, ◌+◌, ◌≤◌, String, ◌≡◌, refl, false, Option, none, some, [], ap, is_empty,
}
use pullfrog_azure.Api.AuthCookies.{
  Response, clear_admin_cookies, no_body, admin_session_cookie, admin_csrf_cookie,
}
use pullfrog_azure.Api.AuthCookies.Jar.{Jar, Cookie, receive_all, held, clear_admin_cookies_lem}
use pullfrog_azure.Api.Routes.{reply}
use pullfrog_azure.App.Steps.{admin_response, logged_out_response, get_me_ok, post_logout_ok}
use pullfrog_azure.App.{get_me, post_logout, Surroundings, service_of, handle}
use pullfrog_azure.Auth.Tokens.Csrf.{IsAscii}
use pullfrog_azure.Config.{Settings, secure_cookies}
use pullfrog_azure.Models.{Database, AdminSession}
use pullfrog_azure.Outcome.{ok}
use pullfrog_azure.Platform.{Platform}
use pullfrog_azure.Repositories.AdminSessions.Laws.{IsActive, IsConsistent}
use pullfrog_azure.Services.Authentication.{AuthenticationService, logout}
use pullfrog_azure.Services.Authentication.Live.{
  IsLive, IsLive-admitted, IsLive-mutates, IsLive-kept, looked_up,
}

module _ (p : Platform) (settings : Settings) (token csrf : String) (w : Surroundings)
    (db : Database) (jar : Jar) where
  -- The administrator is shown, and the session is as good as before until `later`.
  pub record IsWelcome (service : AuthenticationService) (later : ℕ) : Type 0 where
    pub response : Response
    pub db' : Database
    pub run :
        handle p settings w (get_me (held jar admin_session_cookie "/")) db ≡ (ok response, db')
    pub status : response.status_code ≡ 200
    pub no_cookies : response.cookies ≡ []
    pub row : AdminSession
    pub live : IsLive p token csrf service row db'
    pub active : IsActive later row

  -- The session is ended, and the browser has neither of its cookies.
  pub record LogsOut : Type 0 where
    pub response : Response
    pub db' : Database
    pub run :
        handle p settings w
          (post_logout
            (held jar admin_session_cookie "/")
            (held jar admin_csrf_cookie "/")
            (held jar admin_csrf_cookie "/"))
          db
        ≡ (ok response, db')
    pub status : response.status_code ≡ 204
    pub no_session : held (receive_all response.cookies jar) admin_session_cookie "/" ≡ none
    pub no_csrf : held (receive_all response.cookies jar) admin_csrf_cookie "/" ≡ none

  module _ (service : AuthenticationService) (row : AdminSession)
      (made : service_of p settings w ≡ ok service)
      (sent : held jar admin_session_cookie "/" ≡ some token) (given : is_empty token ≡ false)
      (l : IsLive p token csrf service row db) (a : IsActive w.now row) where
    pub me-IsWelcome :
        (later : ℕ)
        → IsConsistent db.admin_session
        → row.idle_expires_at ≤ row.last_seen_at + service.idle_lifetime
        → IsActive later row
        → IsWelcome service later
    me-IsWelcome later c fits active =
        let (admin, current, _) = IsLive-admitted p token csrf service w.now row db l a given in
        let (row', live, active') =
          IsLive-kept p token csrf service w.now row db l a given later c fits active in
        record {
          response = admin_response p settings admin;
          db' = looked_up p token csrf service w.now row db l a given;
          run = rw sent (get_me_ok p settings w service made db _ (some token) admin current);
          status = refl;
          no_cookies = refl;
          row = row';
          live = live;
          active = active';
        }

    cleared :
        (key : String) (o : Option Cookie)
        → receive_all (logged_out_response p settings).cookies jar key "/" ≡ o
        → held (receive_all (logged_out_response p settings).cookies jar) key "/"
          ≡ Option.map (λ (c : Cookie). c.value) o
    cleared key o h = ap (Option.map (λ (c : Cookie). c.value)) h

    pub logout-LogsOut : held jar admin_csrf_cookie "/" ≡ some csrf → IsAscii csrf → LogsOut
    unfolding clear_admin_cookies
    logout-LogsOut proof ascii =
        let (admin, current, proved) =
          IsLive-mutates p token csrf service w.now row db l a given ascii in
        record {
          response = logged_out_response p settings;
          db' =
              (logout p service admin w.now_after
                (looked_up p token csrf service w.now row db l a given)).1;
          run =
              rw (sent, proof)
                (post_logout_ok p settings w service made db _ (some token) (some csrf) (some csrf)
                  admin current proved);
          status = refl;
          no_session = cleared admin_session_cookie _ (
              clear_admin_cookies_lem (reply 204 no_body) (secure_cookies settings) jar
                admin_session_cookie "/");
          no_csrf = cleared admin_csrf_cookie _ (
              clear_admin_cookies_lem (reply 204 no_body) (secure_cookies settings) jar
                admin_csrf_cookie "/");
        }
