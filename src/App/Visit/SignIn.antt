-- ===== src/App/Visit/SignIn.antt =====
-- A callback through the application that signs in: what the browser and the database hold then.
use mathlib.Core.Option
use pullfrog_azure.Prelude.{
  ◌+◌, ◌<◌, String, ◌≡◌, refl, false, Option, none, some, ◌∷◌, ap, sym, ◌∙◌, is_empty, ==_iff, true,
}
use pullfrog_azure.Api.AuthCookies.{
  Response, set_admin_cookies, clear_attempt_cookie, oidc_attempt_cookie, admin_session_cookie,
  admin_csrf_cookie, callback_path,
}
use pullfrog_azure.Api.AuthCookies.Jar.{Jar, Cookie, receive_all, held}
use pullfrog_azure.Api.Routes.{callback_success}
use pullfrog_azure.App.Cookies.{success_jar}
use pullfrog_azure.App.Steps.{get_callback_ok}
use pullfrog_azure.App.{get_callback, Surroundings, service_of, handle}
use pullfrog_azure.Auth.Domain.{Callback, ValidatedOidcClaims}
use pullfrog_azure.Auth.Policy.{contains_ref}
use pullfrog_azure.Auth.Policy.Selection.{IsAuthorizer-contains_ref}
use pullfrog_azure.Config.{Settings, secure_cookies}
use pullfrog_azure.Models.{Database, OidcLoginAttempt, AdminSession}
use pullfrog_azure.Outcome.{ok}
use pullfrog_azure.Platform.{Platform}
use pullfrog_azure.Repositories.LoginAttempts
use pullfrog_azure.Repositories.LoginAttempts.{LoginAttemptRecord}
use pullfrog_azure.Repositories.AdminSessions.{new_row}
use pullfrog_azure.Repositories.Table.{find_by, delete_by}
use pullfrog_azure.Services.Authentication.{AuthenticationService, LoginCompletion}
use pullfrog_azure.Services.Authentication.Session.{known_refs}
use pullfrog_azure.Services.Authentication.Logout.{row_authorizer}
use pullfrog_azure.Services.Authentication.Live.{IsLive}
use pullfrog_azure.Services.Authentication.Grounds.{IsAuthorized, IsFresh}
use pullfrog_azure.Services.Authentication.Progress.{
  added, completion, stored_attempt, complete_login_complete,
}

module _ (p : Platform) (settings : Settings) (w : Surroundings) (query : Callback) (db : Database)
    (jar : Jar) where
  -- The browser is sent to the path of its login, with the two cookies of a stored session.
  pub record LeadsIn (service : AuthenticationService) (path : String) : Type 0 where
    pub response : Response
    pub db' : Database
    pub run :
        handle p settings w (get_callback (held jar oidc_attempt_cookie callback_path) query) db
        ≡ (ok response, db')
    pub status : response.status_code ≡ 303
    pub location : response.location ≡ some path
    pub session :
        held (receive_all response.cookies jar) admin_session_cookie "/" ≡ some w.session_token
    pub csrf : held (receive_all response.cookies jar) admin_csrf_cookie "/" ≡ some w.csrf_token
    pub attempt : held (receive_all response.cookies jar) oidc_attempt_cookie callback_path ≡ none
    pub row : AdminSession
    pub live : IsLive p w.session_token w.csrf_token service row db'
    pub unrevoked : row.revoked_at ≡ none
    pub seen : row.last_seen_at ≡ w.now
    pub idle : row.idle_expires_at ≡ w.now + service.idle_lifetime
    pub over : row.absolute_expires_at ≡ w.now + service.absolute_lifetime

  module _ (service : AuthenticationService) (token : String) (attempt : OidcLoginAttempt)
      (claims : ValidatedOidcClaims) (a : IsAuthorized p service claims db) where
    abbrev attempt_read : LoginAttemptRecord
    attempt_read =
        stored_attempt p service token query w.now w.session_token w.csrf_token w.id db attempt
          claims

    abbrev done : LoginCompletion
    done = completion p service attempt_read claims w.now w.session_token w.csrf_token w.id db a

    abbrev new_session_row : AdminSession
    new_session_row =
        new_row w.id
          (added p service attempt_read claims w.now w.session_token w.csrf_token w.id db a)

    abbrev signed_in : Database
    signed_in = record db {
      oidc_login_attempt = delete_by LoginAttempts.by_digest (p.sha256 token) db.oidc_login_attempt;
      admin_session = new_session_row ∷ db.admin_session;
    }

    value_in_jar :
        (key path : String) (o : Option Cookie)
        → receive_all (callback_success (secure_cookies settings) done).cookies jar key path ≡ o
        → held (receive_all (callback_success (secure_cookies settings) done).cookies jar) key path
          ≡ Option.map (λ (c : Cookie). c.value) o
    value_in_jar key path o h = ap (Option.map (λ (c : Cookie). c.value)) h

    still_known :
        contains_ref (known_refs p service db) (row_authorizer p service new_session_row) ≡ true
    still_known =
        let (known, tenant) = IsAuthorizer-contains_ref a.authorized in
        ap (contains_ref (known_refs p service db)) (λ i. record {
          tenant_id = sym tenant i;
          kind = a.authorizer.kind;
          object_id = a.authorizer.object_id;
        })
        ∙ known

    pub callback-LeadsIn :
        service_of p settings w ≡ ok service
        → held jar oidc_attempt_cookie callback_path ≡ some token
        → is_empty token ≡ false
        → find_by LoginAttempts.by_digest (p.sha256 token) db.oidc_login_attempt ≡ some attempt
        → w.now < attempt.expires_at
        → service.oidc.exchange attempt.flow query ≡ ok claims
        → IsFresh w.id (p.sha256 w.session_token) db
        → LeadsIn service attempt.return_to
    unfolding set_admin_cookies clear_attempt_cookie find_by
    callback-LeadsIn made sent given stored early redeemed fresh = record {
      response = callback_success (secure_cookies settings) done;
      db' = signed_in;
      run = rw sent (
          get_callback_ok p settings w service made db signed_in (some token) query done (
            complete_login_complete p service token query w.now w.session_token w.csrf_token w.id db
              attempt claims given stored early redeemed a fresh));
      status = refl;
      location = refl;
      session =
          value_in_jar admin_session_cookie "/" _
            (success_jar (secure_cookies settings) jar done admin_session_cookie "/");
      csrf =
          value_in_jar admin_csrf_cookie "/" _
            (success_jar (secure_cookies settings) jar done admin_csrf_cookie "/");
      attempt =
          value_in_jar oidc_attempt_cookie callback_path _
            (success_jar (secure_cookies settings) jar done oidc_attempt_cookie callback_path);
      row = new_session_row;
      live = record {
        stored = rw ((==_iff (p.sha256 w.session_token) (p.sha256 w.session_token)).1 refl) refl;
        proof = refl;
        known = still_known;
      };
      unrevoked = refl;
      seen = refl;
      idle = refl;
      over = refl;
    }
