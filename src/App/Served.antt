-- ===== src/App/Served.antt =====
-- Any sequence of requests to one deployment: the tables stay sound, and a session that was ended by
-- a logout never comes back.
use pullfrog_azure.Prelude.{ℕ, String, ◌≡◌, Option}
use pullfrog_azure.Api.AuthCookies.{Response}
use pullfrog_azure.App.Requests.{handle-Reaches}
use pullfrog_azure.App.{Request, Surroundings, handle}
use pullfrog_azure.Config.{Settings, RawSettings, load}
use pullfrog_azure.Config.Accepted.{load-eq-ok_iff}
use pullfrog_azure.Config.Security.{IsSecure}
use pullfrog_azure.Exec.{after_parts}
use pullfrog_azure.Models.{Database}
use pullfrog_azure.Outcome.{ok}
use pullfrog_azure.Platform.{Platform}
use pullfrog_azure.Repositories.AdminSessions.Laws as Sessions
use pullfrog_azure.Repositories.AdminSessions.Lifetime.{Reach, start, Reach-IsLater}
use pullfrog_azure.Repositories.LoginAttempts.Stored as Attempts
use pullfrog_azure.Services.Authentication.Transitions.{Reach-trans}

module _ (p : Platform) (settings : Settings) where
  -- The databases that requests lead to, one request after the other, each with surroundings of its
  -- own.
  pub data Served (db : Database) : Database → Type 0 where
    none_yet : Served db db
    after_request :
        {db' : Database}
        → Served db db'
        → (w : Surroundings) (request : Request) → Served db (handle p settings w request db').1

  pub Served-Reach : IsSecure settings → {db db' : Database} → Served db db' → Reach db db'
  Served-Reach secure none_yet = start
  Served-Reach secure (after_request {db'} s w request) =
      Reach-trans (Served-Reach secure s) ((handle-Reaches p settings secure w request).from db')

-- What holds of both tables at all times: unique ids and digests, a session never seen before its
-- creation and never idle beyond its absolute expiry, and only local return paths.
pub record IsSound (db : Database) : Type 0 where
  pub sessions : Sessions.IsConsistent db.admin_session
  pub attempts : Attempts.IsSound db.oidc_login_attempt

-- With settings that loaded, every sequence of requests, whatever they carry and whatever they come
-- back with, keeps both tables sound.
pub served-IsSound :
    (p : Platform) (read : String → Option ℕ) (raw : RawSettings) (settings : Settings)
    (db db' : Database)
    → load read raw ≡ ok settings
    → IsSound db
    → Served p settings db db'
    → IsSound db'
served-IsSound p read raw settings db db' loaded sound served =
    let reach =
      Served-Reach p settings ((load-eq-ok_iff read raw settings).0 loaded).secure served in
    record {
      sessions = (Reach-IsLater db db' sound.sessions reach).consistent;
      attempts = Attempts.Reach-IsSound sound.attempts reach;
    }

-- One answered request keeps them sound.
pub handle-IsSound :
    (p : Platform) (read : String → Option ℕ) (raw : RawSettings) (settings : Settings)
    → load read raw ≡ ok settings
    → (w : Surroundings) (request : Request) (db db' : Database) (response : Response) → IsSound db
    → handle p settings w request db ≡ (ok response, db')
    → IsSound db'
handle-IsSound p read raw settings loaded w request db db' response sound h =
    rw (after_parts h).1 at (
      served-IsSound p read raw settings db (handle p settings w request db).1 loaded sound
        (after_request none_yet w request))
