-- ===== src/App/Visit/Between.antt =====
-- What the requests of other browsers leave of a visit.
use pullfrog_azure.Prelude.{ℕ, String, ◌≡◌, Option, ◌++◌, ◌∙◌, map}
use pullfrog_azure.App.Isolation.{
  IsOtherSession, Elsewhere, none_else, after_other, Elsewhere-Reach, Elsewhere-session_row,
}
use pullfrog_azure.App.Served.{IsSound, Served, none_yet, after_request, served-IsSound}
use pullfrog_azure.App.{Request, Surroundings}
use pullfrog_azure.Auth.Policy.{contains_ref}
use pullfrog_azure.Config.{Settings, RawSettings, load}
use pullfrog_azure.Config.Accepted.{load-eq-ok_iff}
use pullfrog_azure.Models.{AdminSession, Database}
use pullfrog_azure.Outcome.{ok}
use pullfrog_azure.Platform.{Platform}
use pullfrog_azure.Repositories.AdminIdentities.{identity_ref}
use pullfrog_azure.Repositories.AdminSessions.Unconfigured.{Reach-identities}
use pullfrog_azure.Services.Authentication.{AuthenticationService}
use pullfrog_azure.Services.Authentication.Live.{IsLive}
use pullfrog_azure.Services.Authentication.Logout.{row_authorizer}

module _ (p : Platform) (settings : Settings) (read : String → Option ℕ) (raw : RawSettings)
    (loaded : load read raw ≡ ok settings) where
  Elsewhere-Served :
      {Other : Surroundings → Request → Type 0} {db db' : Database}
      → Elsewhere p settings Other db db'
      → Served p settings db db'
  Elsewhere-Served none_else = none_yet
  Elsewhere-Served (after_other e w request other) = after_request (Elsewhere-Served e) w request

  pub Elsewhere-IsSound :
      {Other : Surroundings → Request → Type 0} {db db' : Database}
      → Elsewhere p settings Other db db'
      → IsSound db
      → IsSound db'
  Elsewhere-IsSound {db} {db'} e sound =
      served-IsSound p read raw settings db db' loaded sound (Elsewhere-Served e)

  pub Elsewhere-identities :
      {Other : Surroundings → Request → Type 0} {db db' : Database}
      → Elsewhere p settings Other db db'
      → db'.admin_identity ≡ db.admin_identity
  Elsewhere-identities e =
      Reach-identities
        (Elsewhere-Reach p settings ((load-eq-ok_iff read raw settings).0 loaded).secure e)

  pub Elsewhere-IsLive :
      (token csrf : String) (service : AuthenticationService) (row : AdminSession)
      {db db' : Database}
      → Elsewhere p settings (IsOtherSession p (p.sha256 token)) db db'
      → IsSound db
      → IsLive p token csrf service row db
      → IsLive p token csrf service row db'
  Elsewhere-IsLive token csrf service row {db} {db'} e sound l = record {
    stored = Elsewhere-session_row p settings (p.sha256 token) row db db' sound l.stored e;
    proof = l.proof;
    known =
        (λ i.
          contains_ref
            (service.configured_identities ++ map identity_ref (Elsewhere-identities e i))
            (row_authorizer p service row))
        ∙ l.known;
  }
