-- ===== src/Services/Authentication/Live.antt =====
-- A session that may be used: what its first request and its later ones need of the tables.
use pullfrog_azure.Prelude.{
  ℕ, ◌+◌, ◌≤◌, String, ◌≡◌, refl, false, true, some, ◌++◌, ap, sym, ◌∙◌, is_empty,
}
use pullfrog_azure.Auth.Policy.{contains_ref}
use pullfrog_azure.Auth.Tokens.Csrf.{IsAscii}
use pullfrog_azure.Models.{AdminSession, Database}
use pullfrog_azure.Outcome.{ok}
use pullfrog_azure.Platform.{Platform}
use pullfrog_azure.Repositories.AdminIdentities.Laws.{all_refs}
use pullfrog_azure.Repositories.AdminSessions.{by_digest, get_active_and_touch}
use pullfrog_azure.Repositories.AdminSessions.Kept.{lookup-IsKept}
use pullfrog_azure.Repositories.AdminSessions.Laws.{
  IsActive, IsConsistent, get_active_and_touch-IsLookup,
}
use pullfrog_azure.Repositories.Table.{find_by}
use pullfrog_azure.Services.Authentication.Csrf.{require_csrf-eq-ok_iff}
use pullfrog_azure.Services.Authentication.Logout.{IsLookup-identities, row_authorizer}
use pullfrog_azure.Services.Authentication.Progress.{current_admin_complete}
use pullfrog_azure.Services.Authentication.Session.{known_refs}
use pullfrog_azure.Services.Authentication.{
  AuthenticationService, AuthenticatedAdmin, authenticated_admin, current_admin, require_csrf,
}

module _ (p : Platform) (token csrf : String) where
  -- A stored session of the two tokens, whose authorizer the service or the database names.
  pub record IsLive (service : AuthenticationService) (row : AdminSession) (db : Database)
      : Type 0 where
    pub stored : find_by by_digest (p.sha256 token) db.admin_session ≡ some row
    pub proof : row.csrf_token_digest ≡ p.sha256 csrf
    pub known : contains_ref (known_refs p service db) (row_authorizer p service row) ≡ true

  -- Which service it is does not matter, but for its configured identities.
  pub IsLive-of :
      (service service' : AuthenticationService) (row : AdminSession) (db : Database)
      → service'.configured_identities ≡ service.configured_identities
      → IsLive service row db
      → IsLive service' row db
  IsLive-of service service' row db same l = record {
    stored = l.stored;
    proof = l.proof;
    known = (λ i. contains_ref (same i ++ all_refs db) (row_authorizer p service row)) ∙ l.known;
  }

  module _ (service : AuthenticationService) (now : ℕ) (row : AdminSession) (db : Database)
      (l : IsLive service row db) (a : IsActive now row) (given : is_empty token ≡ false) where
    abbrev pub looked_up : Database
    looked_up =
        (get_active_and_touch (p.sha256 token) now service.idle_lifetime service.touch_interval
          db).1

    -- A request with the session is admitted, with the row's CSRF digest.
    pub IsLive-admitted :
        (admin : AuthenticatedAdmin) × (current_admin p service (some token) now db
          ≡ (ok admin, looked_up))
        × (admin.csrf_token_digest ≡ p.sha256 csrf)
    IsLive-admitted =
        let (r, read, current) =
          current_admin_complete p service token now db row given l.stored a l.known in
        (authenticated_admin r, current, read.csrf_token_digest ∙ l.proof)

    -- A mutation with the session may run, where cookie and header present its proof.
    pub IsLive-mutates :
        IsAscii csrf
        → (admin : AuthenticatedAdmin) × (current_admin p service (some token) now db
            ≡ (ok admin, looked_up))
          × (require_csrf p service admin (some csrf) (some csrf) ≡ ok tt)
    IsLive-mutates ascii =
        let (admin, current, digest) = IsLive-admitted in
        (
          admin,
          current,
          (require_csrf-eq-ok_iff p service admin (some csrf) (some csrf)).0.1 (record {
            token = csrf;
            in_cookie = refl;
            in_header = refl;
            ascii = ascii;
            stored = sym digest;
          }),
        )

    -- After a request the session is there as before.
    pub IsLive-kept :
        (later : ℕ)
        → IsConsistent db.admin_session
        → row.idle_expires_at ≤ row.last_seen_at + service.idle_lifetime
        → IsActive later row
        → (row' : AdminSession) × IsLive service row' looked_up × IsActive later row'
    IsLive-kept later c fits active =
        let (row', stored, e, active') =
          lookup-IsKept (p.sha256 token) now service.idle_lifetime service.touch_interval later db
            row c l.stored fits active in
        let (o, db', same, look) =
          get_active_and_touch-IsLookup (p.sha256 token) now service.idle_lifetime
            service.touch_interval db in
        let kept : known_refs p service looked_up ≡ known_refs p service db =
          ap (λ x. known_refs p service x.1) same ∙ IsLookup-identities p service look in
        let own : row_authorizer p service row' ≡ row_authorizer p service row = (λ i. record {
          tenant_id = e.tenant_id i;
          kind = e.authorizing_kind i;
          object_id = e.authorizing_object_id i;
        }) in
        (
          row',
          record {
            stored = stored;
            proof = e.csrf_token_digest ∙ l.proof;
            known = (λ i. contains_ref (kept i) (own i)) ∙ l.known;
          },
          active',
        )
