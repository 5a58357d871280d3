-- ===== src/Services/Authentication/Logout.antt =====
-- How sessions end: by a logout, or when their authorizer is configured no more.
use pullfrog_azure.Prelude.{
  ℕ, String, ◌≡◌, refl, inl, inr, false, Option, none, some, ap, ◌∙◌, Bool-cases, is_empty,
}
use pullfrog_azure.Auth.Domain.{AdminIdentityRef, authentication_error, invalid_session}
use pullfrog_azure.Auth.Policy.{contains_ref}
use pullfrog_azure.Exec.{Exec, after, ◌>>=◌, after_parts}
use pullfrog_azure.Models.{Database, AdminSession}
use pullfrog_azure.Outcome.{Result, ok, raise}
use pullfrog_azure.Platform.{Platform}
use pullfrog_azure.Repositories.AdminSessions.{
  AdminSessionRecord, by_digest, get_active_and_touch, revoke,
}
use pullfrog_azure.Repositories.AdminSessions.Laws.{
  IsConsistent, IsActive, IsLookup, rejected, untouched, refreshed, get_active_and_touch-IsLookup,
}
use pullfrog_azure.Repositories.AdminSessions.Lifetime.{
  Reach, start, next, looked_up, revoked_forever, Reach-Evolves,
}
use pullfrog_azure.Repositories.AdminSessions.Lookup.{IsRecordOf, lookup_complete}
use pullfrog_azure.Repositories.Table.{find_by}
use pullfrog_azure.Services.Authentication.{
  AuthenticationService, AuthenticatedAdmin, present_session, still_configured, admit,
  current_admin, logout,
}
use pullfrog_azure.Services.Authentication.Session.{known_refs, still_configured_lem}

module _ (p : Platform) (service : AuthenticationService) where
  after_nothing :
      (x : Result (Option AdminSessionRecord) × Database)
      (k : AdminSessionRecord → Exec Database AuthenticatedAdmin)
      → x.0 ≡ ok none
      → (after x λ o. present_session p service o >>= k).0
        ≡ raise (authentication_error invalid_session)
  after_nothing (ok none, s) k h = refl
  after_nothing (ok (some r), s) k h = cc
  after_nothing (raise e, s) k h = cc

  -- A token whose lookup returns nothing is rejected.
  current_admin-rejected :
      (token : String) (now : ℕ) (db : Database)
      → (get_active_and_touch
          (p.sha256 token)
          now
          service.idle_lifetime
          service.touch_interval
          db).0
        ≡ ok none
      → (current_admin p service (some token) now db).0
        ≡ raise (authentication_error invalid_session)
  unfolding current_admin
  current_admin-rejected token now db h = elim (Bool-cases (is_empty token)) [
    | inl empty ↦ rw empty
    | inr given ↦ rw given (
        after_nothing
          (get_active_and_touch (p.sha256 token) now service.idle_lifetime service.touch_interval
            db)
          (λ session.
            still_configured p service session.authorizer >>= λ b. admit p service now session b)
          h)
  ]

  -- After a logout the token of the session is rejected for ever, at every instant and after any
  -- further operations on a consistent session table.
  pub logged_out_forever :
      (token : String) (admin : AuthenticatedAdmin) (now later : ℕ) (db db' : Database)
      (row : AdminSession)
      → IsConsistent db.admin_session
      → find_by by_digest (p.sha256 token) db.admin_session ≡ some row
      → admin.session_id ≡ row.id
      → Reach (logout p service admin now db).1 db'
      → (current_admin p service (some token) later db').0
        ≡ raise (authentication_error invalid_session)
  unfolding logout
  logged_out_forever token admin now later db db' row c found own r =
      current_admin-rejected token later db' (
        revoked_forever (p.sha256 token) now later service.idle_lifetime service.touch_interval db
          db' row c found (rw own at r))

  pub IsLookup-identities :
      {d now idle_lifetime touch_interval : ℕ} {db db' : Database} {o : Option AdminSessionRecord}
      → IsLookup d now idle_lifetime touch_interval db o db'
      → known_refs p service db' ≡ known_refs p service db
  IsLookup-identities (rejected _ e) = ap (λ b. known_refs p service b) e
  IsLookup-identities (untouched _ _ _ _ _ e) = ap (λ b. known_refs p service b) e
  IsLookup-identities (refreshed _ _ _ _ _ e) = ap (λ b. known_refs p service b) e

  -- the reference that a session row is authorized by
  abbrev pub row_authorizer : AdminSession → AdminIdentityRef
  row_authorizer row = record {
    tenant_id = row.tenant_id;
    kind = row.authorizing_kind;
    object_id = row.authorizing_object_id;
  }

  pub same_authorizer :
      {now idle_lifetime touch_interval : ℕ} {row : AdminSession} (r : AdminSessionRecord)
      → IsRecordOf now idle_lifetime touch_interval row r
      → r.authorizer ≡ row_authorizer row
  same_authorizer r read i = record {
    tenant_id = read.tenant_id.1 i;
    kind = read.authorizing_kind i;
    object_id = read.authorizing_object_id i;
  }

  deny :
      (r : AdminSessionRecord) (now : ℕ) (db : Database)
      → contains_ref (known_refs p service db) r.authorizer ≡ false
      → (still_configured p service r.authorizer >>= λ b. admit p service now r b) db
        ≡ (raise (authentication_error invalid_session), (revoke r.session_id now db).1)
  unfolding revoke
  deny r now db gone =
      ap (λ x. after x λ b. admit p service now r b)
        (still_configured_lem p service r.authorizer db ∙ (λ i. (ok (gone i), db)))

  module _ (token : String) (now : ℕ) (db : Database) (row : AdminSession) where
    abbrev looked_up_token : Result (Option AdminSessionRecord) × Database
    looked_up_token =
        get_active_and_touch (p.sha256 token) now service.idle_lifetime service.touch_interval db

    -- With an authorizer that is configured nowhere, the active session is revoked and rejected.
    current_admin-deauthorized :
        is_empty token ≡ false
        → find_by by_digest (p.sha256 token) db.admin_session ≡ some row
        → IsActive now row
        → contains_ref (known_refs p service db) (row_authorizer row) ≡ false
        → current_admin p service (some token) now db
          ≡ (raise (authentication_error invalid_session), (revoke row.id now looked_up_token.1).1)
    unfolding current_admin
    current_admin-deauthorized given found active gone =
        let (r, hit, read) =
          lookup_complete (p.sha256 token) now service.idle_lifetime service.touch_interval db row
            found active in
        let (o, db', same, l) =
          get_active_and_touch-IsLookup (p.sha256 token) now service.idle_lifetime
            service.touch_interval db in
        let looked : looked_up_token ≡ (ok (some r), looked_up_token.1) =
          λ i. (hit i, looked_up_token.1) in
        let known : known_refs p service looked_up_token.1 ≡ known_refs p service db =
          ap (λ (x : Result (Option AdminSessionRecord) × Database). known_refs p service x.1) same
          ∙ IsLookup-identities l in
        let denied = deny r now looked_up_token.1 (rw (known, same_authorizer r read) gone) in
        rw given (
          ap
            (λ (x : Result (Option AdminSessionRecord) × Database). after x λ o.
              present_session p service o >>= λ session.
              still_configured p service session.authorizer >>= λ b. admit p service now session b)
            looked
          ∙ denied
          ∙ (λ i. (
            raise (authentication_error invalid_session),
            (revoke (read.session_id i) now looked_up_token.1).1,
          )))

    -- When a request presents the active session of an authorizer that is configured neither in the
    -- settings nor in the database, it is rejected, and so is every later request with that token,
    -- whatever operations on a consistent session table come between.
    pub deauthorized_forever :
        (later : ℕ) (db' : Database)
        → is_empty token ≡ false
        → IsConsistent db.admin_session
        → find_by by_digest (p.sha256 token) db.admin_session ≡ some row
        → IsActive now row
        → contains_ref (known_refs p service db) (row_authorizer row) ≡ false
        → Reach (current_admin p service (some token) now db).1 db'
        → ((current_admin p service (some token) now db).0
            ≡ raise (authentication_error invalid_session))
          × ((current_admin p service (some token) later db').0
              ≡ raise (authentication_error invalid_session))
    deauthorized_forever later db' given c found active gone r =
        let denied = current_admin-deauthorized given found active gone in
        let (row', found', e, c') =
          Reach-Evolves (p.sha256 token) db looked_up_token.1 row c found (
            next start
              (looked_up (p.sha256 token) now service.idle_lifetime service.touch_interval)) in
        let r' : Reach (revoke row'.id now looked_up_token.1).1 db' =
          rw (e.id, ← (after_parts denied).1) r in
        (
          (after_parts denied).0,
          current_admin-rejected token later db' (
              revoked_forever (p.sha256 token) now later service.idle_lifetime
                service.touch_interval looked_up_token.1 db' row' c' found' r'),
        )
