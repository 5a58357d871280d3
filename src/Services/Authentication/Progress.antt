-- ===== src/Services/Authentication/Progress.antt =====
-- Logins and requests that must succeed, and do.
use pullfrog_azure.Prelude.{
  ℕ, ◌<◌, String, ◌≡◌, refl, true, false, Option, none, some, ◌∷◌, ◌++◌, arith, ap, ◌∙◌, is_empty,
  ==_iff, text_length-text_take,
}
use pullfrog_azure.Auth.Domain.{ValidatedOidcClaims, Callback}
use pullfrog_azure.Auth.Policy.{select_authorizer, contains_ref}
use pullfrog_azure.Auth.Policy.Selection.{select_authorizer-eq-some_iff}
use pullfrog_azure.Exec.{lift, after, ◌>>=◌, >>=-of-ok}
use pullfrog_azure.Models.{Database, OidcLoginAttempt, AdminSession}
use pullfrog_azure.Outcome.{Result, ok}
use pullfrog_azure.Platform.{Platform}
use pullfrog_azure.Repositories.AdminIdentities.Laws.{all_refs}
use pullfrog_azure.Repositories.AdminSessions
use pullfrog_azure.Repositories.AdminSessions.{
  AdminSessionRecord, NewAdminSession, session_record, new_row, by_id, get_active_and_touch,
}
use pullfrog_azure.Repositories.LoginAttempts.{LoginAttemptRecord, consume, by_digest}
use pullfrog_azure.Repositories.AdminSessions.Laws.{IsActive, get_active_and_touch-IsLookup}
use pullfrog_azure.Repositories.AdminSessions.Lookup.{IsRecordOf, lookup_complete}
use pullfrog_azure.Services.Authentication.Session.{known_refs, still_configured_lem}
use pullfrog_azure.Services.Authentication.Logout.{
  IsLookup-identities, row_authorizer, same_authorizer,
}
use pullfrog_azure.Repositories.Table.{find_by, delete_by}
use pullfrog_azure.Services.Authentication.Authorization.{resolve_authorizer_lem}
use pullfrog_azure.Services.Authentication.{
  AuthenticationService, LoginCompletion, authenticated_admin, require_claim_uuid, new_session,
  establish, resolve_authorizer, complete_login, map_provider_error, short_name, still_configured,
  admit, current_admin,
}
use pullfrog_azure.Services.Authentication.Grounds.{IsAuthorized, IsFresh}

module _ (p : Platform) (service : AuthenticationService) where
  create-fresh :
      (id : ℕ) (n : NewAdminSession) (name : Option String) (db : Database)
      → n.display_name ≡ short_name p service name
      → IsFresh id n.token_digest db
      → AdminSessions.create id n db ≡ (
        ok (session_record (new_row id n)),
        record db { admin_session = new_row id n ∷ db.admin_session },
      )
  unfolding AdminSessions.create
  create-fresh id n none db short f = ground (arith, f.digest_free, f.id_free)
  create-fresh id n (some name) db short f =
      ground (arith, f.digest_free, f.id_free, text_length-text_take 256 name)

  module _ (attempt : LoginAttemptRecord) (claims : ValidatedOidcClaims) (now : ℕ)
      (session csrf : String) (id : ℕ) (db : Database) (a : IsAuthorized p service claims db) where
    abbrev pub added : NewAdminSession
    added =
        new_session p service service.tenant_id a.user_object_id a.authorizer claims now session
          csrf

    abbrev pub completion : LoginCompletion
    completion = record {
      return_to = attempt.return_to;
      session_token = session;
      csrf_token = csrf;
      admin = authenticated_admin (session_record (new_row id added));
    }

    abbrev pub with_session : Database
    with_session = record db { admin_session = new_row id added ∷ db.admin_session }

    establish_complete :
        IsFresh id (p.sha256 session) db
        → establish p service attempt claims now session csrf id db ≡ (ok completion, with_session)
    unfolding establish
    establish_complete f =
        >>=-of-ok (lift (require_claim_uuid p claims.tenant_id)) _ (λ i. (a.tenant i, db))
        ∙ rw ((==_iff service.tenant_id service.tenant_id).1 refl) (
            >>=-of-ok (lift (require_claim_uuid p claims.user_object_id)) _ (λ i. (a.user i, db))
            ∙ >>=-of-ok (resolve_authorizer p service service.tenant_id a.user_object_id claims) _
                resolved
            ∙ >>=-of-ok (AdminSessions.create id added) _
                (create-fresh id added claims.display_name db refl f))
      where
        resolved :
            resolve_authorizer p service service.tenant_id a.user_object_id claims db
            ≡ (ok (some a.authorizer), db)
        resolved =
            resolve_authorizer_lem p service service.tenant_id a.user_object_id claims a.groups db
              a.group_set
            ∙ (λ i. (ok (selected i), db))
          where
            selected :
                select_authorizer service.tenant_id a.user_object_id a.groups
                  (service.configured_identities ++ all_refs db)
                ≡ some a.authorizer
            selected =
                (select_authorizer-eq-some_iff (service.configured_identities ++ all_refs db)
                    service.tenant_id a.user_object_id a.groups a.authorizer).1
                  a.authorized

  module _ (token : String) (callback : Callback) (now : ℕ) (session csrf : String) (id : ℕ)
      (db : Database) (row : OidcLoginAttempt) (claims : ValidatedOidcClaims) where
    abbrev pub stored_attempt : LoginAttemptRecord
    stored_attempt = record {
      flow = row.flow;
      return_to = row.return_to;
      expires_at = row.expires_at;
    }

    abbrev without_attempt : Database
    without_attempt = record db {
      oidc_login_attempt = delete_by by_digest (p.sha256 token) db.oidc_login_attempt;
    }

    consume-stored :
        find_by by_digest (p.sha256 token) db.oidc_login_attempt ≡ some row
        → now < row.expires_at
        → consume (p.sha256 token) now db ≡ (ok (some stored_attempt), without_attempt)
    unfolding consume
    consume-stored found early = ground arith

    pub complete_login_complete :
        is_empty token ≡ false
        → find_by by_digest (p.sha256 token) db.oidc_login_attempt ≡ some row
        → now < row.expires_at
        → service.oidc.exchange row.flow callback ≡ ok claims
        → (a : IsAuthorized p service claims db) → IsFresh id (p.sha256 session) db
        → complete_login p service (some token) callback now session csrf id db ≡ (
          ok (completion stored_attempt claims now session csrf id db a),
          record db {
            oidc_login_attempt = delete_by by_digest (p.sha256 token) db.oidc_login_attempt;
            admin_session =
                new_row id (added stored_attempt claims now session csrf id db a)
                ∷ db.admin_session;
          },
        )
    unfolding complete_login
    complete_login_complete given found early redeemed a f = rw given (
        >>=-of-ok (consume (p.sha256 token) now) _ (consume-stored found early)
        ∙ >>=-of-ok (lift (map_provider_error (service.oidc.exchange row.flow callback))) _
            (λ i. (map_provider_error (redeemed i), without_attempt))
        ∙ establish_complete stored_attempt claims now session csrf id without_attempt
            (record {
              user_object_id = a.user_object_id;
              groups = a.groups;
              authorizer = a.authorizer;
              tenant = a.tenant;
              user = a.user;
              group_set = a.group_set;
              authorized = a.authorized;
            })
            (record { digest_free = f.digest_free; id_free = f.id_free }))

  module _ (token : String) (now : ℕ) (db : Database) (row : AdminSession) where
    abbrev looked_up : Result (Option AdminSessionRecord) × Database
    looked_up =
        get_active_and_touch (p.sha256 token) now service.idle_lifetime service.touch_interval db

    allow :
        (r : AdminSessionRecord) (s : Database)
        → contains_ref (known_refs p service s) r.authorizer ≡ true
        → (still_configured p service r.authorizer >>= λ b. admit p service now r b) s
          ≡ (ok (authenticated_admin r), s)
    allow r s known =
        ap (λ x. after x λ b. admit p service now r b)
          (still_configured_lem p service r.authorizer s ∙ (λ i. (ok (known i), s)))

    pub current_admin_complete :
        is_empty token ≡ false
        → find_by AdminSessions.by_digest (p.sha256 token) db.admin_session ≡ some row
        → IsActive now row
        → contains_ref (known_refs p service db) (row_authorizer p service row) ≡ true
        → (r : AdminSessionRecord) × IsRecordOf now service.idle_lifetime service.touch_interval row
            r
          × (current_admin p service (some token) now db ≡ (
            ok (authenticated_admin r),
            (get_active_and_touch
                (p.sha256 token)
                now
                service.idle_lifetime
                service.touch_interval
                db).1,
          ))
    unfolding current_admin
    current_admin_complete given found active known =
        let (r, hit, read) =
          lookup_complete (p.sha256 token) now service.idle_lifetime service.touch_interval db row
            found active in
        let (o, db', same, l) =
          get_active_and_touch-IsLookup (p.sha256 token) now service.idle_lifetime
            service.touch_interval db in
        let kept : known_refs p service looked_up.1 ≡ known_refs p service db =
          ap (λ (x : Result (Option AdminSessionRecord) × Database). known_refs p service x.1) same
          ∙ IsLookup-identities p service l in
        (
          r,
          read,
          rw given (
              >>=-of-ok
                (get_active_and_touch (p.sha256 token) now service.idle_lifetime
                  service.touch_interval)
                _ (λ i. (hit i, looked_up.1))
              ∙ allow r looked_up.1 (rw (kept, same_authorizer p service r read) known)),
        )
