-- ===== src/Services/Authentication/Resumed.antt =====
-- A session that a login established, at a later request.
use pullfrog_azure.Prelude.{
  ℕ, ◌+◌, ◌<◌, String, ◌≡◌, refl, false, true, some, ◌++◌, map, arith, ap, sym, ◌∙◌, is_empty,
}
use pullfrog_azure.Auth.Domain.{ValidatedOidcClaims}
use pullfrog_azure.Auth.Policy.{contains_ref}
use pullfrog_azure.Auth.Policy.Selection.{IsAuthorizer-contains_ref}
use pullfrog_azure.Models.{Database}
use pullfrog_azure.Outcome.{ok}
use pullfrog_azure.Platform.{Platform}
use pullfrog_azure.Repositories.AdminIdentities.Laws.{all_refs}
use pullfrog_azure.Repositories.AdminIdentities.{identity_ref}
use pullfrog_azure.Repositories.AdminSessions.{by_digest, new_row, NewAdminSession}
use pullfrog_azure.Repositories.LoginAttempts.{LoginAttemptRecord}
use pullfrog_azure.Repositories.Table.{find_by}
use pullfrog_azure.Services.Authentication.Established.{IsEstablished}
use pullfrog_azure.Services.Authentication.Logout.{row_authorizer}
use pullfrog_azure.Services.Authentication.Progress.{current_admin_complete}
use pullfrog_azure.Services.Authentication.Session.{known_refs}
use pullfrog_azure.Services.Authentication.{
  AuthenticationService, LoginCompletion, AuthenticatedAdmin, authenticated_admin, new_session,
  current_admin,
}

-- The administrator of a session, as two moments show him.
pub record IsSame (a b : AuthenticatedAdmin) : Type 0 where
  pub session_id : a.session_id ≡ b.session_id
  pub display_name : a.display_name ≡ b.display_name
  pub absolute_expires_at : a.absolute_expires_at ≡ b.absolute_expires_at
  pub csrf_token_digest : a.csrf_token_digest ≡ b.csrf_token_digest

module _ (p : Platform) (service : AuthenticationService) (attempt : LoginAttemptRecord)
    (claims : ValidatedOidcClaims) (now : ℕ) (session csrf : String) (id : ℕ) (db db' : Database)
    (c : LoginCompletion)
    (s : IsEstablished p service attempt claims now session csrf id db c db') where
  abbrev added : NewAdminSession
  added =
      new_session p service service.tenant_id s.user_object_id s.authorizer claims now session csrf

  -- The new row is found after the login.
  pub established-found :
      find_by by_digest (p.sha256 session) db'.admin_session ≡ some (new_row id added)
  unfolding find_by
  established-found = rw s.added (ground arith)

  -- The authorizer of the new row counts, for every service of the same settings, as long as the
  -- configured identities of the database stay.
  still_known :
      (service' : AuthenticationService) (db'' : Database)
      → service'.configured_identities ≡ service.configured_identities
      → db''.admin_identity ≡ db'.admin_identity
      → contains_ref (known_refs p service' db'') (row_authorizer p service' (new_row id added))
        ≡ true
  still_known service' db'' same kept =
      let (known, tenant) = IsAuthorizer-contains_ref s.authorized in
      (λ i. contains_ref (same i ++ refs i) (own tenant i)) ∙ known
    where
      refs : all_refs db'' ≡ all_refs db
      refs = ap (map identity_ref) (kept ∙ ap (λ (b : Database). b.admin_identity) s.added)

      own :
          s.authorizer.tenant_id ≡ service.tenant_id
          → row_authorizer p service' (new_row id added) ≡ s.authorizer
      own tenant i = record {
        tenant_id = sym tenant i;
        kind = s.authorizer.kind;
        object_id = s.authorizer.object_id;
      }

  -- The session's token resolves to the same administrator until its first expiry, in every database
  -- that has the session's row and the configured identities as the login left them.
  pub current_admin-IsSame :
      (service' : AuthenticationService) (later : ℕ) (db'' : Database)
      → find_by by_digest (p.sha256 session) db''.admin_session ≡ some (new_row id added)
      → db''.admin_identity ≡ db'.admin_identity
      → service'.configured_identities ≡ service.configured_identities
      → is_empty session ≡ false
      → later < now + service.idle_lifetime
      → later < now + service.absolute_lifetime
      → (a : AuthenticatedAdmin) × IsSame a c.admin
        × ((current_admin p service' (some session) later db'').0 ≡ ok a)
  current_admin-IsSame service' later db'' found kept same given idle over =
      let (r, read, current) =
        current_admin_complete p service' session later db'' (new_row id added) given found
          (record { unrevoked = refl; not_idle = idle; not_over = over })
          (still_known service' db'' same kept) in
      (
        authenticated_admin r,
        record {
          session_id =
              read.session_id ∙ sym (ap (λ (a : AuthenticatedAdmin). a.session_id) s.admin);
          display_name =
              read.display_name ∙ sym (ap (λ (a : AuthenticatedAdmin). a.display_name) s.admin);
          absolute_expires_at =
              read.absolute_expires_at
              ∙ sym (ap (λ (a : AuthenticatedAdmin). a.absolute_expires_at) s.admin);
          csrf_token_digest =
              read.csrf_token_digest
              ∙ sym (ap (λ (a : AuthenticatedAdmin). a.csrf_token_digest) s.admin);
        },
        ap (λ x. x.0) current,
      )
