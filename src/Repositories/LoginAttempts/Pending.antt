-- ===== src/Repositories/LoginAttempts/Pending.antt =====
-- What the calls of the repositories leave of a pending login attempt.
use pullfrog_azure.Prelude.{
  ℕ, ◌<◌, String, ◌≡◌, ◌≢◌, inl, inr, Bool, Option, not, arith, ap, In, there, keep-In, ◌==◌,
}
use pullfrog_azure.Models.{OidcLoginAttempt, Database}
use pullfrog_azure.Repositories.AdminSessions
use pullfrog_azure.Repositories.AdminSessions.{
  AdminSessionRecord, NewAdminSession, get_active_and_touch, revoke,
}
use pullfrog_azure.Repositories.AdminSessions.Laws.{
  IsLookup, rejected, untouched, refreshed, get_active_and_touch-IsLookup,
}
use pullfrog_azure.Repositories.LoginAttempts.{by_digest, create, consume}
use pullfrog_azure.Repositories.LoginAttempts.Laws.{
  IsConsistent, create-IsConsistent, consume-IsConsistent,
}
use pullfrog_azure.Repositories.LoginAttempts.Stored.{create-cases}
use pullfrog_azure.Repositories.LoginAttempts.Cleanup.{without_expired-IsCleanup}
use pullfrog_azure.Repositories.Table.{delete_by}
use pullfrog_azure.Values.{Entries}

-- The attempt is in a table whose digests and ids are unique.
pub record IsPending (row : OidcLoginAttempt) (db : Database) : Type 0 where
  pub consistent : IsConsistent db.oidc_login_attempt
  pub stored : In row db.oidc_login_attempt

-- Sessions are another table.
IsLookup-attempts :
    {d now idle_lifetime touch_interval : ℕ} {db db' : Database} {o : Option AdminSessionRecord}
    → IsLookup d now idle_lifetime touch_interval db o db'
    → db'.oidc_login_attempt ≡ db.oidc_login_attempt
IsLookup-attempts (rejected _ e) = ap (λ (b : Database). b.oidc_login_attempt) e
IsLookup-attempts (untouched _ _ _ _ _ e) = ap (λ (b : Database). b.oidc_login_attempt) e
IsLookup-attempts (refreshed _ _ _ _ _ e) = ap (λ (b : Database). b.oidc_login_attempt) e

pub lookup-attempts :
    (d now idle_lifetime touch_interval : ℕ) (db : Database)
    → (get_active_and_touch d now idle_lifetime touch_interval db).1.oidc_login_attempt
      ≡ db.oidc_login_attempt
lookup-attempts d now idle_lifetime touch_interval db =
    let (o, db', same, l) = get_active_and_touch-IsLookup d now idle_lifetime touch_interval db in
    rw same (IsLookup-attempts l)

pub create-attempts :
    (id : ℕ) (n : NewAdminSession) (db : Database)
    → (AdminSessions.create id n db).1.oidc_login_attempt ≡ db.oidc_login_attempt
unfolding AdminSessions.create
create-attempts id n db = ground arith

module _ (row : OidcLoginAttempt) where
  pub IsPending-same :
      (db db' : Database)
      → db'.oidc_login_attempt ≡ db.oidc_login_attempt
      → IsPending row db
      → IsPending row db'
  IsPending-same db db' same h = record {
    consistent = rw same h.consistent;
    stored = rw same h.stored;
  }

  -- Another login cleans up other rows, and is refused where the digest is taken.
  pub create-IsPending :
      (locked : ℕ → Bool) (id digest : ℕ) (flow : Entries) (return_to : String)
      (created_at expires_at : ℕ) (db : Database)
      → created_at < row.expires_at
      → IsPending row db
      → IsPending row (create locked id digest flow return_to created_at expires_at db).1
  create-IsPending locked id digest flow return_to created_at expires_at db early h = record {
    consistent =
        create-IsConsistent locked id digest flow return_to created_at expires_at db h.consistent;
    stored = elim (create-cases locked id digest flow return_to created_at expires_at db) [
      | inl same ↦ rw same h.stored
      | inr added ↦ rw added (
          there (
            (without_expired-IsCleanup locked created_at db.oidc_login_attempt h.consistent).live
              row h.stored (inl early)))
    ];
  }

  pub consume-IsPending :
      (digest now : ℕ) (db : Database)
      → digest ≢ row.token_digest
      → IsPending row db
      → IsPending row (consume digest now db).1
  unfolding consume delete_by
  consume-IsPending digest now db other h = record {
    consistent = consume-IsConsistent digest now db h.consistent;
    stored =
        keep-In (λ (r : OidcLoginAttempt). not (by_digest r == digest)) h.stored (ground arith);
  }
