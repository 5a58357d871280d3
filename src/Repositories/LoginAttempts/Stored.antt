-- ===== src/Repositories/LoginAttempts/Stored.antt =====
-- The table of attempts over any sequence of repository operations: its unique values, and that
-- every stored return path is a local one.
use pullfrog_azure.Prelude.{
  ℕ, String, ◌≡◌, ◌⊎◌, inl, inr, Bool, Option, List, ◌∷◌, arith, In, here, there, In-keep, ap,
}
use pullfrog_azure.Auth.Policy.ReturnTo.{IsLocalPath}
use pullfrog_azure.Models.{OidcLoginAttempt, Database}
use pullfrog_azure.Outcome.{Result}
use pullfrog_azure.Repositories.AdminSessions
use pullfrog_azure.Repositories.AdminSessions.{
  AdminSessionRecord, get_active_and_touch, revoke, NewAdminSession,
}
use pullfrog_azure.Repositories.AdminSessions.Laws.{
  get_active_and_touch-IsLookup, IsLookup, rejected, untouched, refreshed,
}
use pullfrog_azure.Repositories.AdminSessions.Lifetime.{
  Step, created, looked_up, revoked, attempted, consumed, Reach, start, next,
}
use pullfrog_azure.Repositories.LoginAttempts.{create, consume, without_expired}
use pullfrog_azure.Repositories.LoginAttempts.Laws.{
  IsConsistent, new_attempt, create-IsConsistent, consume-IsConsistent,
}
use pullfrog_azure.Repositories.Table.{delete_by}
use pullfrog_azure.Values.{Entries}

-- What holds of the stored attempts at all times.
pub record IsSound (rows : List OidcLoginAttempt) : Type 0 where
  pub consistent : IsConsistent rows
  pub local : (row : OidcLoginAttempt) → In row rows → IsLocalPath row.return_to

abbrev pub attempts : Database → List OidcLoginAttempt
attempts db = db.oidc_login_attempt

In-without_expired :
    (locked : ℕ → Bool) (at : ℕ) (rows : List OidcLoginAttempt) {row : OidcLoginAttempt}
    → In row (without_expired locked at rows)
    → In row rows
unfolding without_expired
In-without_expired locked at rows i = (In-keep _ rows i).0

In-delete_by :
    (key : OidcLoginAttempt → ℕ) (k : ℕ) (rows : List OidcLoginAttempt) {row : OidcLoginAttempt}
    → In row (delete_by key k rows)
    → In row rows
unfolding delete_by
In-delete_by key k rows i = (In-keep _ rows i).0

module _ (locked : ℕ → Bool) (id token_digest : ℕ) (flow : Entries) (return_to : String)
    (created_at expires_at : ℕ) (db : Database) where
  abbrev pub result : Result (Unit {0}) × Database
  result = create locked id token_digest flow return_to created_at expires_at db

  pub create-cases :
      (attempts result.1 ≡ attempts db)
      ⊎ (attempts result.1
          ≡ new_attempt id token_digest flow return_to created_at expires_at
            ∷ without_expired locked created_at (attempts db))
  unfolding create
  create-cases = ground arith

  create-local :
      IsLocalPath return_to
      → ((row : OidcLoginAttempt) → In row (attempts db) → IsLocalPath row.return_to)
      → (row : OidcLoginAttempt) → In row (attempts result.1)
      → IsLocalPath row.return_to
  create-local path local row i = elim create-cases [
    | inl same ↦ local row (rw same at i)
    | inr added ↦ among (rw added at i)
  ]
    where
      among :
          In row (
            new_attempt id token_digest flow return_to created_at expires_at
            ∷ without_expired locked created_at (attempts db))
          → IsLocalPath row.return_to
      among (here e) = rw (← e) path
      among (there j) = local row (In-without_expired locked created_at (attempts db) j)

session_step-attempts :
    {d now idle_lifetime touch_interval : ℕ} {db db' : Database} {o : Option AdminSessionRecord}
    → IsLookup d now idle_lifetime touch_interval db o db'
    → attempts db' ≡ attempts db
session_step-attempts (rejected _ e) = ap attempts e
session_step-attempts (untouched _ _ _ _ _ e) = ap attempts e
session_step-attempts (refreshed _ _ _ _ _ e) = ap attempts e

create_session-attempts :
    (id : ℕ) (n : NewAdminSession) (db : Database)
    → attempts (AdminSessions.create id n db).1 ≡ attempts db
unfolding AdminSessions.create
create_session-attempts id n db = ground arith

Step-IsSound : {db db' : Database} → Step db db' → IsSound (attempts db) → IsSound (attempts db')
unfolding revoke consume
Step-IsSound {db} (created id n fits) s = rw (create_session-attempts id n db) s
Step-IsSound {db} (looked_up d now idle_lifetime touch_interval) s =
    let (o, db', same, l) = get_active_and_touch-IsLookup d now idle_lifetime touch_interval db in
    rw (same, session_step-attempts l) s
Step-IsSound (revoked k now) s = s
Step-IsSound {db} (attempted locked id d flow return_to created_at expires_at path) s = record {
  consistent = create-IsConsistent locked id d flow return_to created_at expires_at db s.consistent;
  local = create-local locked id d flow return_to created_at expires_at db path s.local;
}
Step-IsSound {db} (consumed d now) s = record {
  consistent = consume-IsConsistent d now db s.consistent;
  local = λ row i. s.local row (In-delete_by (λ r. r.token_digest) d (attempts db) i);
}

-- The attempts stay sound along any sequence of operations.
pub Reach-IsSound :
    {db db' : Database} → IsSound (attempts db) → Reach db db' → IsSound (attempts db')
Reach-IsSound s start = s
Reach-IsSound s (next r st) = Step-IsSound st (Reach-IsSound s r)
