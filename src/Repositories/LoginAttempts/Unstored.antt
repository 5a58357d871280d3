-- ===== src/Repositories/LoginAttempts/Unstored.antt =====
-- A digest that no login attempt has, over operations that store no attempt of that digest.
use pullfrog_azure.Prelude.{ℕ, ◌≡◌, ◌≢◌, none, inl, inr, keep}
use pullfrog_azure.Models.{Database}
use pullfrog_azure.Repositories.AdminSessions.{revoke}
use pullfrog_azure.Repositories.AdminSessions.Lifetime.{
  Step, created, looked_up, revoked, attempted, consumed,
}
use pullfrog_azure.Repositories.LoginAttempts.{by_digest, consume, without_expired}
use pullfrog_azure.Repositories.LoginAttempts.Pending.{lookup-attempts, create-attempts}
use pullfrog_azure.Repositories.LoginAttempts.Stored.{attempts, create-cases}
use pullfrog_azure.Repositories.Table.{
  find_by, delete_by, IsAbsent, IsAbsent-keep, IsAbsent-find_by, find_by-eq-none,
}

-- The operation stores no attempt of the digest.
abbrev pub IsOther : (d : ℕ) {db db' : Database} → Step db db' → Type 0
IsOther d (created id r fits) = Unit
IsOther d (looked_up e now idle_lifetime touch_interval) = Unit
IsOther d (revoked k now) = Unit
IsOther d (attempted locked id e flow return_to created_at expires_at path) = e ≢ d
IsOther d (consumed e now) = Unit

-- Any sequence of operations, none of which stores an attempt of the digest.
pub data Meanwhile (d : ℕ) (db : Database) : Database → Type 0 where
  at_once : Meanwhile d db db
  after_step :
      {db' db'' : Database}
      → Meanwhile d db db'
      → (s : Step db' db'') → IsOther d s
      → Meanwhile d db db''

module _ (d : ℕ) where
  Step-IsAbsent :
      {db db' : Database} (s : Step db db')
      → IsOther d s
      → IsAbsent by_digest d (attempts db)
      → IsAbsent by_digest d (attempts db')
  unfolding revoke consume without_expired delete_by keep
  Step-IsAbsent {db} (created id r fits) other h = rw (create-attempts id r db) h
  Step-IsAbsent {db} (looked_up e now i t) other h = rw (lookup-attempts e now i t db) h
  Step-IsAbsent (revoked k now) other h = h
  Step-IsAbsent {db} (attempted locked id e flow return_to created_at expires_at path) other h =
      elim (create-cases locked id e flow return_to created_at expires_at db) [
        | inl same ↦ rw same h
        | inr added ↦ rw added (other, IsAbsent-keep by_digest _ d (attempts db) h)
      ]
  Step-IsAbsent {db} (consumed e now) other h = IsAbsent-keep by_digest _ d (attempts db) h

  Meanwhile-IsAbsent :
      {db db' : Database}
      → Meanwhile d db db'
      → IsAbsent by_digest d (attempts db)
      → IsAbsent by_digest d (attempts db')
  Meanwhile-IsAbsent at_once h = h
  Meanwhile-IsAbsent (after_step m s other) h = Step-IsAbsent s other (Meanwhile-IsAbsent m h)

  pub Meanwhile-find_by :
      {db db' : Database}
      → Meanwhile d db db'
      → find_by by_digest d (attempts db) ≡ none
      → find_by by_digest d (attempts db') ≡ none
  Meanwhile-find_by {db} {db'} m h =
      IsAbsent-find_by by_digest d (attempts db')
        (Meanwhile-IsAbsent m (find_by-eq-none by_digest d (attempts db) h))
