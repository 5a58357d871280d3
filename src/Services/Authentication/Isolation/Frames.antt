-- ===== src/Services/Authentication/Isolation/Frames.antt =====
-- What the calls of the repositories keep: the row of a session, and a pending login attempt.
use pullfrog_azure.Prelude.{arith, ℕ, ◌<◌, ◌≢◌, ◌≡◌, refl, ◌∙◌}
use pullfrog_azure.Exec.Spares.{Spares-state}
use pullfrog_azure.Models.{AdminSession, OidcLoginAttempt}
use pullfrog_azure.Platform.{Platform}
use pullfrog_azure.Repositories.AdminSessions
use pullfrog_azure.Repositories.AdminSessions.{get_active_and_touch, revoke}
use pullfrog_azure.Repositories.AdminSessions.Spared.{
  IsStored, create-Spares, revoke-Spares, lookup-Spares, IsStored-same,
}
use pullfrog_azure.Repositories.LoginAttempts
use pullfrog_azure.Repositories.LoginAttempts.{consume}
use pullfrog_azure.Repositories.LoginAttempts.Pending.{
  IsPending, IsPending-same, lookup-attempts, create-attempts, create-IsPending, consume-IsPending,
}
use pullfrog_azure.Services.Authentication.Isolation.{Frame}

-- The session of the digest, against all that does not present it.
pub session-Frame :
    (p : Platform) (d : ℕ) (row : AdminSession)
    → Frame p
        (IsStored d row)
        (λ token. p.sha256 token ≢ d)
        (λ token. Unit)
        (λ id. id ≢ row.id)
        (λ now. Unit)
unfolding LoginAttempts.create consume
session-Frame p d row = record {
  created = λ id n. create-Spares d row id n;
  looked_up = λ token now i t other. lookup-Spares d row (p.sha256 token) now i t other;
  revoked = λ k now other. revoke-Spares d row k now other;
  attempted = λ locked id digest flow return_to created_at expires_at q.
      Spares-state (IsStored d row)
        (LoginAttempts.create locked id digest flow return_to created_at expires_at)
        (λ db h. IsStored-same d row db _ (ground arith) h);
  consumed = λ token now q.
      Spares-state (IsStored d row) (consume (p.sha256 token) now)
        (λ db h. IsStored-same d row db _ refl h);
}

-- The attempt, against all that does not present it and starts no login after its expiry.
pub attempt-Frame :
    (p : Platform) (d : ℕ) (row : OidcLoginAttempt)
    → row.token_digest ≡ d
    → Frame p
        (IsPending row)
        (λ token. Unit)
        (λ token. p.sha256 token ≢ d)
        (λ id. Unit)
        (λ now. now < row.expires_at)
unfolding revoke
attempt-Frame p d row own = record {
  created = λ id n.
      Spares-state (IsPending row) (AdminSessions.create id n)
        (λ db h. IsPending-same row db _ (create-attempts id n db) h);
  looked_up = λ token now i t q. record {
    from = λ db h.
        (IsPending-same row db _ (lookup-attempts (p.sha256 token) now i t db) h, λ o e r k. tt);
  };
  revoked = λ k now q.
      Spares-state (IsPending row) (revoke k now) (λ db h. IsPending-same row db _ refl h);
  attempted = λ locked id digest flow return_to created_at expires_at early.
      Spares-state (IsPending row)
        (LoginAttempts.create locked id digest flow return_to created_at expires_at)
        (λ db h.
          create-IsPending row locked id digest flow return_to created_at expires_at db early h);
  consumed = λ token now other.
      Spares-state (IsPending row) (consume (p.sha256 token) now)
        (λ db h. consume-IsPending row (p.sha256 token) now db (λ e. other (e ∙ own)) h);
}
