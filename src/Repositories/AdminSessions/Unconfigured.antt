-- ===== src/Repositories/AdminSessions/Unconfigured.antt =====
-- That no operation changes the configured identities of the database.
use pullfrog_azure.Prelude.{ℕ, ◌≡◌, refl, ap, ◌∙◌, arith, Option}
use pullfrog_azure.Models.{Database}
use pullfrog_azure.Repositories.AdminSessions.{AdminSessionRecord, create, revoke}
use pullfrog_azure.Repositories.AdminSessions.Laws.{
  IsLookup, rejected, untouched, refreshed, get_active_and_touch-IsLookup,
}
use pullfrog_azure.Repositories.AdminSessions.Lifetime.{
  Step, created, looked_up, revoked, attempted, consumed, Reach, start, next,
}
use pullfrog_azure.Repositories.LoginAttempts

same_identities :
    {d now idle_lifetime touch_interval : ℕ} {db db' : Database} {o : Option AdminSessionRecord}
    → IsLookup d now idle_lifetime touch_interval db o db'
    → db'.admin_identity ≡ db.admin_identity
same_identities (rejected _ e) = ap (λ (b : Database). b.admin_identity) e
same_identities (untouched _ _ _ _ _ e) = ap (λ (b : Database). b.admin_identity) e
same_identities (refreshed _ _ _ _ _ e) = ap (λ (b : Database). b.admin_identity) e

Step-identities : {db db' : Database} → Step db db' → db'.admin_identity ≡ db.admin_identity
unfolding create revoke LoginAttempts.create LoginAttempts.consume
Step-identities {db} (created id r fits) = ground arith
Step-identities {db} (looked_up d now idle_lifetime touch_interval) =
    let (o, db', same, l) = get_active_and_touch-IsLookup d now idle_lifetime touch_interval db in
    ap (λ x. x.1.admin_identity) same ∙ same_identities l
Step-identities {db} (revoked k now) = refl
Step-identities {db} (attempted locked id d flow return_to created_at expires_at path) =
    ground arith
Step-identities {db} (consumed d now) = refl

pub Reach-identities : {db db' : Database} → Reach db db' → db'.admin_identity ≡ db.admin_identity
Reach-identities start = refl
Reach-identities (next r st) = Step-identities st ∙ Reach-identities r
