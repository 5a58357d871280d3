-- ===== src/Config/Ranges.antt =====
-- The ranges of the settings' numbers, and lists without duplicates.
use pullfrog_azure.Prelude.{ℕ, ◌≤◌, ◌<◌, ◌%◌, ◌⊎◌, inl, inr, String, ◌≡◌, Option, List, arith}
use pullfrog_azure.Prelude.Int.{ℤ, pos, negsuc}
use pullfrog_azure.Config.{
  Settings, IdentityIds, identity_ids, bounded, float_up_to, parse_identity_ids, to_uuids,
}
use pullfrog_azure.Config.Identities.{IsDistinctList, reject_duplicate_identity_ids-eq-ok_iff}
use pullfrog_azure.Outcome.{ok, ◌>>=◌, >>=-eq-ok}

-- The pattern of NaN, or of a positive number up to that of `high`.
abbrev pub IsTimeout : (bits high : ℕ) → Type 0
IsTimeout bits high =
    (0x7FF0000000000000 < bits % 0x8000000000000000) ⊎ ((0 < bits) × (bits ≤ high))

-- The ranges of the numbers, and lists without duplicates.
pub record IsWithin (s : Settings) : Type 0 where
  pub idle : (10 ≤ s.admin_session_idle_minutes) × (s.admin_session_idle_minutes ≤ 1440)
  pub absolute : (1 ≤ s.admin_session_absolute_hours) × (s.admin_session_absolute_hours ≤ 168)
  pub attempt : (1 ≤ s.oidc_login_attempt_minutes) × (s.oidc_login_attempt_minutes ≤ 10)
  pub timeouts :
      IsTimeout s.readiness_timeout_seconds 0x7FF0000000000000
      × IsTimeout s.oidc_http_timeout_seconds 0x403E000000000000
      × IsTimeout s.oidc_operation_timeout_seconds 0x404E000000000000
  pub users : IsDistinctList s.admin_user_object_ids
  pub groups : IsDistinctList s.admin_group_object_ids

pub bounded_sound :
    (z : ℤ) (low high n : ℕ) → bounded z low high ≡ ok n → (z ≡ pos n) × ((low ≤ n) × (n ≤ high))
bounded_sound (pos k) low high n h = ground arith
bounded_sound (negsuc k) low high n h = cc

pub float_sound :
    (bits high n : ℕ)
    → float_up_to bits high ≡ ok n
    → high ≤ 0x7FF0000000000000
    → (bits ≡ n) × IsTimeout n high
float_sound bits high n h small = ground arith

pub bounded_complete :
    {z : ℤ} {low high n : ℕ} → z ≡ pos n → (low ≤ n) × (n ≤ high) → bounded z low high ≡ ok n
bounded_complete {z} {low} {high} {n} same range = rw same (ground arith)

pub float_complete :
    {bits high n : ℕ}
    → bits ≡ n
    → IsTimeout n high
    → high ≤ 0x7FF0000000000000
    → float_up_to bits high ≡ ok n
float_complete same (inl nan) small = ground arith
float_complete same (inr range) small = ground arith

pub identity_ids-IsDistinctList :
    (read : String → Option ℕ) (v : IdentityIds) (us : List ℕ)
    → identity_ids read v ≡ ok us
    → IsDistinctList us
unfolding identity_ids
identity_ids-IsDistinctList read v us h =
    let (parsed, e₁, h₁) = >>=-eq-ok (parse_identity_ids v >>= to_uuids read) _ h in
    let (same, d) = (reject_duplicate_identity_ids-eq-ok_iff parsed us).0 h₁ in rw (← same) d
