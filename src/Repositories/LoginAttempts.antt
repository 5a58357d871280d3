-- ===== src/Repositories/LoginAttempts.antt =====
-- repositories/login_attempts.py: login attempts are stored by the digest of their token, cleaned
-- up when they have expired, and consumed once.
pub mod Laws
pub mod Cleanup
pub mod Stored
pub mod Pending
pub mod Unstored
use pullfrog_azure.Prelude.{
  ℕ, String, Bool, true, false, not, ◌&&◌, ◌||◌, Option, none, some, List, [], ◌∷◌, map, leb, ltb,
  ◌==◌, if◌then◌else◌, any, keep, take, sort_by, text_length, is_some,
}
use pullfrog_azure.Auth.Domain.{data_error, integrity_error}
use pullfrog_azure.Exec.{Exec, return}
use pullfrog_azure.Models.{OidcLoginAttempt, Database}
use pullfrog_azure.Outcome.{Result, ok, raise}
use pullfrog_azure.Repositories.Table.{find_by, delete_by}
use pullfrog_azure.Values.{Entries}

pub record LoginAttemptRecord : Type 0 where
  pub flow : Entries
  pub return_to : String
  pub expires_at : ℕ

abbrev pub by_digest : OidcLoginAttempt → ℕ
by_digest row = row.token_digest

-- The at most 100 rows that expired first, of those that no other transaction has locked.
unfoldable pub expired_ids : (ℕ → Bool) → ℕ → List OidcLoginAttempt → List ℕ
expired_ids locked created_at rows =
    map (λ row. row.id)
      (take 100 (
        sort_by (λ row. row.expires_at)
          (keep (λ row. leb row.expires_at created_at && not (locked row.id)) rows)))

-- `DELETE … WHERE id IN (…)`
unfoldable pub without_expired : (ℕ → Bool) → ℕ → List OidcLoginAttempt → List OidcLoginAttempt
without_expired locked created_at rows =
    let ids = expired_ids locked created_at rows in
    keep (λ row. not (any (λ k. k == row.id) ids)) rows

-- The insertion that ends `create`: the column `return_to` holds 2048 characters, and digests and
-- ids are unique. A refused statement rolls the transaction back.
insert_attempt : OidcLoginAttempt → List OidcLoginAttempt → Exec Database (Unit {0})
insert_attempt row kept db =
    if ltb 2048 (text_length row.return_to)
    then (raise data_error, db)
    else if is_some (find_by by_digest row.token_digest kept)
        || is_some (find_by (λ r. r.id) row.id kept)
    then (raise integrity_error, db)
    else (ok tt, record db { oidc_login_attempt = row ∷ kept })

-- `locked` tells the rows that other transactions hold, `id` is the fresh `uuid4()`.
unfoldable pub create :
    (locked : ℕ → Bool) (id token_digest : ℕ) (flow : Entries) (return_to : String)
    (created_at expires_at : ℕ)
    → Exec Database (Unit {0})
unfolding insert_attempt
create locked id token_digest flow return_to created_at expires_at db =
    insert_attempt
      (record {
        id = id;
        token_digest = token_digest;
        flow = flow;
        return_to = return_to;
        created_at = created_at;
        expires_at = expires_at;
      })
      (without_expired locked created_at db.oidc_login_attempt) db

abbrev pub unexpired : ℕ → Option OidcLoginAttempt → Option LoginAttemptRecord
unexpired now none = none
unexpired now (some attempt) =
    if leb attempt.expires_at now
    then none
    else some (record {
      flow = attempt.flow;
      return_to = attempt.return_to;
      expires_at = attempt.expires_at;
    })

-- `DELETE … RETURNING` is committed before the row is looked at.
unfoldable pub consume : (token_digest now : ℕ) → Exec Database (Option LoginAttemptRecord)
consume token_digest now db = (
  ok (unexpired now (find_by by_digest token_digest db.oidc_login_attempt)),
  record db { oidc_login_attempt = delete_by by_digest token_digest db.oidc_login_attempt },
)
