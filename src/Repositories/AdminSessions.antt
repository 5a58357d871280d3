-- ===== src/Repositories/AdminSessions.antt =====
-- repositories/admin_sessions.py: server-side sessions, found by the digest of their token, touched
-- at a limited rate and never beyond their absolute expiry, and revoked.
pub mod Laws
pub mod Lifetime
pub mod Lookup
pub mod Kept
pub mod Store
pub mod Agreement
pub mod Refined
pub mod Spared
pub mod Unconfigured
use Prim.Native.Nat.{min}
use pullfrog_azure.Prelude.{
  ℕ, ◌+◌, String, Bool, true, false, ◌||◌, ◌&&◌, not, Option, none, some, List, [], ◌∷◌, leb, ltb,
  ◌==◌, if◌then◌else◌, is_some, text_length,
}
use pullfrog_azure.Auth.Domain.{AdminIdentityRef, data_error, integrity_error}
use pullfrog_azure.Exec.{Exec}
use pullfrog_azure.Models.{AdminSession, Database}
use pullfrog_azure.Outcome.{ok, raise}
use pullfrog_azure.Repositories.Table.{find_by, update_by}

pub record NewAdminSession : Type 0 where
  pub token_digest : ℕ
  pub csrf_token_digest : ℕ
  pub tenant_id : ℕ
  pub user_object_id : ℕ
  pub authorizer : AdminIdentityRef
  pub display_name : Option String
  pub created_at : ℕ
  pub idle_expires_at : ℕ
  pub absolute_expires_at : ℕ

pub record AdminSessionRecord : Type 0 where
  pub session_id : ℕ
  pub csrf_token_digest : ℕ
  pub tenant_id : ℕ
  pub user_object_id : ℕ
  pub authorizer : AdminIdentityRef
  pub display_name : Option String
  pub created_at : ℕ
  pub last_seen_at : ℕ
  pub idle_expires_at : ℕ
  pub absolute_expires_at : ℕ
  pub revoked_at : Option ℕ

abbrev pub session_record : AdminSession → AdminSessionRecord
session_record session = record {
  session_id = session.id;
  csrf_token_digest = session.csrf_token_digest;
  tenant_id = session.tenant_id;
  user_object_id = session.user_object_id;
  authorizer = record {
    tenant_id = session.tenant_id;
    kind = session.authorizing_kind;
    object_id = session.authorizing_object_id;
  };
  display_name = session.display_name;
  created_at = session.created_at;
  last_seen_at = session.last_seen_at;
  idle_expires_at = session.idle_expires_at;
  absolute_expires_at = session.absolute_expires_at;
  revoked_at = session.revoked_at;
}

abbrev pub by_digest : AdminSession → ℕ
by_digest row = row.token_digest

abbrev pub by_id : AdminSession → ℕ
by_id row = row.id

-- the row that `create` adds, under the fresh `uuid4()`
abbrev pub new_row : ℕ → NewAdminSession → AdminSession
new_row id r = record {
  id = id;
  token_digest = r.token_digest;
  csrf_token_digest = r.csrf_token_digest;
  tenant_id = r.tenant_id;
  user_object_id = r.user_object_id;
  authorizing_kind = r.authorizer.kind;
  authorizing_object_id = r.authorizer.object_id;
  display_name = r.display_name;
  created_at = r.created_at;
  last_seen_at = r.created_at;
  idle_expires_at = r.idle_expires_at;
  absolute_expires_at = r.absolute_expires_at;
  revoked_at = none;
}

-- the column `display_name` holds 256 characters
abbrev too_long : Option String → Bool
too_long none = false
too_long (some name) = ltb 256 (text_length name)

unfoldable pub create : ℕ → NewAdminSession → Exec Database AdminSessionRecord
create id r db =
    if too_long r.display_name
    then (raise data_error, db)
    else if is_some (find_by by_digest r.token_digest db.admin_session)
        || is_some (find_by by_id id db.admin_session)
    then (raise integrity_error, db)
    else (
      ok (session_record (new_row id r)),
      record db { admin_session = new_row id r ∷ db.admin_session },
    )

-- revoked, idle too long, or past its absolute expiry
abbrev pub is_inactive : ℕ → AdminSession → Bool
is_inactive now stored =
    is_some stored.revoked_at
    || leb stored.idle_expires_at now
    || leb stored.absolute_expires_at now

abbrev pub touched : (now idle_lifetime : ℕ) → AdminSession → AdminSession
touched now idle_lifetime stored = record stored {
  last_seen_at = now;
  idle_expires_at = min (now + idle_lifetime) stored.absolute_expires_at;
}

-- `stored.last_seen_at <= now - touch_interval`, with both sides moved by the interval
touch_active :
    (now idle_lifetime touch_interval : ℕ)
    → AdminSession
    → Exec Database (Option AdminSessionRecord)
touch_active now idle_lifetime touch_interval stored db =
    if leb (stored.last_seen_at + touch_interval) now
    then (
      ok (some (session_record (touched now idle_lifetime stored))),
      record db {
        admin_session = update_by by_id stored.id (touched now idle_lifetime) db.admin_session;
      },
    )
    else (ok (some (session_record stored)), db)

check_stored :
    (now idle_lifetime touch_interval : ℕ)
    → Option AdminSession
    → Exec Database (Option AdminSessionRecord)
check_stored now idle_lifetime touch_interval none db = (ok none, db)
check_stored now idle_lifetime touch_interval (some stored) db =
    if is_inactive now stored
    then (ok none, db)
    else touch_active now idle_lifetime touch_interval stored db

unfoldable pub get_active_and_touch :
    (token_digest now idle_lifetime touch_interval : ℕ) → Exec Database (Option AdminSessionRecord)
unfolding check_stored touch_active
get_active_and_touch token_digest now idle_lifetime touch_interval db =
    check_stored now idle_lifetime touch_interval (find_by by_digest token_digest db.admin_session)
      db

-- `UPDATE … SET revoked_at = now WHERE id = … AND revoked_at IS NULL`
abbrev pub mark_revoked : ℕ → AdminSession → AdminSession
mark_revoked now row = if is_some row.revoked_at then row else record row { revoked_at = some now }

unfoldable pub revoke : (session_id now : ℕ) → Exec Database (Unit {0})
revoke session_id now db = (
  ok tt,
  record db { admin_session = update_by by_id session_id (mark_revoked now) db.admin_session },
)
