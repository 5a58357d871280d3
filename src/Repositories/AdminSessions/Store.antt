-- ===== src/Repositories/AdminSessions/Store.antt =====
-- What the service asks of a store of sessions, the repository as such a store, and the abstract one:
-- a function from digests to sessions, without rows, their order or a second key.
use mathlib.Core.Option
use pullfrog_azure.Prelude.{
  ℕ, ◌+◌, Bool, ◌||◌, Option, none, some, List, [], ◌∷◌, leb, ◌==◌, if◌then◌else◌, is_some,
}
use pullfrog_azure.Auth.Domain.{data_error, integrity_error}
use pullfrog_azure.Exec.{Exec, return, ◌>>=◌, ◌>>◌}
use pullfrog_azure.Models.{AdminSession, Database}
use pullfrog_azure.Outcome.{Result, ok, raise}
use pullfrog_azure.Repositories.AdminSessions
use pullfrog_azure.Repositories.AdminSessions.{
  AdminSessionRecord, NewAdminSession, session_record, new_row, too_long, is_inactive, touched,
  by_id, mark_revoked, get_active_and_touch, revoke,
}
use pullfrog_azure.Repositories.Table.{find_by}

-- `AdminSessionStore`, over any state; `create` draws its row id.
pub record AdminSessionStore (S : Type 0) : Type 0 where
  pub create : (id : ℕ) → NewAdminSession → Exec S AdminSessionRecord
  pub get_active_and_touch :
      (token_digest now idle_lifetime touch_interval : ℕ) → Exec S (Option AdminSessionRecord)
  pub revoke : (session_id now : ℕ) → Exec S (Unit {0})

-- `AdminSessionRepository`
abbrev pub admin_session_repository : AdminSessionStore Database
admin_session_repository = record {
  create = AdminSessions.create;
  get_active_and_touch = get_active_and_touch;
  revoke = revoke;
}

-- One session for a digest, and the ids that are taken.
pub record SessionMap : Type 0 where
  pub at_digest : ℕ → Option AdminSession
  pub has_id : ℕ → Bool

abbrev insert : ℕ → NewAdminSession → Exec SessionMap AdminSessionRecord
insert id n m =
    if too_long n.display_name
    then (raise data_error, m)
    else if is_some (m.at_digest n.token_digest) || m.has_id id
    then (raise integrity_error, m)
    else (
      ok (session_record (new_row id n)),
      record {
        at_digest = λ d. if n.token_digest == d then some (new_row id n) else m.at_digest d;
        has_id = λ k. id == k || m.has_id k;
      },
    )

abbrev pub replace : (d : ℕ) → AdminSession → SessionMap → SessionMap
replace d session m = record m {
  at_digest = λ d'. if d == d' then some session else m.at_digest d';
}

abbrev pub touch :
    (d now idle_lifetime touch_interval : ℕ)
    → Option AdminSession
    → Exec SessionMap (Option AdminSessionRecord)
touch d now idle_lifetime touch_interval none m = (ok none, m)
touch d now idle_lifetime touch_interval (some session) m =
    if is_inactive now session
    then (ok none, m)
    else if leb (session.last_seen_at + touch_interval) now
    then (
      ok (some (session_record (touched now idle_lifetime session))),
      replace d (touched now idle_lifetime session) m,
    )
    else (ok (some (session_record session)), m)

-- Every session of the id, which is at most one.
abbrev pub end_session : (k now : ℕ) → SessionMap → SessionMap
end_session k now m = record m {
  at_digest = λ d.
      Option.map (λ (s : AdminSession). if by_id s == k then mark_revoked now s else s)
        (m.at_digest d);
}

abbrev pub session_map : AdminSessionStore SessionMap
session_map = record {
  create = insert;
  get_active_and_touch = λ d now idle_lifetime touch_interval m.
      touch d now idle_lifetime touch_interval (m.at_digest d) m;
  revoke = λ k now m. (ok tt, end_session k now m);
}

-- what the rows of the table say
abbrev pub abstraction : Database → SessionMap
abstraction db = record {
  at_digest = λ d. find_by AdminSessions.by_digest d db.admin_session;
  has_id = λ k. is_some (find_by by_id k db.admin_session);
}

-- A call of a store, and the replies of a sequence of calls.
pub data Call : Type 0 where
  create_call : (id : ℕ) → NewAdminSession → Call
  lookup_call : (token_digest now idle_lifetime touch_interval : ℕ) → Call
  revoke_call : (session_id now : ℕ) → Call

module _ {S : Type 0} (store : AdminSessionStore S) where
  abbrev pub call : Call → Exec S (Option AdminSessionRecord)
  call (create_call id n) = do created ← store.create id n; return (some created)
  call (lookup_call token_digest now idle_lifetime touch_interval) =
      store.get_active_and_touch token_digest now idle_lifetime touch_interval
  call (revoke_call session_id now) = do store.revoke session_id now; return none

  abbrev pub replies : List Call → S → List (Result (Option AdminSessionRecord))
  replies [] s = []
  replies (c ∷ cs) s = (call c s).0 ∷ replies cs (call c s).1
