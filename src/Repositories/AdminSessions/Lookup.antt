-- ===== src/Repositories/AdminSessions/Lookup.antt =====
-- What a session lookup returns, and that a new session is found until it expires.
use pullfrog_azure.Prelude.{
  ℕ, ◌+◌, ◌≤◌, ◌<◌, ◌≡◌, refl, ◌⊎◌, inl, inr, Option, none, some, arith, ap, Option-cases,
}
use pullfrog_azure.Models.{AdminSession, Database}
use pullfrog_azure.Outcome.{ok}
use pullfrog_azure.Repositories.Table.{find_by}
use pullfrog_azure.Repositories.AdminSessions.{
  NewAdminSession, AdminSessionRecord, session_record, by_digest, new_row, create, touched,
  get_active_and_touch,
}
use pullfrog_azure.Repositories.AdminSessions.Laws.{
  IsActive, IsLookup, rejected, untouched, refreshed, get_active_and_touch-IsLookup,
}

-- The record that a lookup returns, against the row that it was read from.
pub record IsRecordOf (now idle_lifetime touch_interval : ℕ) (row : AdminSession)
    (r : AdminSessionRecord) : Type 0 where
  pub session_id : r.session_id ≡ row.id
  pub csrf_token_digest : r.csrf_token_digest ≡ row.csrf_token_digest
  pub tenant_id : (r.tenant_id ≡ row.tenant_id) × (r.authorizer.tenant_id ≡ row.tenant_id)
  pub user_object_id : r.user_object_id ≡ row.user_object_id
  pub created_at : r.created_at ≡ row.created_at
  pub authorizing_kind : r.authorizer.kind ≡ row.authorizing_kind
  pub authorizing_object_id : r.authorizer.object_id ≡ row.authorizing_object_id
  pub display_name : r.display_name ≡ row.display_name
  pub absolute_expires_at : r.absolute_expires_at ≡ row.absolute_expires_at
  pub unrevoked : r.revoked_at ≡ none
  -- the idle expiry moves only when the interval has passed, and never behind the absolute one
  pub idle_expires_at :
      ((now < row.last_seen_at + touch_interval)
        × (r.last_seen_at ≡ row.last_seen_at)
        × (r.idle_expires_at ≡ row.idle_expires_at))
      ⊎ ((row.last_seen_at + touch_interval ≤ now)
          × (r.last_seen_at ≡ now)
          × (r.idle_expires_at ≤ now + idle_lifetime)
          × (r.idle_expires_at ≤ row.absolute_expires_at)
          × ((now + idle_lifetime ≤ r.idle_expires_at)
              ⊎ (row.absolute_expires_at ≤ r.idle_expires_at)))

module _ (d now idle_lifetime touch_interval : ℕ) (db : Database) where
  lookup_sound :
      {o : Option AdminSessionRecord} {db' : Database}
      → IsLookup d now idle_lifetime touch_interval db o db'
      → (r : AdminSessionRecord) → o ≡ some r
      → (row : AdminSession) × (find_by by_digest d db.admin_session ≡ some row)
        × IsActive now row
        × IsRecordOf now idle_lifetime touch_interval row r
  lookup_sound (rejected e _) r h = cc
  lookup_sound (untouched stored found a soon e _) r h =
      let same : session_record stored ≡ r = cc in
      (stored, found, a, rw (← same) (record_untouched stored a soon))
    where
      record_untouched :
          (s : AdminSession)
          → IsActive now s
          → now < s.last_seen_at + touch_interval
          → IsRecordOf now idle_lifetime touch_interval s (session_record s)
      record_untouched s a soon = ground arith
  lookup_sound (refreshed stored found a due e _) r h =
      let same : session_record (touched now idle_lifetime stored) ≡ r = cc in
      (stored, found, a, rw (← same) (record_touched stored a due))
    where
      record_touched :
          (s : AdminSession)
          → IsActive now s
          → s.last_seen_at + touch_interval ≤ now
          → IsRecordOf now idle_lifetime touch_interval s
              (session_record (touched now idle_lifetime s))
      record_touched s a due = ground arith

  -- A lookup that returns a record has found a row of the digest that is neither revoked nor expired
  -- at that instant; the record shows that row, its authorizer included, with the idle expiry moved
  -- only if the touch interval has passed, and then to the earlier of the instant plus the idle
  -- lifetime and the row's absolute expiry.
  pub get_active_and_touch_sound :
      (r : AdminSessionRecord)
      → (get_active_and_touch d now idle_lifetime touch_interval db).0 ≡ ok (some r)
      → (row : AdminSession) × (find_by by_digest d db.admin_session ≡ some row)
        × IsActive now row
        × IsRecordOf now idle_lifetime touch_interval row r
  get_active_and_touch_sound r h =
      let (o, db', same, l) = get_active_and_touch-IsLookup d now idle_lifetime touch_interval db in
      let e : ok o ≡ ok (some r) = rw same at h in lookup_sound l r (cc)

  -- A row that is active is found.
  active_found :
      {o : Option AdminSessionRecord} {db' : Database} (row : AdminSession)
      → IsActive now row
      → get_active_and_touch d now idle_lifetime touch_interval db ≡ (ok o, db')
      → find_by by_digest d db.admin_session ≡ some row
      → (r : AdminSessionRecord) × (o ≡ some r)
  unfolding get_active_and_touch
  active_found {o} row a h found = elim (Option-cases o) [
    | inr hit ↦ hit
    | inl missing ↦ absurd (contradiction missing)
  ]
    where
      contradiction : o ≡ none → ⊥
      contradiction missing = ground arith

-- The row of a digest that is active at an instant is found then.
pub lookup_complete :
    (d now idle_lifetime touch_interval : ℕ) (db : Database) (row : AdminSession)
    → find_by by_digest d db.admin_session ≡ some row
    → IsActive now row
    → (r : AdminSessionRecord) × ((get_active_and_touch d now idle_lifetime touch_interval db).0
        ≡ ok (some r))
      × IsRecordOf now idle_lifetime touch_interval row r
lookup_complete d now idle_lifetime touch_interval db row found a =
    let (o, db', same, l) = get_active_and_touch-IsLookup d now idle_lifetime touch_interval db in
    finish o db' same l (active_found d now idle_lifetime touch_interval db row a same found)
  where
    finish :
        (o : Option AdminSessionRecord) (db' : Database)
        → get_active_and_touch d now idle_lifetime touch_interval db ≡ (ok o, db')
        → IsLookup d now idle_lifetime touch_interval db o db'
        → (r : AdminSessionRecord) × (o ≡ some r)
        → (r : AdminSessionRecord) × ((get_active_and_touch d now idle_lifetime touch_interval db).0
            ≡ ok (some r))
          × IsRecordOf now idle_lifetime touch_interval row r
    finish o db' same l (r, e) =
        let (row', found', _, q) = lookup_sound d now idle_lifetime touch_interval db l r e in
        let one : row' ≡ row = cc (found, found') in (r, rw same (ap ok e), rw one at q)

pub create-found :
    (id : ℕ) (n : NewAdminSession) (db db' : Database) (s : AdminSessionRecord)
    → create id n db ≡ (ok s, db')
    → find_by by_digest n.token_digest db'.admin_session ≡ some (new_row id n)
unfolding create find_by
create-found id n db db' s h = ground arith

-- Only the session table changes.
pub create-identities :
    (id : ℕ) (n : NewAdminSession) (db db' : Database) (s : AdminSessionRecord)
    → create id n db ≡ (ok s, db')
    → db'.admin_identity ≡ db.admin_identity
unfolding create
create-identities id n db db' s h = ground arith

-- A session that `create` stored is found by its token digest at every instant before both its
-- expiries, as a record of the row with the id, authorizer, digests and expiries of its creation.
pub get_active_and_touch-create :
    (id now idle_lifetime touch_interval : ℕ) (n : NewAdminSession) (db db' : Database)
    (s : AdminSessionRecord)
    → create id n db ≡ (ok s, db')
    → now < n.idle_expires_at
    → now < n.absolute_expires_at
    → (r : AdminSessionRecord) × ((get_active_and_touch n.token_digest now idle_lifetime
          touch_interval db').0
        ≡ ok (some r))
      × IsRecordOf now idle_lifetime touch_interval (new_row id n) r
get_active_and_touch-create id now idle_lifetime touch_interval n db db' s h idle over =
    lookup_complete n.token_digest now idle_lifetime touch_interval db' (new_row id n)
      (create-found id n db db' s h) (record { unrevoked = refl; not_idle = idle; not_over = over })
