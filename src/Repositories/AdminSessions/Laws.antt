-- ===== src/Repositories/AdminSessions/Laws.antt =====
-- What each operation of the session repository does to the rows, and the invariant of the table.
use mathlib.Core.Option
use pullfrog_azure.Prelude.{
  ℕ, ◌+◌, ◌≤◌, ◌<◌, ◌≡◌, refl, ◌⊎◌, inl, inr, Option, none, some, List, map, arith, leb, ◌==◌,
  ==_iff, if◌then◌else◌, In, In-map, Bool-cases, Option-cases, ap, ◌∙◌,
}
use pullfrog_azure.Models.{AdminSession, Database}
use pullfrog_azure.Outcome.{ok}
use pullfrog_azure.Repositories.Table.{
  find_by, update_by, IsDistinct, find_by-In, find_by-map, IsDistinct-map, IsDistinct-In,
}
use pullfrog_azure.Repositories.AdminSessions.{
  AdminSessionRecord, session_record, by_digest, by_id, is_inactive, touched, touch_active,
  check_stored, get_active_and_touch, mark_revoked,
}

-- A session was last seen after it was created, and its idle expiry is never behind its absolute one.
pub record IsValidRow (row : AdminSession) : Type 0 where
  pub seen : row.created_at ≤ row.last_seen_at
  pub capped : row.idle_expires_at ≤ row.absolute_expires_at

-- The unique constraints of the table, and every row valid.
pub record IsConsistent (rows : List AdminSession) : Type 0 where
  pub digests : IsDistinct by_digest rows
  pub ids : IsDistinct by_id rows
  pub valid : (row : AdminSession) → In row rows → IsValidRow row

-- Neither revoked nor expired at the instant.
pub record IsActive (now : ℕ) (row : AdminSession) : Type 0 where
  pub unrevoked : row.revoked_at ≡ none
  pub not_idle : now < row.idle_expires_at
  pub not_over : now < row.absolute_expires_at

-- What may become of a row: only the last-seen instant, the idle expiry and the revocation change,
-- the first never goes back, and a revocation stays as it is.
pub record Evolves (a b : AdminSession) : Type 0 where
  pub id : b.id ≡ a.id
  pub token_digest : b.token_digest ≡ a.token_digest
  pub csrf_token_digest : b.csrf_token_digest ≡ a.csrf_token_digest
  pub tenant_id : b.tenant_id ≡ a.tenant_id
  pub user_object_id : b.user_object_id ≡ a.user_object_id
  pub authorizing_kind : b.authorizing_kind ≡ a.authorizing_kind
  pub authorizing_object_id : b.authorizing_object_id ≡ a.authorizing_object_id
  pub display_name : b.display_name ≡ a.display_name
  pub created_at : b.created_at ≡ a.created_at
  pub absolute_expires_at : b.absolute_expires_at ≡ a.absolute_expires_at
  pub last_seen_at : a.last_seen_at ≤ b.last_seen_at
  pub revoked_at : (a.revoked_at ≡ none) ⊎ (b.revoked_at ≡ a.revoked_at)

pub Evolves-refl : (a : AdminSession) → Evolves a a
Evolves-refl a = ground arith

pub Evolves-trans : {a b c : AdminSession} → Evolves a b → Evolves b c → Evolves a c
Evolves-trans e f = ground arith

pub Evolves-valid :
    {a b : AdminSession}
    → Evolves a b
    → b.idle_expires_at ≤ b.absolute_expires_at
    → IsValidRow a
    → IsValidRow b
Evolves-valid e h v = ground arith

-- A change of all rows that lets each row evolve.
pub record IsEvolution (g : AdminSession → AdminSession) (rows : List AdminSession) : Type 0 where
  pub digest : (row : AdminSession) → (g row).token_digest ≡ row.token_digest
  pub same_id : (row : AdminSession) → (g row).id ≡ row.id
  pub evolves : (row : AdminSession) → In row rows → Evolves row (g row)
  pub capped :
      (row : AdminSession)
      → In row rows
      → IsValidRow row
      → (g row).idle_expires_at ≤ (g row).absolute_expires_at

module _ (g : AdminSession → AdminSession) (rows : List AdminSession) (e : IsEvolution g rows) where
  pub map-IsConsistent : IsConsistent rows → IsConsistent (map g rows)
  map-IsConsistent c = record {
    digests = IsDistinct-map by_digest g e.digest rows c.digests;
    ids = IsDistinct-map by_id g e.same_id rows c.ids;
    valid = λ row' i.
        let (row, j, same) = In-map g rows i in
        rw (← same)
          (Evolves-valid (e.evolves row j) (e.capped row j (c.valid row j)) (c.valid row j));
  }

  pub map-Evolves :
      (d : ℕ) (row : AdminSession)
      → find_by by_digest d rows ≡ some row
      → (row' : AdminSession) × (find_by by_digest d (map g rows) ≡ some row') × Evolves row row'
  map-Evolves d row h = (
    g row,
    find_by-map by_digest g e.digest d rows ∙ ap (Option.map g) h,
    e.evolves row (find_by-In by_digest d rows row h),
  )

-- the change that `update_by` makes, and those of the two updates
abbrev pub touch_row : (k now idle_lifetime : ℕ) → AdminSession → AdminSession
touch_row k now idle_lifetime row = if by_id row == k then touched now idle_lifetime row else row

abbrev pub revoke_row : (k now : ℕ) → AdminSession → AdminSession
revoke_row k now row = if by_id row == k then mark_revoked now row else row

pub revoke_row-IsEvolution :
    (k now : ℕ) (rows : List AdminSession) → IsEvolution (revoke_row k now) rows
revoke_row-IsEvolution k now rows = record {
  digest = λ row. ground arith;
  same_id = λ row. ground arith;
  evolves = λ row i. ground arith;
  capped = λ row i v. ground arith;
}

-- A row touched at `now` was last seen before.
pub touch_row-IsEvolution :
    (stored : AdminSession) (now idle_lifetime : ℕ) (rows : List AdminSession)
    → IsConsistent rows
    → In stored rows
    → stored.last_seen_at ≤ now
    → IsEvolution (touch_row stored.id now idle_lifetime) rows
touch_row-IsEvolution stored now idle_lifetime rows c i past = record {
  digest = λ row. ground arith;
  same_id = λ row. ground arith;
  evolves = λ row j. evolve row (λ e. IsDistinct-In by_id c.ids j i e);
  capped = λ row j v. ground arith;
}
  where
    evolve :
        (row : AdminSession)
        → (row.id ≡ stored.id → row ≡ stored)
        → Evolves row (touch_row stored.id now idle_lifetime row)
    evolve row same = elim (Bool-cases (row.id == stored.id)) [
      | inr other ↦ rw other (Evolves-refl row)
      | inl hit ↦
          let eq =
            ap (λ (r : AdminSession). r.last_seen_at) (same ((==_iff row.id stored.id).0 hit)) in
          rw hit (ground arith)
    ]

-- What `get_active_and_touch` can do to the table: nothing, or touch an active row that was last
-- seen at least the interval ago.
pub data IsLookup (d now idle_lifetime touch_interval : ℕ) (db : Database)
    : Option AdminSessionRecord → Database → Type 0 where
  rejected :
      {o : Option AdminSessionRecord} {db' : Database}
      → o ≡ none
      → db' ≡ db
      → IsLookup d now idle_lifetime touch_interval db o db'
  untouched :
      {o : Option AdminSessionRecord} {db' : Database} (stored : AdminSession)
      → find_by by_digest d db.admin_session ≡ some stored
      → IsActive now stored
      → now < stored.last_seen_at + touch_interval
      → o ≡ some (session_record stored)
      → db' ≡ db
      → IsLookup d now idle_lifetime touch_interval db o db'
  refreshed :
      {o : Option AdminSessionRecord} {db' : Database} (stored : AdminSession)
      → find_by by_digest d db.admin_session ≡ some stored
      → IsActive now stored
      → stored.last_seen_at + touch_interval ≤ now
      → o ≡ some (session_record (touched now idle_lifetime stored))
      → db'
        ≡ record db { admin_session = map (touch_row stored.id now idle_lifetime) db.admin_session }
      → IsLookup d now idle_lifetime touch_interval db o db'

module _ (d now idle_lifetime touch_interval : ℕ) (db : Database) where
  pub get_active_and_touch-IsLookup :
      (o : Option AdminSessionRecord) × (db' : Database) × (get_active_and_touch d now idle_lifetime
          touch_interval db
        ≡ (ok o, db'))
      × IsLookup d now idle_lifetime touch_interval db o db'
  unfolding get_active_and_touch update_by
  get_active_and_touch-IsLookup = elim (Option-cases (find_by by_digest d db.admin_session)) [
    | inl missing ↦ (none, db, ground arith, rejected refl refl)
    | inr (stored, found) ↦ elim (Bool-cases (is_inactive now stored)) [
      | inl over ↦ (none, db, ground arith, rejected refl refl)
      | inr active ↦ elim (Bool-cases (leb (stored.last_seen_at + touch_interval) now)) [
        | inl due ↦ (
          some (session_record (touched now idle_lifetime stored)),
          record db {
            admin_session = map (touch_row stored.id now idle_lifetime) db.admin_session;
          },
          rw (found, check_stored, active, touch_active, due),
          refreshed stored found (ground arith) (ground arith) refl refl,
        )
        | inr soon ↦ (
          some (session_record stored),
          db,
          ground arith,
          untouched stored found (ground arith) (ground arith) refl refl,
        )
      ]
    ]
  ]
