-- ===== src/Repositories/AdminSessions/Kept.antt =====
-- What a lookup leaves of the session that it is asked for.
use mathlib.Core.Option
use pullfrog_azure.Prelude.{ℕ, ◌+◌, ◌≤◌, ◌≡◌, some, Option, arith, ap, ◌∙◌}
use pullfrog_azure.Models.{AdminSession, Database}
use pullfrog_azure.Repositories.Table.{find_by, find_by-map, find_by-In}
use pullfrog_azure.Repositories.AdminSessions.{AdminSessionRecord, by_digest, get_active_and_touch}
use pullfrog_azure.Repositories.AdminSessions.Laws.{
  IsConsistent, IsActive, Evolves, Evolves-refl, IsLookup, rejected, untouched, refreshed,
  touch_row, touch_row-IsEvolution, get_active_and_touch-IsLookup,
}

module _ (d now idle_lifetime touch_interval later : ℕ) (db : Database) (row : AdminSession) where
  -- The row of the digest, after the lookup, is an evolution of the one before and active later on.
  abbrev pub IsKept : Database → Type 0
  IsKept db' =
      (row' : AdminSession) × (find_by by_digest d db'.admin_session ≡ some row')
      × Evolves row row'
      × IsActive later row'

  touched-IsActive :
      row.idle_expires_at ≤ row.last_seen_at + idle_lifetime
      → row.last_seen_at + touch_interval ≤ now
      → IsActive later row
      → IsActive later (touch_row row.id now idle_lifetime row)
  touched-IsActive fits due a = ground arith

  IsLookup-IsKept :
      {o : Option AdminSessionRecord} {db' : Database}
      → IsConsistent db.admin_session
      → find_by by_digest d db.admin_session ≡ some row
      → row.idle_expires_at ≤ row.last_seen_at + idle_lifetime
      → IsActive later row
      → IsLookup d now idle_lifetime touch_interval db o db'
      → IsKept db'
  IsLookup-IsKept c found fits a (rejected _ e) = rw e (row, found, Evolves-refl row, a)
  IsLookup-IsKept c found fits a (untouched _ _ _ _ _ e) = rw e (row, found, Evolves-refl row, a)
  IsLookup-IsKept c found fits a (refreshed stored h _ due _ e) =
      let same : stored ≡ row = cc (h, found) in
      let ev =
        touch_row-IsEvolution stored now idle_lifetime db.admin_session c
          (find_by-In by_digest d db.admin_session stored h) (omega arith) in
      (
        touch_row stored.id now idle_lifetime row,
        rw e (
            find_by-map by_digest (touch_row stored.id now idle_lifetime) ev.digest d
              db.admin_session
            ∙ ap (Option.map (touch_row stored.id now idle_lifetime)) found),
        ev.evolves row (find_by-In by_digest d db.admin_session row found),
        rw same (touched-IsActive fits (rw same at due) a),
      )

  -- A lookup, whatever it returns, leaves an active session active until the same instants, provided
  -- that its idle expiry was not later than the lifetime after it was last seen.
  pub lookup-IsKept :
      IsConsistent db.admin_session
      → find_by by_digest d db.admin_session ≡ some row
      → row.idle_expires_at ≤ row.last_seen_at + idle_lifetime
      → IsActive later row
      → IsKept (get_active_and_touch d now idle_lifetime touch_interval db).1
  lookup-IsKept c found fits a =
      let (o, db', same, l) = get_active_and_touch-IsLookup d now idle_lifetime touch_interval db in
      rw same (IsLookup-IsKept c found fits a l)
