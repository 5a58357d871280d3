-- ===== src/Repositories/AdminSessions/Lifetime.antt =====
-- Sessions over any sequence of repository operations: what stays, and what never comes back.
use mathlib.Core.Option
use pullfrog_azure.Prelude.{
  ℕ, ◌≤◌, String, ◌≡◌, refl, ◌⊎◌, inl, inr, Bool, Option, none, some, ◌∷◌, map, arith, In-cons, ap,
  ◌∙◌,
}
use pullfrog_azure.Auth.Policy.ReturnTo.{IsLocalPath}
use pullfrog_azure.Models.{AdminSession, Database}
use pullfrog_azure.Outcome.{ok}
use pullfrog_azure.Repositories.LoginAttempts
use pullfrog_azure.Repositories.Table.{find_by, update_by, find_by-eq-none, find_by-In, find_by-map}
use pullfrog_azure.Repositories.AdminSessions.{
  NewAdminSession, AdminSessionRecord, by_digest, by_id, new_row, create, get_active_and_touch,
  revoke,
}
use pullfrog_azure.Repositories.AdminSessions.Laws.{
  IsConsistent, IsActive, Evolves, Evolves-refl, Evolves-trans, IsEvolution, map-IsConsistent,
  map-Evolves, touch_row, revoke_row, revoke_row-IsEvolution, touch_row-IsEvolution, IsLookup,
  rejected, untouched, refreshed, get_active_and_touch-IsLookup,
}
use pullfrog_azure.Values.{Entries}

-- One committed operation of any request: on sessions, or on login attempts. A new session's idle
-- expiry is not later than its absolute one, as the settings ensure, and an attempt's return path is
-- a local one, as its validation ensures.
pub data Step : Database → Database → Type 0 where
  created :
      {db : Database} (id : ℕ) (r : NewAdminSession)
      → r.idle_expires_at ≤ r.absolute_expires_at
      → Step db (create id r db).1
  looked_up :
      {db : Database} (d now idle_lifetime touch_interval : ℕ)
      → Step db (get_active_and_touch d now idle_lifetime touch_interval db).1
  revoked : {db : Database} (k now : ℕ) → Step db (revoke k now db).1
  attempted :
      {db : Database} (locked : ℕ → Bool) (id d : ℕ) (flow : Entries) (return_to : String)
      (created_at expires_at : ℕ)
      → IsLocalPath return_to
      → Step db (LoginAttempts.create locked id d flow return_to created_at expires_at db).1
  consumed : {db : Database} (d now : ℕ) → Step db (LoginAttempts.consume d now db).1

pub data Reach (db : Database) : Database → Type 0 where
  start : Reach db db
  next : {db' db'' : Database} → Reach db db' → Step db' db'' → Reach db db''

-- The table is consistent, and the row of a digest is still there and evolved from the one before.
pub record IsLater (db db' : Database) : Type 0 where
  pub consistent : IsConsistent db'.admin_session
  pub evolved :
      (d : ℕ) (row : AdminSession)
      → find_by by_digest d db.admin_session ≡ some row
      → (row' : AdminSession) × (find_by by_digest d db'.admin_session ≡ some row')
        × Evolves row row'

IsLater-refl : (db : Database) → IsConsistent db.admin_session → IsLater db db
IsLater-refl db c = record { consistent = c; evolved = λ d row h. (row, h, Evolves-refl row) }

-- A change of the session table by a map of its rows, or none, is all that matters.
IsLater-map :
    (db db' : Database) (g : AdminSession → AdminSession)
    → IsConsistent db.admin_session
    → IsEvolution g db.admin_session
    → db'.admin_session ≡ map g db.admin_session
    → IsLater db db'
IsLater-map db db' g c e same = record {
  consistent = rw same (map-IsConsistent g db.admin_session e c);
  evolved = λ d row h. rw same (map-Evolves g db.admin_session e d row h);
}

IsLater-same :
    (db db' : Database)
    → IsConsistent db.admin_session
    → db'.admin_session ≡ db.admin_session
    → IsLater db db'
IsLater-same db db' c same = record {
  consistent = rw same c;
  evolved = λ d row h. (row, rw same h, Evolves-refl row);
}

IsLookup-IsLater :
    {d now idle_lifetime touch_interval : ℕ} {db db' : Database} {o : Option AdminSessionRecord}
    → IsConsistent db.admin_session
    → IsLookup d now idle_lifetime touch_interval db o db'
    → IsLater db db'
IsLookup-IsLater {db} {db'} c (rejected _ e) =
    IsLater-same db db' c (ap (λ (b : Database). b.admin_session) e)
IsLookup-IsLater {db} {db'} c (untouched stored _ _ _ _ e) =
    IsLater-same db db' c (ap (λ (b : Database). b.admin_session) e)
IsLookup-IsLater {d} {now} {idle_lifetime} {db} {db'} c (refreshed stored found active due _ e) =
    IsLater-map db db' (touch_row stored.id now idle_lifetime) c
      (touch_row-IsEvolution stored now idle_lifetime db.admin_session c
        (find_by-In by_digest d db.admin_session stored found) (omega arith))
      (ap (λ (b : Database). b.admin_session) e)

-- The row that `create` adds, where it succeeds.
create-cases :
    (id : ℕ) (r : NewAdminSession) (db : Database)
    → ((create id r db).1 ≡ db)
      ⊎ (((create id r db).1 ≡ record db { admin_session = new_row id r ∷ db.admin_session })
          × (find_by by_digest r.token_digest db.admin_session ≡ none)
          × (find_by by_id id db.admin_session ≡ none))
unfolding create
create-cases id r db = ground arith

create-IsLater :
    (id : ℕ) (r : NewAdminSession) (db db' : Database)
    → IsConsistent db.admin_session
    → r.idle_expires_at ≤ r.absolute_expires_at
    → db'.admin_session ≡ new_row id r ∷ db.admin_session
    → find_by by_digest r.token_digest db.admin_session ≡ none
    → find_by by_id id db.admin_session ≡ none
    → IsLater db db'
unfolding find_by
create-IsLater id r db db' c fits same fresh fresh_id = record {
  consistent = rw same (record {
    digests = (find_by-eq-none by_digest r.token_digest db.admin_session fresh, c.digests);
    ids = (find_by-eq-none by_id id db.admin_session fresh_id, c.ids);
    valid = λ row i. elim (In-cons i) [
      | inl e ↦ rw (← e) (record { seen = omega arith; capped = fits })
      | inr j ↦ c.valid row j
    ];
  });
  evolved = λ d row h. (row, rw same (ground (arith, fresh, h)), Evolves-refl row);
}

Step-IsLater : {db db' : Database} → Step db db' → IsConsistent db.admin_session → IsLater db db'
unfolding revoke update_by LoginAttempts.create LoginAttempts.consume
Step-IsLater {db} (created id r fits) c = elim (create-cases id r db) [
  | inl same ↦ rw same (IsLater-refl db c)
  | inr (same, fresh, fresh_id) ↦
      create-IsLater id r db _ c fits (ap (λ (b : Database). b.admin_session) same) fresh fresh_id
]
Step-IsLater {db} (looked_up d now idle_lifetime touch_interval) c =
    let (o, db', same, l) = get_active_and_touch-IsLookup d now idle_lifetime touch_interval db in
    rw same (IsLookup-IsLater c l)
Step-IsLater {db} (revoked k now) c =
    IsLater-map db _ (revoke_row k now) c (revoke_row-IsEvolution k now db.admin_session) refl
Step-IsLater {db} (attempted locked id d flow return_to created_at expires_at path) c =
    IsLater-same db _ c (ground arith)
Step-IsLater {db} (consumed d now) c = IsLater-same db _ c refl

IsLater-trans : {db db' db'' : Database} → IsLater db db' → IsLater db' db'' → IsLater db db''
IsLater-trans l m = record {
  consistent = m.consistent;
  evolved = λ d row h.
      let (row', h', e) = l.evolved d row h in
      let (row'', h'', f) = m.evolved d row' h' in (row'', h'', Evolves-trans e f);
}

pub Reach-IsLater :
    (db db' : Database) → IsConsistent db.admin_session → Reach db db' → IsLater db db'
Reach-IsLater db db' c start = IsLater-refl db c
Reach-IsLater db db' c (next r st) =
    let l = Reach-IsLater db _ c r in IsLater-trans l (Step-IsLater st l.consistent)

-- Along any sequence of operations from a consistent table the table stays consistent, and the row
-- of a digest stays: its identity, digests, authorizer and absolute expiry are the same, its
-- last-seen instant does not go back, and a revocation is kept.
pub Reach-Evolves :
    (d : ℕ) (db db' : Database) (row : AdminSession)
    → IsConsistent db.admin_session
    → find_by by_digest d db.admin_session ≡ some row
    → Reach db db'
    → (row' : AdminSession) × (find_by by_digest d db'.admin_session ≡ some row')
      × Evolves row row'
      × IsConsistent db'.admin_session
Reach-Evolves d db db' row c found r =
    let l = Reach-IsLater db db' c r in
    let (row', found', e) = l.evolved d row found in (row', found', e, l.consistent)

-- A lookup of a row that is not active returns nothing.
lookup_inactive :
    (d now idle_lifetime touch_interval : ℕ) (db : Database) (row : AdminSession)
    → find_by by_digest d db.admin_session ≡ some row
    → (IsActive now row → ⊥)
    → (get_active_and_touch d now idle_lifetime touch_interval db).0 ≡ ok none
lookup_inactive d now idle_lifetime touch_interval db row found over =
    let (o, db', same, l) = get_active_and_touch-IsLookup d now idle_lifetime touch_interval db in
    rw same (ap ok (nothing l))
  where
    unique :
        (stored : AdminSession) → find_by by_digest d db.admin_session ≡ some stored → stored ≡ row
    unique stored h = cc (h, found)

    nothing :
        {o : Option AdminSessionRecord} {db' : Database}
        → IsLookup d now idle_lifetime touch_interval db o db'
        → o ≡ none
    nothing (rejected e _) = e
    nothing (untouched stored h a _ _ _) = absurd (over (rw (unique stored h) at a))
    nothing (refreshed stored h a _ _ _) = absurd (over (rw (unique stored h) at a))

-- Once a session of a consistent table is revoked, its token is rejected for ever: at every instant
-- and after any further operations, those of a lookup, a new session or another revocation included.
pub revoked_forever :
    (d now later idle_lifetime touch_interval : ℕ) (db db' : Database) (row : AdminSession)
    → IsConsistent db.admin_session
    → find_by by_digest d db.admin_session ≡ some row
    → Reach (revoke row.id now db).1 db'
    → (get_active_and_touch d later idle_lifetime touch_interval db').0 ≡ ok none
unfolding revoke update_by
revoked_forever d now later idle_lifetime touch_interval db db' row c found r =
    let e = revoke_row-IsEvolution row.id now db.admin_session in
    let first = map-Evolves (revoke_row row.id now) db.admin_session e d row found in
    let gone =
      find_by-map by_digest (revoke_row row.id now) e.digest d db.admin_session
      ∙ ap (Option.map (revoke_row row.id now)) found in
    let l = Reach-IsLater _ db' (map-IsConsistent (revoke_row row.id now) db.admin_session e c) r in
    let (row', found', f) = l.evolved d (revoke_row row.id now row) gone in
    lookup_inactive d later idle_lifetime touch_interval db' row' found' λ a. still row' f a
  where
    still :
        (row' : AdminSession) → Evolves (revoke_row row.id now row) row' → IsActive later row' → ⊥
    still row' f a = ground arith

-- A session's token is rejected from its absolute expiry on, whatever operations came between.
pub expired_forever :
    (d later idle_lifetime touch_interval : ℕ) (db db' : Database) (row : AdminSession)
    → IsConsistent db.admin_session
    → find_by by_digest d db.admin_session ≡ some row
    → Reach db db'
    → row.absolute_expires_at ≤ later
    → (get_active_and_touch d later idle_lifetime touch_interval db').0 ≡ ok none
expired_forever d later idle_lifetime touch_interval db db' row c found r over =
    let (row', found', f) = (Reach-IsLater db db' c r).evolved d row found in
    lookup_inactive d later idle_lifetime touch_interval db' row' found' λ a. late row' f a
  where
    late : (row' : AdminSession) → Evolves row row' → IsActive later row' → ⊥
    late row' f a = omega arith
