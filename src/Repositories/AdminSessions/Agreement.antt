-- ===== src/Repositories/AdminSessions/Agreement.antt =====
-- That each call of the session repository agrees with that of the abstract store.
use mathlib.Core.Option
use pullfrog_azure.Prelude.{
  ℕ, ◌+◌, ◌≡◌, refl, false, ◌||◌, Option, none, some, ◌∷◌, map, arith, leb, ◌==◌, ==_iff,
  if◌then◌else◌, is_some, ap, ◌∙◌, Bool-cases, Option-cases, inl, inr,
}
use pullfrog_azure.Exec.{return, after}
use pullfrog_azure.Models.{AdminSession, Database}
use pullfrog_azure.Outcome.{Result, ok, raise}
use pullfrog_azure.Repositories.AdminSessions
use pullfrog_azure.Repositories.AdminSessions.{
  AdminSessionRecord, NewAdminSession, new_row, too_long, by_digest, by_id, is_inactive, touched,
  touch_active, check_stored, get_active_and_touch, revoke,
}
use pullfrog_azure.Repositories.AdminSessions.Laws.{touch_row, revoke_row}
use pullfrog_azure.Repositories.AdminSessions.Store.{SessionMap, session_map, abstraction, touch}
use pullfrog_azure.Repositories.Table.{
  find_by, update_by, IsDistinct, find_by-In, find_by-key, find_by-map, find_by-eq-none,
  IsDistinct-map, IsDistinct-In,
}

-- The unique columns.
pub record IsKeyed (db : Database) : Type 0 where
  pub digests : IsDistinct by_digest db.admin_session
  pub ids : IsDistinct by_id db.admin_session

-- One answer, and states that the abstraction relates.
pub record Agree {A : Type 0} (x : Result A × Database) (y : Result A × SessionMap) : Type 0 where
  pub answer : x.0 ≡ y.0
  pub state : abstraction x.1 ≡ y.1
  pub keyed : IsKeyed x.1

-- A call whose answer is turned into another.
module _ {A B : Type 0} (f : A → B) where
  abbrev map_result : Result A → Result B
  map_result (ok a) = ok (f a)
  map_result (raise e) = raise e

  after_lem : {S : Type 0} (x : Result A × S) → after x (λ a. return (f a)) ≡ (map_result x.0, x.1)
  after_lem (ok a, s) = refl
  after_lem (raise e, s) = refl

  pub after-Agree :
      (x : Result A × Database) (y : Result A × SessionMap)
      → Agree x y
      → Agree (after x (λ a. return (f a))) (after y (λ a. return (f a)))
  after-Agree x y g =
      rw (after_lem x, after_lem y)
        (record { answer = ap map_result g.answer; state = g.state; keyed = g.keyed })

-- A change of all rows that leaves both unique columns alone.
module _ (g : AdminSession → AdminSession)
    (digest : (row : AdminSession) → (g row).token_digest ≡ row.token_digest)
    (same_id : (row : AdminSession) → (g row).id ≡ row.id) (db : Database) where
  abbrev changed : Database
  changed = record db { admin_session = map g db.admin_session }

  is_some-map : (o : Option AdminSession) → is_some (Option.map g o) ≡ is_some o
  is_some-map none = refl
  is_some-map (some row) = refl

  abstraction-map : abstraction changed ≡ record (abstraction db) {
    at_digest = λ d. Option.map g (find_by by_digest d db.admin_session);
  }
  abstraction-map i = record {
    at_digest = λ d. find_by-map by_digest g digest d db.admin_session i;
    has_id = λ k.
        (ap is_some (find_by-map by_id g same_id k db.admin_session)
            ∙ is_some-map (find_by by_id k db.admin_session))
          i;
  }

  changed-IsKeyed : IsKeyed db → IsKeyed changed
  changed-IsKeyed c = record {
    digests = IsDistinct-map by_digest g digest db.admin_session c.digests;
    ids = IsDistinct-map by_id g same_id db.admin_session c.ids;
  }

module _ (db : Database) (c : IsKeyed db) where
  pub revoke-Agree :
      (k now : ℕ) → Agree (revoke k now db) (session_map.revoke k now (abstraction db))
  unfolding revoke update_by
  revoke-Agree k now = record {
    answer = refl;
    state = abstraction-map (revoke_row k now) (λ row. ground arith) (λ row. ground arith) db;
    keyed = changed-IsKeyed (revoke_row k now) (λ row. ground arith) (λ row. ground arith) db c;
  }

  abbrev added : ℕ → NewAdminSession → Database
  added id n = record db { admin_session = new_row id n ∷ db.admin_session }

  added_id :
      (id k : ℕ) (n : NewAdminSession)
      → is_some (find_by by_id k (added id n).admin_session)
        ≡ (id == k || is_some (find_by by_id k db.admin_session))
  unfolding find_by
  added_id id k n = elim (Bool-cases (id == k)) [
    | inl same ↦ rw same refl
    | inr other ↦ rw other refl
  ]

  added-IsKeyed :
      (id : ℕ) (n : NewAdminSession)
      → find_by by_digest n.token_digest db.admin_session ≡ none
      → find_by by_id id db.admin_session ≡ none
      → IsKeyed (added id n)
  added-IsKeyed id n digest_free id_free = record {
    digests = (find_by-eq-none by_digest n.token_digest db.admin_session digest_free, c.digests);
    ids = (find_by-eq-none by_id id db.admin_session id_free, c.ids);
  }

  pub create-Agree :
      (id : ℕ) (n : NewAdminSession)
      → Agree (AdminSessions.create id n db) (session_map.create id n (abstraction db))
  unfolding AdminSessions.create find_by
  create-Agree id n = elim (Bool-cases (too_long n.display_name)) [
    | inl long ↦ rw long (record { answer = refl; state = refl; keyed = c })
    | inr short ↦
        elim (Bool-cases (
          is_some (find_by by_digest n.token_digest db.admin_session)
          || is_some (find_by by_id id db.admin_session))) [
            | inl taken ↦ rw (short, taken) (record { answer = refl; state = refl; keyed = c })
            | inr free ↦
                rw (short, free)
                  (record {
                    answer = refl;
                    state = λ i. record {
                      at_digest = (abstraction (added id n)).at_digest;
                      has_id = λ k. added_id id k n i;
                    };
                    keyed = added-IsKeyed id n (ground arith) (ground arith);
                  })
          ]
  ]

  -- Touching the row of the stored id changes the session of its digest, and no other.
  touched_at :
      (d now idle_lifetime d' : ℕ) (stored : AdminSession)
      → find_by by_digest d db.admin_session ≡ some stored
      → Option.map (touch_row stored.id now idle_lifetime) (find_by by_digest d' db.admin_session)
        ≡ (if d == d'
            then some (touched now idle_lifetime stored)
            else find_by by_digest d' db.admin_session)
  touched_at d now idle_lifetime d' stored found = elim (Bool-cases (d == d')) [
    | inl same ↦
        let e : d ≡ d' = (==_iff d d').0 same in
        rw (same, ← e, found, (==_iff stored.id stored.id).1 refl) refl
    | inr other ↦ rw other (elim (Option-cases (find_by by_digest d' db.admin_session)) [
      | inl missing ↦ rw missing refl
      | inr (row, there_is) ↦ rw there_is (elim (Bool-cases (row.id == stored.id)) [
        | inr not_it ↦ rw not_it refl
        | inl it ↦ absurd (differ row there_is ((==_iff row.id stored.id).0 it) other)
      ])
    ])
  ]
    where
      differ :
          (row : AdminSession)
          → find_by by_digest d' db.admin_session ≡ some row
          → row.id ≡ stored.id
          → (d == d') ≡ false
          → ⊥
      differ row there_is e other =
          let same : row ≡ stored =
            IsDistinct-In by_id c.ids (find_by-In by_digest d' db.admin_session row there_is)
              (find_by-In by_digest d db.admin_session stored found) e in
          let own = find_by-key by_digest d db.admin_session stored found in
          let other's = find_by-key by_digest d' db.admin_session row there_is in
          ground (arith, ap by_digest same)

  touch-Agree :
      (d now idle_lifetime touch_interval : ℕ) (o : Option AdminSession)
      → find_by by_digest d db.admin_session ≡ o
      → Agree
          (check_stored now idle_lifetime touch_interval o db)
          (touch d now idle_lifetime touch_interval o (abstraction db))
  unfolding check_stored touch_active update_by
  touch-Agree d now idle_lifetime touch_interval none found = record {
    answer = refl;
    state = refl;
    keyed = c;
  }
  touch-Agree d now idle_lifetime touch_interval (some stored) found =
      elim (Bool-cases (is_inactive now stored)) [
        | inl over ↦ rw over (record { answer = refl; state = refl; keyed = c })
        | inr active ↦ elim (Bool-cases (leb (stored.last_seen_at + touch_interval) now)) [
          | inr soon ↦ rw (active, soon) (record { answer = refl; state = refl; keyed = c })
          | inl due ↦
              rw (active, due)
                (record {
                  answer = refl;
                  state =
                      abstraction-map (touch_row stored.id now idle_lifetime) (λ row. ground arith)
                        (λ row. ground arith) db
                      ∙ (λ i. record (abstraction db) {
                        at_digest = λ d'. touched_at d now idle_lifetime d' stored found i;
                      });
                  keyed =
                      changed-IsKeyed (touch_row stored.id now idle_lifetime) (λ row. ground arith)
                        (λ row. ground arith) db c;
                })
        ]
      ]

  pub get_active_and_touch-Agree :
      (d now idle_lifetime touch_interval : ℕ)
      → Agree
          (get_active_and_touch d now idle_lifetime touch_interval db)
          (session_map.get_active_and_touch d now idle_lifetime touch_interval (abstraction db))
  unfolding get_active_and_touch
  get_active_and_touch-Agree d now idle_lifetime touch_interval =
      touch-Agree d now idle_lifetime touch_interval _ refl
