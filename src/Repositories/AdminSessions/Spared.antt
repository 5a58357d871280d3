-- ===== src/Repositories/AdminSessions/Spared.antt =====
-- What the calls of the repository leave of another session than theirs.
use pullfrog_azure.Prelude.{ℕ, ◌≡◌, refl, ◌≢◌, Option, none, some, arith, ap, sym, ◌∙◌}
use pullfrog_azure.Exec.Spares.{Spares}
use pullfrog_azure.Models.{AdminSession, Database}
use pullfrog_azure.Outcome.{Result, ok, ok_inj}
use pullfrog_azure.Repositories.AdminSessions
use pullfrog_azure.Repositories.AdminSessions.{
  AdminSessionRecord, NewAdminSession, session_record, touched, by_digest, by_id,
  get_active_and_touch, revoke,
}
use pullfrog_azure.Repositories.AdminSessions.Laws.{
  IsLookup, rejected, untouched, refreshed, get_active_and_touch-IsLookup,
}
use pullfrog_azure.Repositories.AdminSessions.Agreement.{
  IsKeyed, Agree, create-Agree, revoke-Agree, get_active_and_touch-Agree,
}
use pullfrog_azure.Repositories.AdminSessions.Store.{
  SessionMap, session_map, abstraction, touch, end_session,
}
use pullfrog_azure.Repositories.Table.{find_by, find_by-In, find_by-key, IsDistinct-In}

module _ (d : ℕ) (row : AdminSession) where
  -- The row is the one of the digest, in a table whose digests and ids are unique.
  pub record IsStored (db : Database) : Type 0 where
    pub keyed : IsKeyed db
    pub stored : find_by by_digest d db.admin_session ≡ some row

  pub IsStored-same :
      (db db' : Database) → db'.admin_session ≡ db.admin_session → IsStored db → IsStored db'
  IsStored-same db db' same h = record {
    keyed = record { digests = rw same h.keyed.digests; ids = rw same h.keyed.ids };
    stored = rw same h.stored;
  }

  insert_lem :
      (id : ℕ) (n : NewAdminSession) (m : SessionMap)
      → m.at_digest d ≡ some row
      → (session_map.create id n m).1.at_digest d ≡ some row
  insert_lem id n m h = ground arith

  touch_lem :
      (d' now idle_lifetime touch_interval : ℕ) (o : Option AdminSession) (m : SessionMap)
      → d' ≢ d
      → (touch d' now idle_lifetime touch_interval o m).1.at_digest d ≡ m.at_digest d
  touch_lem d' now idle_lifetime touch_interval none m other = refl
  touch_lem d' now idle_lifetime touch_interval (some s) m other = ground arith

  end_session_lem :
      (k now : ℕ) (m : SessionMap)
      → k ≢ row.id
      → m.at_digest d ≡ some row
      → (end_session k now m).at_digest d ≡ some row
  end_session_lem k now m other h = ground arith

  -- A call of the repository that agrees with one of the abstract store.
  Agree-IsStored :
      {A : Type 0} (x : Result A × Database) (y : Result A × SessionMap)
      → Agree x y
      → y.1.at_digest d ≡ some row
      → IsStored x.1
  Agree-IsStored x y g h = record {
    keyed = g.keyed;
    stored = ap (λ (m : SessionMap). m.at_digest d) g.state ∙ h;
  }

  pub create-Spares :
      (id : ℕ) (n : NewAdminSession) → Spares IsStored (AdminSessions.create id n) (λ r. Unit)
  create-Spares id n = record {
    from = λ db h. (
      Agree-IsStored (AdminSessions.create id n db) (session_map.create id n (abstraction db))
          (create-Agree db h.keyed id n) (insert_lem id n (abstraction db) h.stored),
      λ a e. tt,
    );
  }

  pub revoke-Spares : (k now : ℕ) → k ≢ row.id → Spares IsStored (revoke k now) (λ a. Unit)
  revoke-Spares k now other = record {
    from = λ db h. (
      Agree-IsStored (revoke k now db) (session_map.revoke k now (abstraction db))
          (revoke-Agree db h.keyed k now) (end_session_lem k now (abstraction db) other h.stored),
      λ a e. tt,
    );
  }

  -- Two sessions of one table with different digests have different ids.
  other_id :
      (d' : ℕ) (db : Database) (s : AdminSession)
      → IsStored db
      → d' ≢ d
      → find_by by_digest d' db.admin_session ≡ some s
      → s.id ≢ row.id
  other_id d' db s h other found e =
      let same : s ≡ row =
        IsDistinct-In by_id h.keyed.ids (find_by-In by_digest d' db.admin_session s found)
          (find_by-In by_digest d db.admin_session row h.stored) e in
      other (
        sym (find_by-key by_digest d' db.admin_session s found)
        ∙ ap by_digest same
        ∙ find_by-key by_digest d db.admin_session row h.stored)

  found_id :
      (d' now idle_lifetime touch_interval : ℕ) (db : Database) {o : Option AdminSessionRecord}
      {db' : Database}
      → IsStored db
      → d' ≢ d
      → IsLookup d' now idle_lifetime touch_interval db o db'
      → (r : AdminSessionRecord) → o ≡ some r
      → r.session_id ≢ row.id
  found_id d' now i t db h other (rejected e _) r k = cc
  found_id d' now i t db h other (untouched stored found _ _ e _) r k =
      let same : session_record stored ≡ r = cc in rw (← same) (other_id d' db stored h other found)
  found_id d' now i t db h other (refreshed stored found _ _ e _) r k =
      let same : session_record (touched now i stored) ≡ r = cc in
      rw (← same) (other_id d' db stored h other found)

  -- A lookup by another digest returns another session.
  pub lookup-Spares :
      (d' now idle_lifetime touch_interval : ℕ)
      → d' ≢ d
      → Spares IsStored
          (get_active_and_touch d' now idle_lifetime touch_interval)
          (λ o. (r : AdminSessionRecord) → o ≡ some r → r.session_id ≢ row.id)
  lookup-Spares d' now i t other = record {
    from = λ db h. (
      Agree-IsStored (get_active_and_touch d' now i t db)
          (session_map.get_active_and_touch d' now i t (abstraction db))
          (get_active_and_touch-Agree db h.keyed d' now i t)
          (touch_lem d' now i t ((abstraction db).at_digest d') (abstraction db) other ∙ h.stored),
      λ o e. returned db h o e,
    );
  }
    where
      returned :
          (db : Database)
          → IsStored db
          → (o : Option AdminSessionRecord) → (get_active_and_touch d' now i t db).0 ≡ ok o
          → (r : AdminSessionRecord) → o ≡ some r
          → r.session_id ≢ row.id
      returned db h o e =
          let (o', db', same, l) = get_active_and_touch-IsLookup d' now i t db in
          let one : o' ≡ o = ok_inj (sym (ap (λ x. x.0) same) ∙ e) in
          rw one at (found_id d' now i t db h other l)
