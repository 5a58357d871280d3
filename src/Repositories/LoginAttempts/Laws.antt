-- ===== src/Repositories/LoginAttempts/Laws.antt =====
-- Login attempts are consumed once, and the cleanup deletes only what has expired.
use pullfrog_azure.Prelude.{
  ℕ, ◌<◌, String, ◌≡◌, inl, inr, Bool, not, none, some, List, ◌∷◌, arith, leb, ◌==◌, if◌then◌else◌,
  any, keep, Bool-cases, Option-cases, sym,
}
use pullfrog_azure.Exec.{after_parts}
use pullfrog_azure.Models.{OidcLoginAttempt, Database}
use pullfrog_azure.Outcome.{ok}
use pullfrog_azure.Repositories.Table.{
  find_by, delete_by, IsAbsent, IsDistinct, find_by-eq-none, find_by-delete_by, IsDistinct-keep,
  IsAbsent-delete_by,
}
use pullfrog_azure.Repositories.LoginAttempts.{
  LoginAttemptRecord, by_digest, expired_ids, without_expired, create, consume,
}
use pullfrog_azure.Values.{Entries}

-- The unique constraints of the table.
pub record IsConsistent (rows : List OidcLoginAttempt) : Type 0 where
  pub digests : IsDistinct by_digest rows
  pub ids : IsDistinct (λ (row : OidcLoginAttempt). row.id) rows

-- what `create` writes
abbrev pub new_attempt :
    (id token_digest : ℕ) (flow : Entries) (return_to : String) (created_at expires_at : ℕ)
    → OidcLoginAttempt
new_attempt id token_digest flow return_to created_at expires_at = record {
  id = id;
  token_digest = token_digest;
  flow = flow;
  return_to = return_to;
  created_at = created_at;
  expires_at = expires_at;
}

module _ (locked : ℕ → Bool) (id token_digest : ℕ) (flow : Entries) (return_to : String)
    (created_at expires_at : ℕ) (db : Database) where
  -- A successful `create` adds its row, with a fresh digest and id, to what the cleanup leaves.
  pub create-eq-ok :
      {db' : Database}
      → create locked id token_digest flow return_to created_at expires_at db ≡ (ok tt, db')
      → (db' ≡ record db {
        oidc_login_attempt =
            new_attempt id token_digest flow return_to created_at expires_at
            ∷ without_expired locked created_at db.oidc_login_attempt;
      })
        × IsAbsent by_digest token_digest (without_expired locked created_at db.oidc_login_attempt)
        × IsAbsent
            (λ (row : OidcLoginAttempt). row.id)
            id
            (without_expired locked created_at db.oidc_login_attempt)
  unfolding create
  create-eq-ok h =
      let kept = without_expired locked created_at db.oidc_login_attempt in
      ground (
        arith,
        find_by-eq-none by_digest token_digest kept,
        find_by-eq-none (λ (row : OidcLoginAttempt). row.id) id kept,
      )

  pub create-IsConsistent :
      IsConsistent db.oidc_login_attempt
      → IsConsistent
          (create locked id token_digest flow return_to created_at expires_at
            db).1.oidc_login_attempt
  unfolding create without_expired
  create-IsConsistent c =
      let ks = expired_ids locked created_at db.oidc_login_attempt in
      let p = λ (row : OidcLoginAttempt). not (any (λ k. k == row.id) ks) in
      let kept = keep p db.oidc_login_attempt in
      record {
        digests = ground (
          arith,
          IsDistinct-keep by_digest p db.oidc_login_attempt c.digests,
          find_by-eq-none by_digest token_digest kept,
        );
        ids = ground (
          arith,
          IsDistinct-keep (λ (row : OidcLoginAttempt). row.id) p db.oidc_login_attempt c.ids,
          find_by-eq-none (λ (row : OidcLoginAttempt). row.id) id kept,
        );
      }

pub consume-IsConsistent :
    (token_digest now : ℕ) (db : Database)
    → IsConsistent db.oidc_login_attempt
    → IsConsistent (consume token_digest now db).1.oidc_login_attempt
unfolding consume delete_by
consume-IsConsistent token_digest now db c = record {
  digests = IsDistinct-keep by_digest _ db.oidc_login_attempt c.digests;
  ids = IsDistinct-keep (λ (row : OidcLoginAttempt). row.id) _ db.oidc_login_attempt c.ids;
}

-- Consuming after a consumption: the same digest finds nothing whatever the first call returned, and
-- any other digest finds what it would have found before.
consume-consume :
    (d j now later : ℕ) (db : Database)
    → (consume j later (consume d now db).1).0
      ≡ (if d == j then ok none else (consume j later db).0)
unfolding consume
consume-consume d j now later db =
    ground (arith, find_by-delete_by by_digest d j db.oidc_login_attempt)

module _ (locked : ℕ → Bool) (id token_digest : ℕ) (flow : Entries) (return_to : String)
    (created_at expires_at now : ℕ) (db : Database) {db' : Database} where
  -- What `create` stored is what `consume` returns at every instant before its expiry, and the
  -- consumption leaves the table that the cleanup of `create` had left.
  pub consume-create :
      create locked id token_digest flow return_to created_at expires_at db ≡ (ok tt, db')
      → now < expires_at
      → consume token_digest now db' ≡ (
        ok (some (record { flow = flow; return_to = return_to; expires_at = expires_at })),
        record db { oidc_login_attempt = without_expired locked created_at db.oidc_login_attempt },
      )
  unfolding consume find_by delete_by keep
  consume-create h early =
      let kept = without_expired locked created_at db.oidc_login_attempt in
      let (e, absent, _) =
        create-eq-ok locked id token_digest flow return_to created_at expires_at db h in
      rw e (ground (arith, IsAbsent-delete_by by_digest token_digest kept absent))

-- A consumption that returns an attempt found it stored and unexpired, and deleted it.
pub consume_sound :
    (d now : ℕ) (db db' : Database) (a : LoginAttemptRecord)
    → consume d now db ≡ (ok (some a), db')
    → (row : OidcLoginAttempt) × (find_by by_digest d db.oidc_login_attempt ≡ some row)
      × (now < row.expires_at)
      × (a ≡ record { flow = row.flow; return_to = row.return_to; expires_at = row.expires_at })
      × (db' ≡ record db { oidc_login_attempt = delete_by by_digest d db.oidc_login_attempt })
unfolding consume
consume_sound d now db db' a h = elim (Option-cases (find_by by_digest d db.oidc_login_attempt)) [
  | inl missing ↦ cc (after_parts (rw missing at h)).0
  | inr (row, found) ↦ elim (Bool-cases (leb row.expires_at now)) [
    | inl over ↦ cc (after_parts (rw (found, over) at h)).0
    | inr early ↦ (
      row,
      found,
      ground arith,
      injected (after_parts (rw (found, early) at h)).0,
      sym (after_parts h).1,
    )
  ]
]
  where
    injected : {x y : LoginAttemptRecord} → ok (some x) ≡ ok (some y) → y ≡ x
    injected e = cc
