-- ===== src/Repositories/LoginAttempts/Cleanup.antt =====
-- The cleanup that `create` makes of expired attempts.
use pullfrog_azure.Prelude.{
  ℕ, ◌+◌, ◌≤◌, ◌<◌, String, ◌≡◌, refl, ◌⊎◌, inl, inr, Bool, true, false, not, ◌&&◌, List, ◌∷◌, map,
  arith, leb, ◌==◌, ==_iff, any, any-In, any-true, keep, take, sort_by, In, In-take, In-keep,
  keep-In, In-map, map-In, In-sort_by, sort_by-In, sort_by-IsSorted, In-take-sorted, length,
  length-map, length-take-le, Bool-cases, ◌∙◌, ap,
}
use pullfrog_azure.Models.{OidcLoginAttempt, Database}
use pullfrog_azure.Outcome.{ok}
use pullfrog_azure.Repositories.Table.{IsDistinct-In, length-keep-any}
use pullfrog_azure.Repositories.LoginAttempts.{expired_ids, without_expired, create}
use pullfrog_azure.Repositories.LoginAttempts.Laws.{IsConsistent, create-eq-ok, new_attempt}
use pullfrog_azure.Values.{Entries}

-- `kept` is what a cleanup at the instant `at` may leave of `rows`.
pub record IsCleanup (locked : ℕ → Bool) (at : ℕ) (rows kept : List OidcLoginAttempt) : Type 0 where
  -- nothing new
  pub stored : (row : OidcLoginAttempt) → In row kept → In row rows
  -- what has not expired, or is locked by another transaction, stays
  pub live :
      (row : OidcLoginAttempt)
      → In row rows
      → (at < row.expires_at) ⊎ (locked row.id ≡ true)
      → In row kept
  -- at most 100 rows go
  pub bounded : length rows ≤ length kept + 100
  -- of the rows that could go, those that expired first go first
  pub oldest_first :
      (gone left : OidcLoginAttempt)
      → In gone rows
      → (In gone kept → ⊥)
      → In left kept
      → left.expires_at ≤ at
      → locked left.id ≡ false
      → gone.expires_at ≤ left.expires_at

module _ (locked : ℕ → Bool) (at : ℕ) (rows : List OidcLoginAttempt) (c : IsConsistent rows) where
  abbrev can_go : OidcLoginAttempt → Bool
  can_go row = leb row.expires_at at && not (locked row.id)

  abbrev going : List OidcLoginAttempt
  going = take 100 (sort_by (λ row. row.expires_at) (keep can_go rows))

  abbrev is_going : OidcLoginAttempt → Bool
  is_going row = any (λ k. k == row.id) (map (λ (r : OidcLoginAttempt). r.id) going)

  -- A row whose id is deleted is itself one of the rows to go.
  is_going-In : {row : OidcLoginAttempt} → In row rows → is_going row ≡ true → In row going
  is_going-In {row} i h =
      let (k, j, same) =
        any-true (λ k. k == row.id) (map (λ (r : OidcLoginAttempt). r.id) going) h in
      let (r, m, e) = In-map (λ (r : OidcLoginAttempt). r.id) going j in
      let (stored, _) = In-keep can_go rows (
        In-sort_by (λ row. row.expires_at) r (keep can_go rows)
          (In-take 100 (sort_by (λ row. row.expires_at) (keep can_go rows)) m)) in
      let eq : r ≡ row =
        IsDistinct-In (λ (r : OidcLoginAttempt). r.id) c.ids stored i
          (e ∙ (==_iff k row.id).0 same) in
      rw (← eq) m

  In-is_going : {row : OidcLoginAttempt} → In row going → is_going row ≡ true
  In-is_going {row} m =
      any-In (λ k. k == row.id) (map-In (λ (r : OidcLoginAttempt). r.id) m)
        ((==_iff row.id row.id).1 refl)

  going-can_go : {row : OidcLoginAttempt} → In row going → can_go row ≡ true
  going-can_go {row} m =
      (In-keep can_go rows (
        In-sort_by (λ row. row.expires_at) row (keep can_go rows)
          (In-take 100 (sort_by (λ row. row.expires_at) (keep can_go rows)) m))).1

  stays :
      {row : OidcLoginAttempt}
      → In row rows
      → (In row going → ⊥)
      → In row (without_expired locked at rows)
  unfolding without_expired expired_ids
  stays {row} i out = elim (Bool-cases (is_going row)) [
    | inl gone ↦ absurd (out (is_going-In i gone))
    | inr left ↦ keep-In (λ r. not (is_going r)) i (rw left)
  ]

  goes :
      {row : OidcLoginAttempt}
      → In row rows
      → (In row (without_expired locked at rows) → ⊥)
      → In row going
  unfolding without_expired expired_ids
  goes {row} i out = elim (Bool-cases (is_going row)) [
    | inl gone ↦ is_going-In i gone
    | inr left ↦ absurd (out (keep-In (λ r. not (is_going r)) i (rw left)))
  ]

  left-not_going :
      {row : OidcLoginAttempt}
      → In row (without_expired locked at rows)
      → In row rows × (In row going → ⊥)
  unfolding without_expired expired_ids
  left-not_going {row} i =
      let (stored, left) = In-keep (λ r. not (is_going r)) rows i in
      (stored, λ m. cc (left, In-is_going m))

  not-can_go :
      (row : OidcLoginAttempt)
      → (at < row.expires_at) ⊎ (locked row.id ≡ true)
      → can_go row ≡ true
      → ⊥
  not-can_go row h g = ground arith

  without_expired-length : length rows ≤ length (without_expired locked at rows) + 100
  unfolding without_expired expired_ids
  without_expired-length = omega (
    arith,
    length-keep-any (λ (r : OidcLoginAttempt). r.id) (map (λ (r : OidcLoginAttempt). r.id) going)
        rows c.ids,
    length-map (λ (r : OidcLoginAttempt). r.id) going,
    length-take-le 100 (sort_by (λ row. row.expires_at) (keep can_go rows)),
  )

  going-le :
      {gone left : OidcLoginAttempt}
      → In gone going
      → In left rows
      → (In left going → ⊥)
      → can_go left ≡ true
      → gone.expires_at ≤ left.expires_at
  going-le {gone} {left} m i out g =
      let sorted =
        sort_by-IsSorted (λ (row : OidcLoginAttempt). row.expires_at) (keep can_go rows) in
      elim (In-take-sorted (λ (row : OidcLoginAttempt). row.expires_at) 100
        (sort_by (λ row. row.expires_at) (keep can_go rows)) sorted m
        (sort_by-In (λ row. row.expires_at) left (keep-In can_go i g))) [
          | inl k ↦ absurd (out k)
          | inr h ↦ h
        ]

  pub without_expired-IsCleanup : IsCleanup locked at rows (without_expired locked at rows)
  without_expired-IsCleanup = record {
    stored = λ row i. (left-not_going i).0;
    live = λ row i h. stays i (λ m. not-can_go row h (going-can_go m));
    bounded = without_expired-length;
    oldest_first = λ gone left i out j expired free.
        let (stored, other) = left-not_going j in going-le (goes i out) stored other (ground arith);
  }

-- A successful `create` leaves its row in front of what a cleanup at its instant may leave of the
-- table: the other rows were all there, no unexpired or locked row is gone, at most 100 rows are
-- gone, and none that expired later than an expired row which stayed.
pub create-IsCleanup :
    (locked : ℕ → Bool) (id token_digest : ℕ) (flow : Entries) (return_to : String)
    (created_at expires_at : ℕ) (db db' : Database)
    → IsConsistent db.oidc_login_attempt
    → create locked id token_digest flow return_to created_at expires_at db ≡ (ok tt, db')
    → (kept : List OidcLoginAttempt) × (db'.oidc_login_attempt
        ≡ new_attempt id token_digest flow return_to created_at expires_at ∷ kept)
      × IsCleanup locked created_at db.oidc_login_attempt kept
create-IsCleanup locked id token_digest flow return_to created_at expires_at db db' c h =
    let (e, _, _) = create-eq-ok locked id token_digest flow return_to created_at expires_at db h in
    (
      without_expired locked created_at db.oidc_login_attempt,
      ap (λ (d : Database). d.oidc_login_attempt) e,
      without_expired-IsCleanup locked created_at db.oidc_login_attempt c,
    )
