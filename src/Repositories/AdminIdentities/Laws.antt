-- ===== src/Repositories/AdminIdentities/Laws.antt =====
-- What the queries of the identity repository say of the whole table.
use pullfrog_azure.Prelude.{
  ℕ, ◌≡◌, refl, inl, inr, Bool, true, ◌&&◌, ◌||◌, List, [], ◌∷◌, ◌++◌, map, arith, ◌==◌, ==_iff,
  any, any-In, keep, find, is_some, In, Bool-cases, ap,
}
use pullfrog_azure.Auth.Domain.{AdminIdentityRef, kind_eq, ref_eq}
use pullfrog_azure.Auth.Policy.{contains_ref, contains_ref-append, select_authorizer}
use pullfrog_azure.Auth.Policy.Selection.{
  user_ref, group_ref, SameCandidates, select_authorizer-congr,
}
use pullfrog_azure.Models.{AdminIdentity, Database}
use pullfrog_azure.Outcome.{ok}
use pullfrog_azure.Repositories.AdminIdentities.{
  identity_ref, candidate, find_matches, is_configured,
}

-- the references of all rows
abbrev pub all_refs : Database → List AdminIdentityRef
all_refs db = map identity_ref db.admin_identity

module _ (t u : ℕ) (gs : List ℕ) where
  -- the filter of `find_matches`
  abbrev wanted : AdminIdentity → Bool
  wanted row = row.tenant_id == t && candidate u gs row

  abbrev pub matches : Database → List AdminIdentityRef
  matches db = map identity_ref (keep wanted db.admin_identity)

  find_matches_lem : (db : Database) → find_matches t u gs db ≡ (ok (matches db), db)
  unfolding find_matches
  find_matches_lem db = refl

  contains_ref-keep :
      (r : AdminIdentityRef) (rows : List AdminIdentity)
      → ((row : AdminIdentity) → ref_eq r (identity_ref row) ≡ true → wanted row ≡ true)
      → contains_ref (map identity_ref (keep wanted rows)) r
        ≡ contains_ref (map identity_ref rows) r
  unfolding contains_ref any keep
  contains_ref-keep r [] h = refl
  contains_ref-keep r (row ∷ rows) h = elim (Bool-cases (wanted row)) [
    | inl hit ↦ rw hit (ap (λ b. ref_eq r (identity_ref row) || b) (contains_ref-keep r rows h))
    | inr miss ↦ elim (Bool-cases (ref_eq r (identity_ref row))) [
      | inl same ↦ cc (h row same)
      | inr other ↦ rw (miss, other) (contains_ref-keep r rows h)
    ]
  ]

  user-wanted :
      (row : AdminIdentity) → ref_eq (user_ref t u) (identity_ref row) ≡ true → wanted row ≡ true
  unfolding ref_eq
  user-wanted row h = ground arith

  group-wanted :
      (g : ℕ)
      → In g gs
      → (row : AdminIdentity) → ref_eq (group_ref t g) (identity_ref row) ≡ true
      → wanted row ≡ true
  unfolding ref_eq
  group-wanted g i row h =
      let same : g ≡ row.entra_object_id = ground arith in
      let hit = any-In (λ k. k == row.entra_object_id) i ((==_iff g row.entra_object_id).1 same) in
      ground arith

  matches-SameCandidates :
      (configured : List AdminIdentityRef) (db : Database)
      → SameCandidates (configured ++ matches db) (configured ++ all_refs db) t u gs gs
  matches-SameCandidates configured db = record {
    groups = λ g. (λ i. i, λ i. i);
    own = simp contains_ref-append (
        ap (λ b. contains_ref configured (user_ref t u) || b)
          (contains_ref-keep (user_ref t u) db.admin_identity user-wanted));
    shared = λ g i. simp contains_ref-append (
        ap (λ b. contains_ref configured (group_ref t g) || b)
          (contains_ref-keep (group_ref t g) db.admin_identity (group-wanted g i)));
  }

-- `find_matches` leaves the database alone, and the rows that its filter leaves out never matter:
-- with any configured identities beside them, the matches select what all rows would select.
pub select_authorizer-find_matches :
    (t u : ℕ) (gs : List ℕ) (configured : List AdminIdentityRef) (db : Database)
    → (found : List AdminIdentityRef) × (find_matches t u gs db ≡ (ok found, db))
      × (select_authorizer t u gs (configured ++ found)
          ≡ select_authorizer t u gs (configured ++ all_refs db))
select_authorizer-find_matches t u gs configured db = (
  matches t u gs db,
  find_matches_lem t u gs db,
  select_authorizer-congr (configured ++ matches t u gs db) (configured ++ all_refs db) t u gs gs
      (matches-SameCandidates t u gs configured db),
)

is_some-find :
    (r : AdminIdentityRef) (rows : List AdminIdentity)
    → is_some (
        find
          (λ row.
            row.tenant_id == r.tenant_id
            && kind_eq row.kind r.kind
            && row.entra_object_id == r.object_id)
          rows)
      ≡ contains_ref (map identity_ref rows) r
unfolding find contains_ref any ref_eq
is_some-find r [] = refl
is_some-find r (row ∷ rows) = ground (arith, is_some-find r rows)

-- `is_configured` answers whether some row has the reference, and leaves the database alone.
pub is_configured_lem :
    (r : AdminIdentityRef) (db : Database)
    → is_configured r db ≡ (ok (contains_ref (all_refs db) r), db)
unfolding is_configured
is_configured_lem r db = rw (is_some-find r db.admin_identity)
