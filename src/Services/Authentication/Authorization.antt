-- ===== src/Services/Authentication/Authorization.antt =====
-- Who may sign in: the two paths of `complete_login` against one selection over all sources.
use pullfrog_azure.Prelude.{
  ℕ, ◌≡◌, ◌⊎◌, inl, inr, true, false, none, some, List, [], ◌++◌, arith, Bool-cases, Option-cases,
}
use pullfrog_azure.Auth.Domain.{ValidatedOidcClaims, authentication_error, invalid_login_attempt}
use pullfrog_azure.Auth.Policy.{contains_ref-append, select_authorizer}
use pullfrog_azure.Auth.Policy.Selection.{user_ref, select_authorizer-nil}
use pullfrog_azure.Models.{Database}
use pullfrog_azure.Outcome.{ok, raise}
use pullfrog_azure.Platform.{Platform}
use pullfrog_azure.Repositories.AdminIdentities.Laws.{all_refs, select_authorizer-find_matches}
use pullfrog_azure.Services.Authentication.{AuthenticationService, parse_all, resolve_authorizer}

-- The groups that count for a sign-in: none with an overage, and else those of the token.
abbrev pub IsGroupSet : Platform → ValidatedOidcClaims → List ℕ → Type 0
IsGroupSet p claims gs =
    ((claims.group_overage ≡ true) × (gs ≡ []))
    ⊎ ((claims.group_overage ≡ false) × (parse_all p claims.group_object_ids ≡ some gs))

module _ (p : Platform) (service : AuthenticationService) (t u : ℕ) where
  resolve_overage :
      (claims : ValidatedOidcClaims) (db : Database)
      → claims.group_overage ≡ true
      → resolve_authorizer p service t u claims db
        ≡ (ok (select_authorizer t u [] (service.configured_identities ++ all_refs db)), db)
  unfolding resolve_authorizer
  resolve_overage claims db over =
      let configured = service.configured_identities in
      let (found, query, same) = select_authorizer-find_matches t u [] configured db in
      ground (
        arith,
        query,
        same,
        select_authorizer-nil t u configured,
        select_authorizer-nil t u found,
        select_authorizer-nil t u (configured ++ found),
        contains_ref-append configured found (user_ref t u),
      )

  resolve_inline :
      (claims : ValidatedOidcClaims) (gs : List ℕ) (db : Database)
      → claims.group_overage ≡ false
      → parse_all p claims.group_object_ids ≡ some gs
      → resolve_authorizer p service t u claims db
        ≡ (ok (select_authorizer t u gs (service.configured_identities ++ all_refs db)), db)
  unfolding resolve_authorizer
  resolve_inline claims gs db inline parsed =
      let (found, query, same) =
        select_authorizer-find_matches t u gs service.configured_identities db in
      ground (arith, query, same, inline, parsed)

  -- Without groups that count, as when a group of the token is no UUID, nothing is selected.
  pub resolve_authorizer-malformed :
      (claims : ValidatedOidcClaims) (db : Database)
      → claims.group_overage ≡ false
      → parse_all p claims.group_object_ids ≡ none
      → resolve_authorizer p service t u claims db
        ≡ (raise (authentication_error invalid_login_attempt), db)
  unfolding resolve_authorizer
  resolve_authorizer-malformed claims db inline malformed = ground (arith, inline, malformed)

  -- Whatever it comes to, the selection leaves the database alone.
  pub resolve_authorizer-database :
      (claims : ValidatedOidcClaims) (db : Database)
      → (resolve_authorizer p service t u claims db).1 ≡ db
  resolve_authorizer-database claims db = elim (Bool-cases claims.group_overage) [
    | inl over ↦ rw (resolve_overage claims db over)
    | inr inline ↦ elim (Option-cases (parse_all p claims.group_object_ids)) [
      | inl malformed ↦ rw (resolve_authorizer-malformed claims db inline malformed)
      | inr (gs, parsed) ↦ rw (resolve_inline claims gs db inline parsed)
    ]
  ]

-- With the groups that count, the selection of a sign-in is that over the configured identities and
-- all database rows together, and the database is left alone.
pub resolve_authorizer_lem :
    (p : Platform) (service : AuthenticationService) (t u : ℕ) (claims : ValidatedOidcClaims)
    (gs : List ℕ) (db : Database)
    → IsGroupSet p claims gs
    → resolve_authorizer p service t u claims db
      ≡ (ok (select_authorizer t u gs (service.configured_identities ++ all_refs db)), db)
resolve_authorizer_lem p service t u claims gs db h = elim h [
  | inl (over, none_count) ↦ rw none_count (resolve_overage p service t u claims db over)
  | inr (inline, parsed) ↦ resolve_inline p service t u claims gs db inline parsed
]
