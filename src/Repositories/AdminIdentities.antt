-- ===== src/Repositories/AdminIdentities.antt =====
-- repositories/admin_identities.py: the administrator identities that the database configures.
pub mod Laws
use pullfrog_azure.Prelude.{
  ℕ, Bool, ◌&&◌, ◌||◌, Option, none, some, List, [], ◌∷◌, map, ◌==◌, any, keep, find, is_some,
}
use pullfrog_azure.Auth.Domain.{AdminIdentityRef, AdminIdentityKind, user, group, kind_eq}
use pullfrog_azure.Exec.{Exec}
use pullfrog_azure.Models.{AdminIdentity, Database}
use pullfrog_azure.Outcome.{ok}

-- the reference of a row
abbrev pub identity_ref : AdminIdentity → AdminIdentityRef
identity_ref identity = record {
  tenant_id = identity.tenant_id;
  kind = identity.kind;
  object_id = identity.entra_object_id;
}

-- `kind = 'user' AND entra_object_id = … OR kind = 'group' AND entra_object_id IN (…)`; without
-- groups the second filter is left out, as is an `IN` over no values.
abbrev candidate : ℕ → List ℕ → AdminIdentity → Bool
candidate user_object_id group_object_ids identity =
    kind_eq identity.kind user && identity.entra_object_id == user_object_id
    || kind_eq identity.kind group && any (λ g. g == identity.entra_object_id) group_object_ids

unfoldable pub find_matches :
    (tenant_id user_object_id : ℕ) (group_object_ids : List ℕ)
    → Exec Database (List AdminIdentityRef)
find_matches tenant_id user_object_id group_object_ids db = (
  ok (
      map identity_ref (
        keep
          (λ identity.
            identity.tenant_id == tenant_id && candidate user_object_id group_object_ids identity)
          db.admin_identity)),
  db,
)

unfoldable pub is_configured : AdminIdentityRef → Exec Database Bool
is_configured identity db = (
  ok (
      is_some (
        find
          (λ row.
            row.tenant_id == identity.tenant_id
            && kind_eq row.kind identity.kind
            && row.entra_object_id == identity.object_id)
          db.admin_identity)),
  db,
)
