-- ===== src/Tests/Migrations.antt =====
-- The migrations over a schema that is the list of its tables and indexes by name.
use pullfrog_azure.Prelude.{
  String, ◌≡◌, refl, Option, none, some, List, [], ◌∷◌, str_eq, str_eq_iff, if◌then◌else◌, any,
  arith,
}
use pullfrog_azure.Migrations.{
  Statement, create_table, create_index, drop_table, drop_index, Operations, run,
}
use pullfrog_azure.Migrations.Revisions.{
  deployment_settings, admin_identity_sessions, revisions, upgrade_all, downgrade_all,
}
use pullfrog_azure.Migrations.RoundTrip.{downgrade_all-upgrade_all}

create_name : String → List String → Option (List String)
unfolding any
create_name name names = if any (str_eq name) names then none else some (name ∷ names)

drop_name : String → List String → Option (List String)
drop_name name [] = none
drop_name name (x ∷ xs) = if str_eq x name then some xs else none

drop_name-create_name :
    (name : String) (names names' : List String)
    → create_name name names ≡ some names'
    → drop_name name names' ≡ some names
unfolding create_name drop_name
drop_name-create_name name names [] h = ground arith
drop_name-create_name name names (x ∷ xs) h = ground (arith, str_eq_iff x name)

abbrev by_name : Statement → List String → Option (List String)
by_name (create_table t) = create_name t.name
by_name (create_index i) = create_name i.name
by_name (drop_table name) = drop_name name
by_name (drop_index name table) = drop_name name

named_operations : Operations (List String)
unfolding create_name drop_name
named_operations = record {
  execute = by_name;
  table_undone = λ t s s' h. drop_name-create_name t.name s s' h;
  index_undone = λ i s s' h. drop_name-create_name i.name s s' h;
}

abbrev head_names : List String
head_names =
    "admin_session" ∷ "ix_oidc_login_attempt_expires_at" ∷ "oidc_login_attempt" ∷ "admin_identity"
    ∷ "deployment_settings" ∷ "alembic_version" ∷ []

upgraded : run named_operations (upgrade_all revisions) ("alembic_version" ∷ []) ≡ some head_names
unfolding run named_operations create_name deployment_settings admin_identity_sessions
upgraded = refl

downgrade_all-upgrade_all_example :
    run named_operations (downgrade_all revisions) head_names ≡ some ("alembic_version" ∷ [])
downgrade_all-upgrade_all_example =
    downgrade_all-upgrade_all named_operations ("alembic_version" ∷ []) head_names upgraded
