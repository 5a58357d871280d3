-- ===== src/Migrations/Revisions.antt =====
-- The two revisions of alembic/versions.
use pullfrog_azure.Prelude.{String, ◌++◌, true, false, none, some, List, [], ◌∷◌}
use pullfrog_azure.Migrations.{
  ColumnType, uuid, timestamp, jsonb, large_binary, string, enum, Column, check_in, primary_key,
  unique, Table, Index, Statement, create_table, create_index, drop_table, drop_index, Revision,
}

abbrev required : String → ColumnType → Column
required name kind = record { name = name; kind = kind; nullable = false; default_now = false }

abbrev optional : String → ColumnType → Column
optional name kind = record { name = name; kind = kind; nullable = true; default_now = false }

abbrev stamped : String → Column
stamped name = record { name = name; kind = timestamp; nullable = false; default_now = true }

abbrev identity_kinds : List String
identity_kinds = "user" ∷ "group" ∷ []

abbrev pub deployment_settings_table : Table
deployment_settings_table = record {
  name = "deployment_settings";
  columns =
      required "id" uuid
      ∷ optional "entra_tenant_id" (string 36)
      ∷ stamped "created_at"
      ∷ stamped "updated_at"
      ∷ [];
  constraints = primary_key "id" ∷ [];
}

abbrev pub admin_identity_table : Table
admin_identity_table = record {
  name = "admin_identity";
  columns =
      required "id" uuid
      ∷ required "tenant_id" uuid
      ∷ required "kind" (enum identity_kinds 5)
      ∷ required "entra_object_id" uuid
      ∷ stamped "created_at"
      ∷ [];
  constraints =
      check_in "ck_admin_identity_kind" "kind" identity_kinds
      ∷ primary_key "id"
      ∷ unique "uq_admin_identity_tenant_id_kind_entra_object_id"
          ("tenant_id" ∷ "kind" ∷ "entra_object_id" ∷ [])
      ∷ [];
}

abbrev pub oidc_login_attempt_table : Table
oidc_login_attempt_table = record {
  name = "oidc_login_attempt";
  columns =
      required "id" uuid
      ∷ required "token_digest" (large_binary 32)
      ∷ required "flow" jsonb
      ∷ required "return_to" (string 2048)
      ∷ required "created_at" timestamp
      ∷ required "expires_at" timestamp
      ∷ [];
  constraints =
      primary_key "id" ∷ unique "uq_oidc_login_attempt_token_digest" ("token_digest" ∷ []) ∷ [];
}

abbrev pub oidc_login_attempt_index : Index
oidc_login_attempt_index = record {
  name = "ix_oidc_login_attempt_expires_at";
  table = "oidc_login_attempt";
  columns = "expires_at" ∷ [];
}

abbrev pub admin_session_table : Table
admin_session_table = record {
  name = "admin_session";
  columns =
      required "id" uuid
      ∷ required "token_digest" (large_binary 32)
      ∷ required "csrf_token_digest" (large_binary 32)
      ∷ required "tenant_id" uuid
      ∷ required "user_object_id" uuid
      ∷ required "authorizing_kind" (enum identity_kinds 5)
      ∷ required "authorizing_object_id" uuid
      ∷ optional "display_name" (string 256)
      ∷ required "created_at" timestamp
      ∷ required "last_seen_at" timestamp
      ∷ required "idle_expires_at" timestamp
      ∷ required "absolute_expires_at" timestamp
      ∷ optional "revoked_at" timestamp
      ∷ [];
  constraints =
      check_in "ck_admin_session_authorizing_kind" "authorizing_kind" identity_kinds
      ∷ primary_key "id"
      ∷ unique "uq_admin_session_token_digest" ("token_digest" ∷ [])
      ∷ [];
}

unfoldable pub deployment_settings : Revision
deployment_settings = record {
  revision = "20260809_0001";
  down_revision = none;
  upgrade = create_table deployment_settings_table ∷ [];
  downgrade = drop_table "deployment_settings" ∷ [];
}

unfoldable pub admin_identity_sessions : Revision
admin_identity_sessions = record {
  revision = "20260821_0002";
  down_revision = some "20260809_0001";
  upgrade =
      create_table admin_identity_table
      ∷ create_table oidc_login_attempt_table
      ∷ create_index oidc_login_attempt_index
      ∷ create_table admin_session_table
      ∷ [];
  downgrade =
      drop_table "admin_session"
      ∷ drop_index "ix_oidc_login_attempt_expires_at" "oidc_login_attempt"
      ∷ drop_table "oidc_login_attempt"
      ∷ drop_table "admin_identity"
      ∷ [];
}

-- The revisions from the base to the head, each after the one that it names.
abbrev pub revisions : List Revision
revisions = deployment_settings ∷ admin_identity_sessions ∷ []

-- The statements of an upgrade from the base to the head, and of a downgrade back to the base.
abbrev pub upgrade_all : List Revision → List Statement
upgrade_all [] = []
upgrade_all (r ∷ rs) = r.upgrade ++ upgrade_all rs

abbrev pub downgrade_all : List Revision → List Statement
downgrade_all [] = []
downgrade_all (r ∷ rs) = downgrade_all rs ++ r.downgrade
