-- ===== src/Models.antt =====
-- models/*.py and the migrations under alembic/versions: the rows of the three tables that the
-- login uses. An instant is a number of microseconds; a digest is the number of its 32 bytes.
use pullfrog_azure.Prelude.{ℕ, String, Option, List}
use pullfrog_azure.Auth.Domain.{AdminIdentityKind}
use pullfrog_azure.Values.{Entries}

pub record OidcLoginAttempt : Type 0 where
  pub id : ℕ
  pub token_digest : ℕ
  pub flow : Entries
  pub return_to : String
  pub created_at : ℕ
  pub expires_at : ℕ

pub record AdminIdentity : Type 0 where
  pub id : ℕ
  pub tenant_id : ℕ
  pub kind : AdminIdentityKind
  pub entra_object_id : ℕ
  pub created_at : ℕ

pub record AdminSession : Type 0 where
  pub id : ℕ
  pub token_digest : ℕ
  pub csrf_token_digest : ℕ
  pub tenant_id : ℕ
  pub user_object_id : ℕ
  pub authorizing_kind : AdminIdentityKind
  pub authorizing_object_id : ℕ
  pub display_name : Option String
  pub created_at : ℕ
  pub last_seen_at : ℕ
  pub idle_expires_at : ℕ
  pub absolute_expires_at : ℕ
  pub revoked_at : Option ℕ

-- the committed content of the tables
pub record Database : Type 0 where
  pub oidc_login_attempt : List OidcLoginAttempt
  pub admin_identity : List AdminIdentity
  pub admin_session : List AdminSession
