-- ===== src/Migrations.antt =====
-- alembic/versions: the statements that a revision issues, run one after the other over operations
-- that stand for Alembic and PostgreSQL.
pub mod Revisions
pub mod RoundTrip
use pullfrog_azure.Prelude.{ℕ, String, ◌≡◌, Bool, Option, none, some, List, [], ◌∷◌}

pub data ColumnType : Type 0 where
  -- `sa.Uuid()`, `sa.DateTime(timezone=True)` and `JSONB`
  uuid timestamp jsonb : ColumnType
  -- `sa.LargeBinary(length)` and `sa.String(length)`
  large_binary string : (length : ℕ) → ColumnType
  -- `sa.Enum(…, native_enum=False, create_constraint=False, length=…)`
  enum : (values : List String) (length : ℕ) → ColumnType

pub record Column : Type 0 where
  pub name : String
  pub kind : ColumnType
  pub nullable : Bool
  -- `server_default=now()`
  pub default_now : Bool

pub data Constraint : Type 0 where
  -- `column IN (values)`
  check_in : (name column : String) (values : List String) → Constraint
  primary_key : (column : String) → Constraint
  unique : (name : String) (columns : List String) → Constraint

pub record Table : Type 0 where
  pub name : String
  pub columns : List Column
  pub constraints : List Constraint

-- an index that is not unique
pub record Index : Type 0 where
  pub name : String
  pub table : String
  pub columns : List String

pub data Statement : Type 0 where
  -- `op.create_table(…)` and `op.create_index(…)`
  create_table : Table → Statement
  create_index : Index → Statement
  -- `op.drop_table(…)` and `op.drop_index(…)`
  drop_table : (name : String) → Statement
  drop_index : (name table : String) → Statement

-- What the database does with a statement: a schema, or none where it refuses the statement.
pub record Operations (Schema : Type 0) : Type 0 where
  pub execute : Statement → Schema → Option Schema
  -- dropping what was just created restores the schema
  pub table_undone :
      (t : Table) (s s' : Schema)
      → execute (create_table t) s ≡ some s'
      → execute (drop_table t.name) s' ≡ some s
  pub index_undone :
      (i : Index) (s s' : Schema)
      → execute (create_index i) s ≡ some s'
      → execute (drop_index i.name i.table) s' ≡ some s

module _ {Schema : Type 0} where
  abbrev pub go_on : Option Schema → (Schema → Option Schema) → Option Schema
  go_on none f = none
  go_on (some s) f = f s

  -- A statement that is refused ends the run.
  unfoldable pub run : Operations Schema → List Statement → Schema → Option Schema
  run o [] s = some s
  run o (x ∷ xs) s = go_on (o.execute x s) (run o xs)

-- `revision`, `down_revision`, `upgrade` and `downgrade` of a file of versions/
pub record Revision : Type 0 where
  pub revision : String
  pub down_revision : Option String
  pub upgrade : List Statement
  pub downgrade : List Statement
