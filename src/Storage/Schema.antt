-- ===== src/Storage/Schema.antt =====
-- The tables that the repositories use (infrastructure/database/payments/table.py and
-- infrastructure/database/outbox/table.py), and what PostgreSQL keeps of a table. `table_of` is how
-- SQLAlchemy reads a `Table(...)`: a column is nullable unless it is told otherwise or is the
-- primary key, and `unique=True` is a constraint without a name. Defaults on the side of Python are
-- no part of the schema.
pub mod Migration
pub mod Keys
pub mod Laws
use mco_louna_task.Base.{
  Bool, List, Option, String, [], false, if◌then◌else◌, none, not, some, true, ℕ, ◌++◌, ◌∷◌,
}

pub data ColumnType : Type 0 where
  uuid_type string_type json_type : ColumnType
  numeric_type : (precision scale : ℕ) → ColumnType
  timestamp_type : (timezone : Bool) → ColumnType
  enum_type : (members : List String) (type_name : String) → ColumnType

pub record Column : Type 0 where
  pub column_name : String
  pub column_type : ColumnType
  pub nullable : Bool

pub record UniqueConstraint : Type 0 where
  pub constraint_name : Option String
  pub columns : List String

pub record Index : Type 0 where
  pub index_name : String
  pub on_table : String
  pub columns : List String

pub record Table : Type 0 where
  pub table_name : String
  pub columns : List Column
  pub primary_key : List String
  pub uniques : List UniqueConstraint

-- `Column(...)` and `Table(...)`
pub record ColumnArgs : Type 0 where
  pub column_name : String
  pub column_type : ColumnType
  pub primary_key : Bool
  pub unique : Bool
  pub nullable : Option Bool

pub record TableArgs : Type 0 where
  pub table_name : String
  pub columns : List ColumnArgs
  pub uniques : List UniqueConstraint

abbrev pub nullable_of : ColumnArgs → Bool
nullable_of c = elim c.nullable [ none ↦ not c.primary_key | some b ↦ b ]

abbrev pub column_of : ColumnArgs → Column
column_of c = record {
  column_name = c.column_name;
  column_type = c.column_type;
  nullable = nullable_of c;
}

abbrev pub primary_key_of : List ColumnArgs → List String
primary_key_of [] = []
primary_key_of (c ∷ cs) =
    let rest = primary_key_of cs in if c.primary_key then c.column_name ∷ rest else rest

abbrev pub unnamed_uniques : List ColumnArgs → List UniqueConstraint
unnamed_uniques [] = []
unnamed_uniques (c ∷ cs) =
    let rest = unnamed_uniques cs in
    if c.unique
    then record { constraint_name = none; columns = c.column_name ∷ [] } ∷ rest
    else rest

abbrev pub columns_of : List ColumnArgs → List Column
columns_of [] = []
columns_of (c ∷ cs) = column_of c ∷ columns_of cs

abbrev pub table_of : TableArgs → Table
table_of t = record {
  table_name = t.table_name;
  columns = columns_of t.columns;
  primary_key = primary_key_of t.columns;
  uniques = unnamed_uniques t.columns ++ t.uniques;
}

abbrev pub primary : String → ColumnType → Bool → ColumnArgs
primary name type unique = record {
  column_name = name;
  column_type = type;
  primary_key = true;
  unique = unique;
  nullable = none;
}

abbrev pub plain : String → ColumnType → Option Bool → ColumnArgs
plain name type nullable = record {
  column_name = name;
  column_type = type;
  primary_key = false;
  unique = false;
  nullable = nullable;
}

-- the names of the members, which SQLAlchemy's `Enum` stores
abbrev pub currency_members : List String
currency_members = "RUB" ∷ "USD" ∷ "EUR" ∷ []

abbrev pub payment_status_members : List String
payment_status_members = "PENDING" ∷ "CONFIRMED" ∷ "FAILED" ∷ []

abbrev pub task_status_members : List String
task_status_members = "PENDING" ∷ "CONFIRMED" ∷ "FAILED" ∷ "IN_PROCESS" ∷ []

unfoldable pub payments_table : TableArgs
payments_table = record {
  table_name = "payments";
  columns =
      primary "id" uuid_type false
      ∷ plain "amount" (numeric_type 18 2) (some false)
      ∷ plain "currency" (enum_type currency_members "currency_enum") (some false)
      ∷ plain "description" string_type (some false)
      ∷ plain "metadata" json_type (some false)
      ∷ plain "status" (enum_type payment_status_members "payment_status_enum") (some false)
      ∷ plain "idempotency_key" uuid_type (some false)
      ∷ plain "created_at" (timestamp_type true) (some false)
      ∷ plain "processed_at" (timestamp_type true) none
      ∷ plain "webhook_url" string_type (some false)
      ∷ [];
  uniques =
      record { constraint_name = some "uq_payments_id"; columns = "id" ∷ [] }
      ∷ record {
        constraint_name = some "uq_payments_idempotency_key";
        columns = "idempotency_key" ∷ [];
      }
      ∷ [];
}

unfoldable pub outbox_table : TableArgs
outbox_table = record {
  table_name = "outbox";
  columns =
      primary "id" uuid_type true
      ∷ plain "queue" string_type (some false)
      ∷ plain "payload" json_type (some true)
      ∷ plain "occurred_at" (timestamp_type true) (some false)
      ∷ plain "status" (enum_type task_status_members "task_status_enum") (some false)
      ∷ plain "handled_at" (timestamp_type true) (some true)
      ∷ [];
  uniques = [];
}

abbrev index_on : String → String → List String → Index
index_on name table columns = record { index_name = name; on_table = table; columns = columns }

unfoldable pub payments_indexes : List Index
payments_indexes =
    index_on "ix_payments_idempotency_key" "payments" ("idempotency_key" ∷ [])
    ∷ index_on "ix_payments_payment_id" "payments" ("id" ∷ [])
    ∷ []

unfoldable pub outbox_indexes : List Index
outbox_indexes =
    index_on "ix_outbox_status" "outbox" ("status" ∷ [])
    ∷ index_on "ix_outbox_handled_at" "outbox" ("handled_at" ∷ [])
    ∷ index_on "ix_outbox_status_handled_at" "outbox" ("status" ∷ "handled_at" ∷ [])
    ∷ []
