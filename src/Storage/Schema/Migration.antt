-- ===== src/Storage/Schema/Migration.antt =====
-- The initial migration (infrastructure/database/migrations/versions), as the operations that it
-- asks for, and what PostgreSQL makes of them: it refuses to create what exists, to index a table
-- that is missing and to drop what is missing, and it drops a table with its indexes. The
-- enumeration types, which PostgreSQL keeps beside the tables, are left out.
use mco_louna_task.Storage.Schema.{
  Column, ColumnType, Index, Table, UniqueConstraint, enum_type, json_type, numeric_type,
  string_type, timestamp_type, uuid_type,
}
use mco_louna_task.Base.{
  Bool, List, Option, String, [], any, false, if◌then◌else◌, none, not, select, some, str_eq, true,
  ◌||◌, ◌∷◌,
}

pub data Operation : Type 0 where
  create_table : Table → Operation
  create_index : Index → Operation
  drop_index : String → Operation
  drop_table : String → Operation

-- the tables and indexes of a database, in no particular order
pub record Schema : Type 0 where
  pub tables : List Table
  pub indexes : List Index

abbrev pub is_table : String → Table → Bool
is_table name t = str_eq t.table_name name

abbrev pub is_index : String → Index → Bool
is_index name i = str_eq i.index_name name

abbrev pub is_on : String → Index → Bool
is_on name i = str_eq i.on_table name

abbrev pub without : {A : Type 0} → (A → Bool) → List A → List A
without p = select (λ x. not (p x))

abbrev pub add_table : Table → Schema → Schema
add_table t s = record s { tables = t ∷ s.tables }

abbrev pub add_index : Index → Schema → Schema
add_index i s = record s { indexes = i ∷ s.indexes }

abbrev pub remove_table : String → Schema → Schema
remove_table name s = record {
  tables = without (is_table name) s.tables;
  indexes = without (is_on name) s.indexes;
}

abbrev pub remove_index : String → Schema → Schema
remove_index name s = record s { indexes = without (is_index name) s.indexes }

-- the new schema, if the operation is not refused
unfoldable pub execute_operation : Operation → Schema → Option Schema
execute_operation (create_table t) s =
    if any (is_table t.table_name) s.tables then none else some (add_table t s)
execute_operation (create_index i) s =
    if any (is_index i.index_name) s.indexes || not (any (is_table i.on_table) s.tables)
    then none
    else some (add_index i s)
execute_operation (drop_index name) s =
    if any (is_index name) s.indexes then some (remove_index name s) else none
execute_operation (drop_table name) s =
    if any (is_table name) s.tables then some (remove_table name s) else none

abbrev then_run : (Schema → Option Schema) → Option Schema → Option Schema
then_run rest none = none
then_run rest (some s) = rest s

unfoldable pub run_operations : List Operation → Schema → Option Schema
run_operations [] s = some s
run_operations (o ∷ os) s = then_run (run_operations os) (execute_operation o s)

abbrev column : String → ColumnType → Bool → Column
column name type nullable = record { column_name = name; column_type = type; nullable = nullable }

abbrev unique_on : Option String → String → UniqueConstraint
unique_on name c = record { constraint_name = name; columns = c ∷ [] }

abbrev index_on : String → String → List String → Operation
index_on name table columns =
    create_index (record { index_name = name; on_table = table; columns = columns })

unfoldable pub created_outbox : Table
created_outbox = record {
  table_name = "outbox";
  columns =
      column "id" uuid_type false
      ∷ column "queue" string_type false
      ∷ column "payload" json_type true
      ∷ column "occurred_at" (timestamp_type true) false
      ∷ column "status"
          (enum_type ("PENDING" ∷ "CONFIRMED" ∷ "FAILED" ∷ "IN_PROCESS" ∷ []) "task_status_enum")
          false
      ∷ column "handled_at" (timestamp_type true) true
      ∷ [];
  primary_key = "id" ∷ [];
  uniques = unique_on none "id" ∷ [];
}

unfoldable pub created_payments : Table
created_payments = record {
  table_name = "payments";
  columns =
      column "id" uuid_type false
      ∷ column "amount" (numeric_type 18 2) false
      ∷ column "currency" (enum_type ("RUB" ∷ "USD" ∷ "EUR" ∷ []) "currency_enum") false
      ∷ column "description" string_type false
      ∷ column "metadata" json_type false
      ∷ column "status" (enum_type ("PENDING" ∷ "CONFIRMED" ∷ "FAILED" ∷ []) "payment_status_enum")
          false
      ∷ column "idempotency_key" uuid_type false
      ∷ column "created_at" (timestamp_type true) false
      ∷ column "processed_at" (timestamp_type true) true
      ∷ column "webhook_url" string_type false
      ∷ [];
  primary_key = "id" ∷ [];
  uniques =
      unique_on (some "uq_payments_id") "id"
      ∷ unique_on (some "uq_payments_idempotency_key") "idempotency_key"
      ∷ [];
}

unfoldable pub upgrade : List Operation
unfolding created_outbox created_payments
upgrade =
    create_table created_outbox
    ∷ index_on "ix_outbox_handled_at" "outbox" ("handled_at" ∷ [])
    ∷ index_on "ix_outbox_status" "outbox" ("status" ∷ [])
    ∷ index_on "ix_outbox_status_handled_at" "outbox" ("status" ∷ "handled_at" ∷ [])
    ∷ create_table created_payments
    ∷ index_on "ix_payments_idempotency_key" "payments" ("idempotency_key" ∷ [])
    ∷ index_on "ix_payments_payment_id" "payments" ("id" ∷ [])
    ∷ []

unfoldable pub downgrade : List Operation
downgrade =
    drop_index "ix_payments_payment_id"
    ∷ drop_index "ix_payments_idempotency_key"
    ∷ drop_table "payments"
    ∷ drop_index "ix_outbox_status_handled_at"
    ∷ drop_index "ix_outbox_status"
    ∷ drop_index "ix_outbox_handled_at"
    ∷ drop_table "outbox"
    ∷ []
