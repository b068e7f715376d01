-- ===== src/Examples/Schema.antt =====
-- The theorems on the schema at a concrete database.
use mco_louna_task.Storage.Outbox.{insert_event}
use mco_louna_task.Storage.Schema.Migration.{
  Schema, created_outbox, created_payments, downgrade, run_operations, upgrade,
}
use mco_louna_task.Storage.Schema.Laws.{IsFresh, upgrade-declared}
use mco_louna_task.Storage.Schema.Keys.{conflicts, conflicts-violates, outbox_cell, payment_cell}
use mco_louna_task.Storage.Schema.{
  outbox_indexes, outbox_table, payments_indexes, payments_table, table_of, uuid_type,
}
use mco_louna_task.Examples.{pending_db, sample_event_row, sample_row}
use mco_louna_task.Base.{if◌then◌else◌, [], false, refl, some, true, ◌++◌, ◌∷◌, ◌≡◌}
use mathlib.Core.List.{Perm}

-- another table with an index
abbrev other_schema : Schema
other_schema = record {
  tables =
      record {
        table_name = "merchants";
        columns = record { column_name = "id"; column_type = uuid_type; nullable = false } ∷ [];
        primary_key = "id" ∷ [];
        uniques = [];
      }
      ∷ [];
  indexes =
      record { index_name = "ix_merchants_id"; on_table = "merchants"; columns = "id" ∷ [] } ∷ [];
}

other_schema-IsFresh : IsFresh other_schema
other_schema-IsFresh = record {
  no_outbox = refl;
  no_payments = refl;
  none_on_outbox = refl;
  none_on_payments = refl;
  no_handled_at = refl;
  no_status = refl;
  no_status_handled_at = refl;
  no_key = refl;
  no_payment_id = refl;
}

upgrade-declared_example :
    (t : Schema) × (run_operations upgrade other_schema ≡ some t)
    × (t.tables ≡ table_of payments_table ∷ table_of outbox_table ∷ other_schema.tables)
    × Perm t.indexes ((payments_indexes ++ outbox_indexes) ++ other_schema.indexes)
    × (run_operations downgrade t ≡ some other_schema)
upgrade-declared_example = upgrade-declared other_schema other_schema-IsFresh

conflicts-violates_example :
    (conflicts payment_cell created_payments sample_row pending_db.payments ≡ true)
    × (conflicts outbox_cell created_outbox sample_event_row pending_db.outbox ≡ true)
    × (insert_event sample_event_row pending_db.outbox ≡ (
        if conflicts outbox_cell created_outbox sample_event_row pending_db.outbox
        then pending_db.outbox
        else pending_db.outbox ++ sample_event_row ∷ []))
conflicts-violates_example = conflicts-violates sample_row sample_event_row pending_db
