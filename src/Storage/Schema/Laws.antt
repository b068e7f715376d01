-- ===== src/Storage/Schema/Laws.antt =====
-- The migration creates what the code declares, and its way back undoes it.
use mathlib.Core.List.{Perm}
use mathlib.Core.List.Perm
use mco_louna_task.Storage.Schema.Migration.{
  Schema, created_outbox, created_payments, downgrade, execute_operation, is_index, is_on, is_table,
  run_operations, upgrade, without,
}
use mco_louna_task.Storage.Schema.{
  outbox_indexes, payments_indexes, outbox_table, payments_table, table_of,
}
use mco_louna_task.Base.{◌++◌, Bool, List, [], any, arith, false, refl, some, ◌∷◌, ◌≡◌}

-- The schema has none of the names that the service uses.
pub record IsFresh (s : Schema) : Type 0 where
  pub no_outbox : any (is_table "outbox") s.tables ≡ false
  pub no_payments : any (is_table "payments") s.tables ≡ false
  pub none_on_outbox : any (is_on "outbox") s.indexes ≡ false
  pub none_on_payments : any (is_on "payments") s.indexes ≡ false
  pub no_handled_at : any (is_index "ix_outbox_handled_at") s.indexes ≡ false
  pub no_status : any (is_index "ix_outbox_status") s.indexes ≡ false
  pub no_status_handled_at : any (is_index "ix_outbox_status_handled_at") s.indexes ≡ false
  pub no_key : any (is_index "ix_payments_idempotency_key") s.indexes ≡ false
  pub no_payment_id : any (is_index "ix_payments_payment_id") s.indexes ≡ false

without_none : {A : Type 0} (p : A → Bool) (xs : List A) → any p xs ≡ false → without p xs ≡ xs
without_none p [] h = refl
without_none p (x ∷ xs) h = ground (arith, without_none p xs)

-- the schema after the migration, in the order of its operations
abbrev upgraded : Schema → Schema
upgraded s = record {
  tables = table_of payments_table ∷ table_of outbox_table ∷ s.tables;
  indexes =
      record { index_name = "ix_payments_payment_id"; on_table = "payments"; columns = "id" ∷ [] }
      ∷ record {
        index_name = "ix_payments_idempotency_key";
        on_table = "payments";
        columns = "idempotency_key" ∷ [];
      }
      ∷ record {
        index_name = "ix_outbox_status_handled_at";
        on_table = "outbox";
        columns = "status" ∷ "handled_at" ∷ [];
      }
      ∷ record { index_name = "ix_outbox_status"; on_table = "outbox"; columns = "status" ∷ [] }
      ∷ record {
        index_name = "ix_outbox_handled_at";
        on_table = "outbox";
        columns = "handled_at" ∷ [];
      }
      ∷ s.indexes;
}

upgrade_lem : (s : Schema) → IsFresh s → run_operations upgrade s ≡ some (upgraded s)
unfolding run_operations execute_operation upgrade payments_table outbox_table created_payments
    created_outbox
upgrade_lem s h =
    rw
      (
        h.no_outbox, h.no_handled_at, h.no_status, h.no_status_handled_at, h.no_payments, h.no_key,
        h.no_payment_id,
      )
      refl

downgrade_lem : (s : Schema) → IsFresh s → run_operations downgrade (upgraded s) ≡ some s
unfolding run_operations execute_operation downgrade payments_table outbox_table
downgrade_lem s h =
    rw
      (
        without_none (is_index "ix_payments_payment_id") s.indexes h.no_payment_id,
        without_none (is_index "ix_payments_idempotency_key") s.indexes h.no_key,
        without_none (is_on "payments") s.indexes h.none_on_payments,
        without_none (is_index "ix_outbox_status_handled_at") s.indexes h.no_status_handled_at,
        without_none (is_index "ix_outbox_status") s.indexes h.no_status,
        without_none (is_index "ix_outbox_handled_at") s.indexes h.no_handled_at,
        without_none (is_on "outbox") s.indexes h.none_on_outbox,
        without_none (is_table "payments") s.tables h.no_payments,
        without_none (is_table "outbox") s.tables h.no_outbox,
      )
      refl

indexes-Perm :
    (s : Schema) → Perm (upgraded s).indexes ((payments_indexes ++ outbox_indexes) ++ s.indexes)
unfolding payments_indexes outbox_indexes
indexes-Perm s =
    Perm.trans (Perm.swap _ _ _)
      (Perm.cons _ (Perm.cons _ (Perm.trans (Perm.swap _ _ _) (Perm.cons _ (Perm.swap _ _ _)))))

-- On a database that has none of the names, the migration is not refused. It adds the two tables that
-- the code declares, and the indexes of these, in some order. Its downgrade then gives back the
-- tables and indexes from before.
pub upgrade-declared :
    (s : Schema)
    → IsFresh s
    → (t : Schema) × (run_operations upgrade s ≡ some t)
      × (t.tables ≡ table_of payments_table ∷ table_of outbox_table ∷ s.tables)
      × Perm t.indexes ((payments_indexes ++ outbox_indexes) ++ s.indexes)
      × (run_operations downgrade t ≡ some s)
upgrade-declared s h = (upgraded s, upgrade_lem s h, refl, indexes-Perm s, downgrade_lem s h)
