-- ===== src/Concurrent/Told.antt =====
-- The outbox keeps the identifiers of its events, and has that of an event that is inserted.
use mco_louna_task.Values.{TaskStatus, Uuid}
use mco_louna_task.System.Settlement.{any-insert_event}
use mco_louna_task.Storage.Outbox.{
  has_event_id, insert_all, insert_event, insert_rows, set_status, update_events,
}
use mco_louna_task.Exec.{Database, OutboxRow}
use mco_louna_task.Base.{==_refl, List, [], any, any-append, arith, true, update_where, ◌∷◌, ◌≡◌}

pub known_inserted :
    (e : OutboxRow) (d : Database) → any (has_event_id e.id) (insert_rows (e ∷ []) d).outbox ≡ true
unfolding insert_all insert_event
known_inserted e d = ground (arith, any-append (has_event_id e.id) d.outbox (e ∷ []), ==_refl e.id)

pub known_after_insert :
    (u : Uuid) (e : OutboxRow) (d : Database)
    → any (has_event_id u) d.outbox ≡ true
    → any (has_event_id u) (insert_rows (e ∷ []) d).outbox ≡ true
unfolding insert_all
known_after_insert u e d h = any-insert_event u e d.outbox h

known_after_all :
    (u v : Uuid) (status : TaskStatus) (rows : List OutboxRow)
    → any (has_event_id u) rows ≡ true
    → any (has_event_id u) (update_where (has_event_id v) (set_status status) rows) ≡ true
known_after_all u v status [] h = h
known_after_all u v status (r ∷ rows) h = ground (arith, known_after_all u v status rows)

pub known_after_update :
    (u v : Uuid) (status : TaskStatus) (d : Database)
    → any (has_event_id u) d.outbox ≡ true
    → any (has_event_id u) (update_events v (set_status status) d).outbox ≡ true
known_after_update u v status d h = known_after_all u v status d.outbox h
