-- ===== src/Storage/Outbox.antt =====
-- `SqlAlchemyOutboxRepository` (infrastructure/database/outbox/repository.py). Of rows with one
-- `occurred_at`, which SQL may return in any order, the model takes the older insertion first.
use mco_louna_task.Base.{
  ℕ, String, Bool, true, false, not, ◌&&◌, none, some, List, [], ◌∷◌, ◌++◌, ◌==◌, leb, any, select,
  take, drop, update_where, if◌then◌else◌,
}
use mco_louna_task.Values.{
  Uuid, Datetime, TaskStatus, task_status_eq, Text, Value, Fields, uuid_text, datetime,
}
use mco_louna_task.Errors.{Result, ok, err, bind, value_error, database_error}
use mco_louna_task.Domain.Event.{Event}
use mco_louna_task.Domain.Timestamp.{utc}
use mco_louna_task.Serial.Value.{json_fields}
use mco_louna_task.Serial.Event.{Envelope, serialize_event}
use mco_louna_task.Serial.Rebuild.{rebuild_event}
use mco_louna_task.Exec.{
  OutboxRow, Database, Action, pure, lift, draw, query, execute, raise_when, ◌>>=◌, ◌>>◌,
}

abbrev pub has_event_id : Uuid → OutboxRow → Bool
has_event_id u row = row.id == u

abbrev pub is_pending_task : OutboxRow → Bool
is_pending_task row = task_status_eq row.status TaskStatus.pending

-- what the column types take: a UUID in its text form, an instant, JSON
abbrev pub uuid_column : Text → Result Uuid
uuid_column (uuid_text u) = ok u
uuid_column _ = err database_error

abbrev pub datetime_column : Value → Result Datetime
datetime_column (datetime d) = ok d
datetime_column _ = err database_error

abbrev pub json_column : {A : Type 0} → Result A → Result A
json_column (ok a) = ok a
json_column (err _) = err database_error

-- A new row takes the default status PENDING and no `handled_at`.
abbrev pub new_row : String → Uuid → Datetime → Fields → OutboxRow
new_row queue id at payload = record {
  id = id;
  queue = queue;
  payload = payload;
  occurred_at = at;
  status = TaskStatus.pending;
  handled_at = none;
}

unfoldable pub row_of_envelope : Envelope → Result OutboxRow
row_of_envelope v = bind (uuid_column v.id) (λ id. bind (datetime_column v.occurred_at) (λ at.
    bind (json_column (json_fields v.payload)) (λ payload. ok (new_row v.queue id at payload))))

-- `[serialize_event(e) for e in events]`, and then the rows of the statement
unfoldable pub serialize_all : List Event → Result (List Envelope)
serialize_all [] = ok []
serialize_all (e ∷ es) =
    bind (serialize_event false e) (λ v. bind (serialize_all es) (λ vs. ok (v ∷ vs)))

unfoldable pub rows_of : List Envelope → Result (List OutboxRow)
unfolding row_of_envelope
rows_of [] = ok []
rows_of (v ∷ vs) = bind (row_of_envelope v) (λ r. bind (rows_of vs) (λ rs. ok (r ∷ rs)))

-- `INSERT ... ON CONFLICT (id) DO NOTHING`
unfoldable pub insert_event : OutboxRow → List OutboxRow → List OutboxRow
insert_event row rows = if any (has_event_id row.id) rows then rows else rows ++ row ∷ []

unfoldable pub insert_all : List OutboxRow → List OutboxRow → List OutboxRow
unfolding insert_event
insert_all [] rows = rows
insert_all (r ∷ rs) rows = insert_all rs (insert_event r rows)

abbrev pub insert_rows : List OutboxRow → Database → Database
insert_rows rs d = record d { outbox = insert_all rs d.outbox }

unfoldable pub add_events : List Event → Action (Unit {0})
unfolding serialize_all rows_of
add_events [] = pure tt
add_events (e ∷ es) = do
  serialized ← lift (serialize_all (e ∷ es))
  rows ← lift (rows_of serialized)
  execute (insert_rows rows)

abbrev pub unlocked : (Uuid → Bool) → (OutboxRow → Bool) → OutboxRow → Bool
unlocked locked p row = p row && not (locked row.id)

abbrev pub set_status : TaskStatus → OutboxRow → OutboxRow
set_status s row = record row { status = s }

abbrev pub update_events : Uuid → (OutboxRow → OutboxRow) → Database → Database
update_events u f d = record d { outbox = update_where (has_event_id u) f d.outbox }

unfoldable pub mark_processed : Uuid → TaskStatus → Action (Unit {0})
mark_processed u upd_status = do
  locked ← draw (λ e. e.locked)
  found ← query (λ d. any (unlocked locked (has_event_id u)) d.outbox)
  raise_when (not found) value_error
  execute (update_events u (set_status upd_status))

-- `ORDER BY occurred_at ASC`
unfoldable pub insert_by_time : OutboxRow → List OutboxRow → List OutboxRow
insert_by_time r [] = r ∷ []
insert_by_time r (x ∷ xs) =
    let rest = insert_by_time r xs in
    if leb r.occurred_at.instant x.occurred_at.instant then r ∷ x ∷ xs else x ∷ rest

unfoldable pub order_by_time : List OutboxRow → List OutboxRow
unfolding insert_by_time
order_by_time [] = []
order_by_time (r ∷ rs) = insert_by_time r (order_by_time rs)

-- the rows of the SELECT of `get_pendings`
unfoldable pub pending_rows : ℕ → ℕ → (Uuid → Bool) → List OutboxRow → List OutboxRow
unfolding order_by_time
pending_rows limit offset locked rows =
    take limit (drop offset (order_by_time (select (unlocked locked is_pending_task) rows)))

unfoldable pub rebuild_row : OutboxRow → Result Event
unfolding rebuild_event
rebuild_row r = rebuild_event r.id r.occurred_at r.queue r.payload

unfoldable pub rebuild_rows : List OutboxRow → Result (List Event)
unfolding rebuild_row
rebuild_rows [] = ok []
rebuild_rows (r ∷ rs) = bind (rebuild_row r) (λ e. bind (rebuild_rows rs) (λ es. ok (e ∷ es)))

unfoldable pub get_pendings : ℕ → ℕ → Action (List Event)
unfolding pending_rows rebuild_rows
get_pendings limit offset = do
  locked ← draw (λ e. e.locked)
  rows ← query (λ d. pending_rows limit offset locked d.outbox)
  lift (rebuild_rows rows)

abbrev pub claim : ℕ → OutboxRow → OutboxRow
claim now row = record row { status = TaskStatus.in_process; handled_at = some (utc now) }

-- the row that the locking subquery finds
abbrev pub is_claimable : (Uuid → Bool) → Uuid → OutboxRow → Bool
is_claimable locked u = unlocked locked (λ row. has_event_id u row && is_pending_task row)

abbrev pub claim_if : Bool → ℕ → Uuid → Action Bool
claim_if false now u = pure false
claim_if true now u = do execute (update_events u (claim now)); pure true

unfoldable pub mark_in_process : Uuid → Action Bool
mark_in_process u = do
  now ← draw (λ e. e.clock)
  locked ← draw (λ e. e.locked)
  free ← query (λ d. any (is_claimable locked u) d.outbox)
  claim_if free now u
