-- ===== src/System/Progress.antt =====
-- What no operation of the service undoes: rows, their contents, and the order of statuses.
use mco_louna_task.Values.{Datetime, PaymentStatus, TaskStatus, Text, Uuid, Value}
use mco_louna_task.System.Served.{Served, Served-Changes, empty_db}
use mco_louna_task.System.Rows.{find_append, find_update_ne, insert_event-All, update_where-All}
use mco_louna_task.System.Change.{
  Change, Changes, finish, record_payment, settle_event, settle_payment, then_change, unchanged,
}
use mco_louna_task.Storage.Payments.{has_id}
use mco_louna_task.Storage.Outbox.{has_event_id, insert_event, set_status}
use mco_louna_task.Exec.{Database, OutboxRow, PaymentRow}
use mco_louna_task.Base.{
  All, Bool-cases, List, [], ap, arith, find, inl, inr, refl, some, subst, sym, update_where, ℕ,
  ◌==◌, ◌∙◌, ◌∷◌, ◌≡◌, ◌≢◌, ◌⊎◌,
}

-- A later version of a payment's row: only the status and the processing time may differ, and
-- those only if the payment was pending.
abbrev pub IsLaterPayment : PaymentRow → PaymentRow → Type 0
IsLaterPayment old new =
    (record new { status = old.status; processed_at = old.processed_at } ≡ old)
    × ((new ≡ old) ⊎ ((old.status ≡ PaymentStatus.pending) × (new.status ≢ PaymentStatus.pending)))

pub find_update :
    (u : Uuid) (f : PaymentRow → PaymentRow) (rows : List PaymentRow) (row : PaymentRow)
    → ((r : PaymentRow) → (f r).id ≡ r.id)
    → find (has_id u) rows ≡ some row
    → find (has_id u) (update_where (has_id u) f rows) ≡ some (f row)
find_update u f [] row keep h = ground arith
find_update u f (r ∷ rows) row keep h = ground (arith, keep r, find_update u f rows row keep)

abbrev Later : Uuid → PaymentRow → Database → Type 0
Later u old d =
    (new : PaymentRow) × (find (has_id u) d.payments ≡ some new) × IsLaterPayment old new

Later-settled :
    (d : Database) (u v : Uuid) (row other : PaymentRow) (s : PaymentStatus) (at : Datetime)
    (e : OutboxRow)
    → find (has_id u) d.payments ≡ some row
    → find (has_id v) d.payments ≡ some other
    → other.status ≡ PaymentStatus.pending
    → s ≢ PaymentStatus.pending
    → (u ≡ v) ⊎ (u ≢ v)
    → Later u row (record {
      payments = update_where (has_id v) (finish s at) d.payments;
      outbox = insert_event e d.outbox;
    })
Later-settled d u v row other s at e h known fresh final (inl same) = (
  finish s at row,
  subst
      (λ x.
        find (has_id u) (update_where (has_id x) (finish s at) d.payments) ≡ some (finish s at row))
      same (find_update u (finish s at) d.payments row (λ r. refl) h),
  (refl, inr (ground (arith, ap (λ (x : Uuid). find (has_id x) d.payments) same), final)),
)
Later-settled d u v row other s at e h known fresh final (inr ne) =
    (row, find_update_ne u v (finish s at) d.payments (λ r. refl) ne ∙ h, (refl, inl refl))

ne_cases : (a b : ℕ) → (a ≡ b) ⊎ (a ≢ b)
ne_cases a b = elim (Bool-cases (a == b)) [
  | inl e ↦ inl (ground (arith, e))
  | inr e ↦ inr (λ same. ground (arith, e, same))
]

Change-Later :
    (d d' : Database) (u : Uuid) (row : PaymentRow)
    → Change d d'
    → find (has_id u) d.payments ≡ some row
    → Later u row d'
Change-Later d d' u row (record_payment p e _ _ free tells made) h =
    rw made (row, find_append (has_id u) d.payments row p h, (refl, inl refl))
Change-Later d d' u row (settle_payment v other s at e known fresh final tells made) h =
    rw made (Later-settled d u v row other s at e h known fresh final (ne_cases u v))
Change-Later d d' u row (settle_event v s known final made) h = rw made (row, h, (refl, inl refl))

IsLaterPayment-trans :
    (a b c : PaymentRow) → IsLaterPayment a b → IsLaterPayment b c → IsLaterPayment a c
IsLaterPayment-trans a b c (ab, inl same) (bc, k) = subst (λ x. IsLaterPayment x c) same (bc, k)
IsLaterPayment-trans a b c (ab, inr (was, now')) (bc, inl same) =
    subst (λ x. IsLaterPayment a x) (sym same) (ab, inr (was, now'))
IsLaterPayment-trans a b c (ab, inr (was, now')) (bc, inr (still, _)) = absurd (now' still)

Changes-Later :
    (d d' : Database) (u : Uuid) (row : PaymentRow)
    → Changes d d'
    → find (has_id u) d.payments ≡ some row
    → Later u row d'
Changes-Later d d' u row unchanged h = (row, h, (refl, inl refl))
Changes-Later d d' u row (then_change {d' = e} k s) h =
    let (mid, found, first) = Changes-Later d e u row k h in
    let (new, found', second) = Change-Later e d' u mid s found in
    (new, found', IsLaterPayment-trans row mid new first second)

-- No operation of the service loses a payment or changes its terms: whatever is served, the
-- payment is still found by its identifier, with the same amount, currency, description, metadata,
-- key, creation time and webhook, and with the same status and processing time unless it was
-- pending and is now settled.
pub Served-keeps_payment :
    (to_str : Value → Text) (d d' : Database) (u : Uuid) (row : PaymentRow)
    → Served to_str d d'
    → find (has_id u) d.payments ≡ some row
    → (new : PaymentRow) × (find (has_id u) d'.payments ≡ some new) × IsLaterPayment row new
Served-keeps_payment to_str d d' u row h = Changes-Later d d' u row (Served-Changes to_str d d' h)

abbrev pub IsUnclaimed : OutboxRow → Type 0
IsUnclaimed e = e.status ≢ TaskStatus.in_process

final_unclaimed :
    (s : TaskStatus)
    → (s ≡ TaskStatus.confirmed) ⊎ (s ≡ TaskStatus.failed)
    → s ≢ TaskStatus.in_process
final_unclaimed s h e = ground (arith, h, e)

pending_unclaimed : (s : TaskStatus) → s ≡ TaskStatus.pending → s ≢ TaskStatus.in_process
pending_unclaimed s h e = ground (arith, h, e)

Changes-IsUnclaimed :
    (d d' : Database) → Changes d d' → All IsUnclaimed d.outbox → All IsUnclaimed d'.outbox
Changes-IsUnclaimed d d' unchanged h = h
Changes-IsUnclaimed d d' (then_change {d' = b} k (record_payment p e _ _ free tells made)) h =
    rw made (
      insert_event-All IsUnclaimed e b.outbox (pending_unclaimed e.status tells.0)
        (Changes-IsUnclaimed d b k h))
Changes-IsUnclaimed d d'
      (then_change {d' = b} k (settle_payment v other s at e known fresh final tells made)) h =
    rw made (
      insert_event-All IsUnclaimed e b.outbox (pending_unclaimed e.status tells.0)
        (Changes-IsUnclaimed d b k h))
Changes-IsUnclaimed d d' (then_change {d' = b} k (settle_event v s known final made)) h = rw made (
    update_where-All IsUnclaimed (has_event_id v) (set_status s) b.outbox
      (λ r _. final_unclaimed s final) (Changes-IsUnclaimed d b k h))

-- In no state that the service reaches from an empty database has an event the status IN_PROCESS:
-- a claim is never committed.
pub Served-unclaimed :
    (to_str : Value → Text) (d : Database)
    → Served to_str empty_db d
    → All (λ e. e.status ≢ TaskStatus.in_process) d.outbox
Served-unclaimed to_str d h = Changes-IsUnclaimed empty_db d (Served-Changes to_str empty_db d h) tt
