-- ===== src/System/Rows.antt =====
-- Rows that are appended or updated: what holds of all rows of the outbox, and the row of a payment.
use mco_louna_task.Values.{Uuid}
use mco_louna_task.Storage.Payments.{has_id}
use mco_louna_task.Storage.Outbox.{has_event_id, insert_event}
use mco_louna_task.Exec.{PaymentRow, OutboxRow}
use mco_louna_task.Base.{
  arith, find, refl, some, ◌++◌, ◌≡◌, ◌≢◌, All, All-append, Bool, Bool-cases, List, [], any, inl,
  inr, update_where, ◌∷◌,
}

module _ (P : OutboxRow → Type 0) where
  pub insert_event-All :
      (e : OutboxRow) (rows : List OutboxRow) → P e → All P rows → All P (insert_event e rows)
  unfolding insert_event
  insert_event-All e rows h k = elim (Bool-cases (any (has_event_id e.id) rows)) [
    | inl there ↦ rw there k
    | inr new ↦ rw new (All-append P rows (e ∷ []) k (h, tt))
  ]

  pub update_where-All :
      (p : OutboxRow → Bool) (f : OutboxRow → OutboxRow) (rows : List OutboxRow)
      → ((r : OutboxRow) → P r → P (f r))
      → All P rows
      → All P (update_where p f rows)
  update_where-All p f [] keep h = tt
  update_where-All p f (r ∷ rows) keep h = elim (Bool-cases (p r)) [
    | inl e ↦ rw e (keep r h.0, update_where-All p f rows keep h.1)
    | inr e ↦ rw e (h.0, update_where-All p f rows keep h.1)
  ]

pub find_append :
    (p : PaymentRow → Bool) (rows : List PaymentRow) (row new : PaymentRow)
    → find p rows ≡ some row
    → find p (rows ++ new ∷ []) ≡ some row
find_append p [] row new h = ground arith
find_append p (r ∷ rows) row new h = ground (arith, find_append p rows row new)

pub find_update_ne :
    (u v : Uuid) (f : PaymentRow → PaymentRow) (rows : List PaymentRow)
    → ((r : PaymentRow) → (f r).id ≡ r.id)
    → u ≢ v
    → find (has_id u) (update_where (has_id v) f rows) ≡ find (has_id u) rows
find_update_ne u v f [] keep ne = refl
find_update_ne u v f (r ∷ rows) keep ne = ground (arith, keep r, find_update_ne u v f rows keep ne)
