-- ===== src/Storage/Selection.antt =====
-- Which events `get_pendings` (infrastructure/database/outbox/repository.py) selects.
use mco_louna_task.Values.{TaskStatus, Uuid}
use mco_louna_task.Storage.Outbox.{
  insert_by_time, is_pending_task, order_by_time, pending_rows, unlocked,
}
use mco_louna_task.Exec.{OutboxRow}
use mco_louna_task.Base.{
  All, All-drop, All-take, Bool, Bool-cases, List, [], arith, drop, false, inl, inr, leb, length,
  length-take, select, suc, take, true, zero, ℕ, ◌∷◌, ◌≡◌, ◌≤◌,
}

abbrev pub IsSelectable : (Uuid → Bool) → OutboxRow → Type 0
IsSelectable locked row = (row.status ≡ TaskStatus.pending) × (locked row.id ≡ false)

-- each row is no later than all that follow it
abbrev pub IsOrdered : List OutboxRow → Type 0
IsOrdered [] = Unit
IsOrdered (r ∷ rs) = All (λ s. r.occurred_at.instant ≤ s.occurred_at.instant) rs × IsOrdered rs

selectable :
    (locked : Uuid → Bool) (row : OutboxRow)
    → unlocked locked is_pending_task row ≡ true
    → IsSelectable locked row
selectable locked row h = ground arith

select-IsSelectable :
    (locked : Uuid → Bool) (rows : List OutboxRow)
    → All (IsSelectable locked) (select (unlocked locked is_pending_task) rows)
select-IsSelectable locked [] = tt
select-IsSelectable locked (r ∷ rows) = elim (Bool-cases (unlocked locked is_pending_task r)) [
  | inl holds ↦ rw holds (selectable locked r holds, select-IsSelectable locked rows)
  | inr fails ↦ rw fails (select-IsSelectable locked rows)
]

module _ (P : OutboxRow → Type 0) where
  insert-All_of :
      (r : OutboxRow) (rows : List OutboxRow) → P r → All P rows → All P (insert_by_time r rows)
  unfolding insert_by_time
  insert-All_of r [] h k = (h, tt)
  insert-All_of r (x ∷ xs) h k =
      elim (Bool-cases (leb r.occurred_at.instant x.occurred_at.instant)) [
        | inl holds ↦ rw holds (h, k)
        | inr fails ↦ rw fails (k.0, insert-All_of r xs h k.1)
      ]

  order-All_of : (rows : List OutboxRow) → All P rows → All P (order_by_time rows)
  unfolding order_by_time
  order-All_of [] h = tt
  order-All_of (r ∷ rows) h = insert-All_of r (order_by_time rows) h.0 (order-All_of rows h.1)

select-All :
    (P : OutboxRow → Type 0) (p : OutboxRow → Bool) (rows : List OutboxRow)
    → All P rows
    → All P (select p rows)
select-All P p [] h = tt
select-All P p (r ∷ rows) h = elim (Bool-cases (p r)) [
  | inl holds ↦ rw holds (h.0, select-All P p rows h.1)
  | inr fails ↦ rw fails (select-All P p rows h.1)
]

-- What holds of all rows holds of those of a page.
pub pending_rows-All :
    (P : OutboxRow → Type 0) (limit offset : ℕ) (locked : Uuid → Bool) (rows : List OutboxRow)
    → All P rows
    → All P (pending_rows limit offset locked rows)
unfolding pending_rows
pending_rows-All P limit offset locked rows h =
    let chosen = select (unlocked locked is_pending_task) rows in
    All-take P limit (drop offset (order_by_time chosen)) (
      All-drop P offset (order_by_time chosen)
        (order-All_of P chosen (select-All P (unlocked locked is_pending_task) rows h)))

later_of :
    (r x : OutboxRow) (rows : List OutboxRow)
    → r.occurred_at.instant ≤ x.occurred_at.instant
    → All (λ s. x.occurred_at.instant ≤ s.occurred_at.instant) rows
    → All (λ s. r.occurred_at.instant ≤ s.occurred_at.instant) rows
later_of r x [] h k = tt
later_of r x (s ∷ rows) h k = (omega (arith, h, k.0), later_of r x rows h k.1)

insert-IsOrdered :
    (r : OutboxRow) (rows : List OutboxRow) → IsOrdered rows → IsOrdered (insert_by_time r rows)
unfolding insert_by_time
insert-IsOrdered r [] h = (tt, tt)
insert-IsOrdered r (x ∷ xs) h =
    elim (Bool-cases (leb r.occurred_at.instant x.occurred_at.instant)) [
      | inl holds ↦ rw holds ((ground arith, later_of r x xs (ground arith) h.0), h)
      | inr fails ↦ rw fails (
        insert-All_of (λ s. x.occurred_at.instant ≤ s.occurred_at.instant) r xs (ground arith) h.0,
        insert-IsOrdered r xs h.1,
      )
    ]

pub order-IsOrdered : (rows : List OutboxRow) → IsOrdered (order_by_time rows)
unfolding order_by_time
order-IsOrdered [] = tt
order-IsOrdered (r ∷ rows) = insert-IsOrdered r (order_by_time rows) (order-IsOrdered rows)

take-IsOrdered : (n : ℕ) (rows : List OutboxRow) → IsOrdered rows → IsOrdered (take n rows)
take-IsOrdered zero rows h = tt
take-IsOrdered (suc n) [] h = tt
take-IsOrdered (suc n) (r ∷ rows) h = (
  All-take (λ s. r.occurred_at.instant ≤ s.occurred_at.instant) n rows h.0,
  take-IsOrdered n rows h.1,
)

drop-IsOrdered : (n : ℕ) (rows : List OutboxRow) → IsOrdered rows → IsOrdered (drop n rows)
drop-IsOrdered zero rows h = h
drop-IsOrdered (suc n) [] h = tt
drop-IsOrdered (suc n) (r ∷ rows) h = drop-IsOrdered n rows h.1

-- The poll takes at most `limit` rows, each of them pending and free of other transactions' locks,
-- and in the order of their times.
pub pending_rows_lem :
    (limit offset : ℕ) (locked : Uuid → Bool) (rows : List OutboxRow)
    → let taken = pending_rows limit offset locked rows in
      (length taken ≤ limit) × All (IsSelectable locked) taken × IsOrdered taken
unfolding pending_rows
pending_rows_lem limit offset locked rows = (
  length-take limit (drop offset ordered),
  All-take (IsSelectable locked) limit (drop offset ordered) (
      All-drop (IsSelectable locked) offset ordered
        (order-All_of (IsSelectable locked) chosen (select-IsSelectable locked rows))),
  take-IsOrdered limit (drop offset ordered)
      (drop-IsOrdered offset ordered (order-IsOrdered chosen)),
)
  where
    chosen : List OutboxRow
    chosen = select (unlocked locked is_pending_task) rows

    ordered : List OutboxRow
    ordered = order_by_time chosen
