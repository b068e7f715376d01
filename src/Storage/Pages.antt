-- ===== src/Storage/Pages.antt =====
-- The page that `get_pendings` (infrastructure/database/outbox/repository.py) reads, against a
-- description of the query without an algorithm.
use mco_louna_task.Values.{Uuid}
use mco_louna_task.Storage.Selection.{IsSelectable, pending_rows_lem, IsOrdered, order-IsOrdered}
use mco_louna_task.Storage.Outbox.{
  insert_by_time, is_pending_task, order_by_time, pending_rows, unlocked,
}
use mco_louna_task.Exec.{OutboxRow}
use mco_louna_task.Base.{
  All, Bool, Bool-cases, List, [], ap, drop, inl, inr, leb, length, length-take, select, take,
  take-drop, take_full, ℕ, ◌++◌, ◌∙◌, ◌∷◌, ◌≡◌, ◌≤◌, ◌⊎◌,
}
use mathlib.Core.List.{Perm}
use mathlib.Core.List.Perm

-- `taken` are the rows of a page: all selectable rows, each as often as the table has it, stand in
-- an order by their times, in which the page follows `offset` rows and ends after `limit`, or where
-- the rows end.
abbrev pub IsPage : ℕ → ℕ → (Uuid → Bool) → List OutboxRow → List OutboxRow → Type 0
IsPage limit offset locked rows taken =
    (skipped : List OutboxRow) × (left : List OutboxRow) × Perm (skipped ++ (taken ++ left))
      (select (unlocked locked is_pending_task) rows)
    × IsOrdered (skipped ++ (taken ++ left))
    × ((taken ++ left ≡ []) ⊎ (length skipped ≡ offset))
    × ((left ≡ []) ⊎ (length taken ≡ limit))
    × (length skipped ≤ offset)
    × (length taken ≤ limit)
    × All (IsSelectable locked) taken

insert-Perm : (r : OutboxRow) (rows : List OutboxRow) → Perm (insert_by_time r rows) (r ∷ rows)
unfolding insert_by_time
insert-Perm r [] = Perm.rfl
insert-Perm r (x ∷ xs) = elim (Bool-cases (leb r.occurred_at.instant x.occurred_at.instant)) [
  | inl holds ↦ rw holds Perm.rfl
  | inr fails ↦ rw fails (Perm.trans (Perm.cons x (insert-Perm r xs)) (Perm.swap r x xs))
]

pub order-Perm : (rows : List OutboxRow) → Perm (order_by_time rows) rows
unfolding order_by_time
order-Perm [] = Perm.rfl
order-Perm (r ∷ rows) =
    Perm.trans (insert-Perm r (order_by_time rows)) (Perm.cons r (order-Perm rows))

page_of :
    (limit offset : ℕ) (xs : List OutboxRow)
    → (take offset xs ++ (take limit (drop offset xs) ++ drop limit (drop offset xs))) ≡ xs
page_of limit offset xs =
    ap (λ ys. take offset xs ++ ys) (take-drop limit (drop offset xs)) ∙ take-drop offset xs

-- The poll reads a page of the pending rows that no other transaction holds, whatever the limit and
-- the offset: in the order of their times, none of them missing or twice, and fewer than the limit
-- only at the end.
pub pending_rows-IsPage :
    (limit offset : ℕ) (locked : Uuid → Bool) (rows : List OutboxRow)
    → IsPage limit offset locked rows (pending_rows limit offset locked rows)
unfolding pending_rows
pending_rows-IsPage limit offset locked rows = (
  take offset ordered,
  drop limit (drop offset ordered),
  rw (page_of limit offset ordered) (order-Perm chosen),
  rw (page_of limit offset ordered) (order-IsOrdered chosen),
  rw (take-drop limit (drop offset ordered)) (take_full offset ordered),
  take_full limit (drop offset ordered),
  length-take offset ordered,
  bounded,
  allowed,
)
  where
    bounded : length (pending_rows limit offset locked rows) ≤ limit
    bounded = (pending_rows_lem limit offset locked rows).0

    allowed : All (IsSelectable locked) (pending_rows limit offset locked rows)
    allowed = (pending_rows_lem limit offset locked rows).1

    chosen : List OutboxRow
    chosen = select (unlocked locked is_pending_task) rows

    ordered : List OutboxRow
    ordered = order_by_time chosen
