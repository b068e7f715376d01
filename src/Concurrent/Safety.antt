-- ===== src/Concurrent/Safety.antt =====
-- That the invariant of the deliveries holds after every run of their statements.
use mco_louna_task.Values.{TaskStatus, Uuid}
use mco_louna_task.UseCase.Process.Plan.{settle, settled_event_row}
use mco_louna_task.System.Rows.{find_append}
use mco_louna_task.Storage.Payments.{has_id, insert_payment}
use mco_louna_task.Storage.Outbox.{insert_rows, set_status, update_events}
use mco_louna_task.Exec.{Database, OutboxRow, PaymentRow, World}
use mco_louna_task.Concurrent.Told.{known_after_insert, known_after_update}
use mco_louna_task.Concurrent.Settles.{commits-IsSafe}
use mco_louna_task.Base.{[], arith, subst, sym, ℕ, ◌∷◌}
use mco_louna_task.Concurrent.Processing.{
  commit_settled, payment_created, raised, read_found, read_missed, refused, task_settled, updated,
  Deliveries, Run, Statement, begun, delivered, next,
}
use mco_louna_task.Concurrent.Holds.{IsSafe, stops-IsSafe, updates-IsSafe, reads-IsSafe}

module _ (x : ℕ → World) (target : ℕ → Uuid) where
  created-IsSafe :
      (s : Deliveries) (p : PaymentRow) (e : OutboxRow)
      → IsSafe x target s
      → IsSafe x target (record s { db = insert_rows (e ∷ []) (insert_payment p s.db) })
  created-IsSafe s p e h = record {
    held =
        λ j r k. ((h.held j r k).0, find_append (has_id r.id) s.db.payments r p (h.held j r k).1);
    fresh = h.fresh;
    alone = h.alone;
    final =
        λ j r k. find_append (has_id (target j)) s.db.payments (settle (x j) r) p (h.final j r k);
    told = λ j r k. known_after_insert (settled_event_row r (x j)).id e s.db (h.told j r k);
    one = h.one;
  }

  event-IsSafe :
      (s : Deliveries) (u : Uuid) (status : TaskStatus)
      → IsSafe x target s
      → IsSafe x target (record s { db = update_events u (set_status status) s.db })
  event-IsSafe s u status h = record {
    held = h.held;
    fresh = h.fresh;
    alone = h.alone;
    final = h.final;
    told = λ j r k. known_after_update (settled_event_row r (x j)).id u status s.db (h.told j r k);
    one = h.one;
  }

  Statement-IsSafe :
      (s t : Deliveries) → Statement x target s t → IsSafe x target s → IsSafe x target t
  Statement-IsSafe s t (read_missed i locked at covers found made) h =
      subst (IsSafe x target) (sym made) (stops-IsSafe x target s i _ h)
  Statement-IsSafe s t (read_found i locked row at covers found made) h =
      subst (IsSafe x target) (sym made) (reads-IsSafe x target s i locked row h covers found)
  Statement-IsSafe s t (refused i row at late made) h =
      subst (IsSafe x target) (sym made) (stops-IsSafe x target s i _ h)
  Statement-IsSafe s t (updated i row at unsettled made) h =
      subst (IsSafe x target) (sym made) (updates-IsSafe x target s i row h at unsettled)
  Statement-IsSafe s t (commit_settled i row at made) h =
      subst (IsSafe x target) (sym made) (commits-IsSafe x target s i row h at)
  Statement-IsSafe s t (raised i e at made) h =
      subst (IsSafe x target) (sym made) (stops-IsSafe x target s i e h)
  Statement-IsSafe s t (payment_created p e free made) h =
      subst (IsSafe x target) (sym made) (created-IsSafe s p e h)
  Statement-IsSafe s t (task_settled u status made) h =
      subst (IsSafe x target) (sym made) (event-IsSafe s u status h)

  delivered-IsSafe : (d : Database) → IsSafe x target (delivered d)
  delivered-IsSafe d = record {
    held = λ i row e. ground arith;
    fresh = λ i row e. ground arith;
    alone = λ i j row other e e' same. ground arith;
    final = λ i row e. ground arith;
    told = λ i row e. ground arith;
    one = λ i j row other e e' same. ground arith;
  }

  pub Run-IsSafe :
      (d : Database) (t : Deliveries) → Run x target (delivered d) t → IsSafe x target t
  Run-IsSafe d t begun = delivered-IsSafe d
  Run-IsSafe d t (next {t = u} r s) = Statement-IsSafe u t s (Run-IsSafe d u r)
