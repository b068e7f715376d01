-- ===== src/Concurrent/Settles.antt =====
-- What the commit of a delivery leaves to the others.
use mco_louna_task.Concurrent.Told.{known_after_insert, known_inserted}
use mco_louna_task.System.Progress.{find_update}
use mco_louna_task.Values.{Uuid}
use mco_louna_task.UseCase.Process.Plan.{settled_event_row, settle}
use mco_louna_task.System.Refinement.{not_pending}
use mco_louna_task.System.Rows.{find_update_ne}
use mco_louna_task.Storage.Payments.{has_id}
use mco_louna_task.Storage.Outbox.{has_event_id}
use mco_louna_task.Exec.{PaymentRow, World}
use mco_louna_task.Base.{
  any, true, subst, sym, Bool-cases, ap, arith, find, inl, inr, refl, some, update_where, ℕ, ◌==◌,
  ◌∙◌, ◌≡◌, ◌≢◌,
}
use mco_louna_task.Concurrent.Processing.{
  settled, updating, Deliveries, locked_row, set_stage, settle_commit,
}
use mco_louna_task.Concurrent.Holds.{IsSafe}

module _ (x : ℕ → World) (target : ℕ → Uuid) where
  settled_row :
      (s : Deliveries) (i : ℕ) (row : PaymentRow)
      → IsSafe x target s
      → s.stage i ≡ updating row
      → (row.id ≡ target i) × (find (has_id row.id) s.db.payments ≡ some row)
  settled_row s i row h at = h.held i row (ap locked_row at)

  -- a settled payment is not pending, so no delivery is about to settle it
  apart :
      (s : Deliveries) (i j : ℕ) (row other : PaymentRow)
      → IsSafe x target s
      → s.stage i ≡ updating row
      → s.stage j ≡ settled other
      → target j ≢ row.id
  apart s i j row other h at over same = not_pending ((x j).env.success (x j).tick) (
      ground (
        arith,
        ap (λ u. find (has_id u) s.db.payments) same,
        h.final j other over,
        settled_row s i row h at,
        h.fresh i row at,
      ))

  held_after :
      (s : Deliveries) (i j : ℕ) (row other : PaymentRow)
      → IsSafe x target s
      → s.stage i ≡ updating row
      → locked_row (set_stage i (settled row) s.stage j) ≡ some other
      → (other.id ≡ target j)
        × (find (has_id other.id) (update_where (has_id row.id) (settle (x i)) s.db.payments)
            ≡ some other)
  held_after s i j row other h at k = elim (Bool-cases (j == i)) [
    | inl self ↦ absurd (ground arith)
    | inr differs ↦ (
      (h.held j other (ground arith)).0,
      find_update_ne other.id row.id (settle (x i)) s.db.payments (λ r. refl)
            (λ same.
              absurd (ground (arith, h.alone j i other row (ground arith) (ap locked_row at) same)))
          ∙ (h.held j other (ground arith)).1,
    )
  ]

  settles_now :
      (s : Deliveries) (i : ℕ) (row : PaymentRow)
      → IsSafe x target s
      → s.stage i ≡ updating row
      → find (has_id (target i)) (update_where (has_id row.id) (settle (x i)) s.db.payments)
        ≡ some (settle (x i) row)
  settles_now s i row h at =
      subst
        (λ u.
          find (has_id u) (update_where (has_id row.id) (settle (x i)) s.db.payments)
          ≡ some (settle (x i) row))
        (settled_row s i row h at).0
        (find_update row.id (settle (x i)) s.db.payments row (λ r. refl)
          (settled_row s i row h at).1)

  final_after :
      (s : Deliveries) (i j : ℕ) (row other : PaymentRow)
      → IsSafe x target s
      → s.stage i ≡ updating row
      → set_stage i (settled row) s.stage j ≡ settled other
      → find (has_id (target j)) (update_where (has_id row.id) (settle (x i)) s.db.payments)
        ≡ some (settle (x j) other)
  final_after s i j row other h at k = elim (Bool-cases (j == i)) [
    | inl self ↦
        subst
          (λ n.
            find (has_id (target n)) (update_where (has_id row.id) (settle (x i)) s.db.payments)
            ≡ some (settle (x n) other))
          (ground arith)
          (subst
            (λ r.
              find (has_id (target i)) (update_where (has_id row.id) (settle (x i)) s.db.payments)
              ≡ some (settle (x i) r))
            {x = row} {y = other} (ground arith) (settles_now s i row h at))
    | inr differs ↦
        find_update_ne (target j) row.id (settle (x i)) s.db.payments (λ r. refl)
          (apart s i j row other h at (ground arith))
        ∙ h.final j other (ground arith)
  ]

  one_after :
      (s : Deliveries) (i j k : ℕ) (row r q : PaymentRow)
      → IsSafe x target s
      → s.stage i ≡ updating row
      → set_stage i (settled row) s.stage j ≡ settled r
      → set_stage i (settled row) s.stage k ≡ settled q
      → target j ≡ target k
      → j ≡ k
  one_after s i j k row r q h at l m same = elim (Bool-cases (j == i)) [
    | inl self ↦ elim (Bool-cases (k == i)) [
      | inl self' ↦ ground arith
      | inr other' ↦ absurd (
          apart s i k row q h at (ground arith)
            (sym same ∙ ap target (ground arith) ∙ sym (settled_row s i row h at).0))
    ]
    | inr other ↦ elim (Bool-cases (k == i)) [
      | inl self' ↦ absurd (
          apart s i j row r h at (ground arith)
            (same ∙ ap target (ground arith) ∙ sym (settled_row s i row h at).0))
      | inr other' ↦ h.one j k r q (ground arith) (ground arith) same
    ]
  ]

  told_after :
      (s : Deliveries) (i j : ℕ) (row other : PaymentRow)
      → IsSafe x target s
      → set_stage i (settled row) s.stage j ≡ settled other
      → any
          (has_event_id (settled_event_row other (x j)).id)
          (settle_commit (x i) row i s).db.outbox
        ≡ true
  told_after s i j row other h k = elim (Bool-cases (j == i)) [
    | inl self ↦
        subst
          (λ n.
            any (has_event_id (settled_event_row other (x n)).id)
              (settle_commit (x i) row i s).db.outbox
            ≡ true)
          {x = i} {y = j} (ground arith) (known_inserted (settled_event_row row (x i)) s.db)
    | inr differs ↦
        known_after_insert (settled_event_row other (x j)).id (settled_event_row row (x i)) s.db
          (h.told j other (ground arith))
  ]

  pub commits-IsSafe :
      (s : Deliveries) (i : ℕ) (row : PaymentRow)
      → IsSafe x target s
      → s.stage i ≡ updating row
      → IsSafe x target (settle_commit (x i) row i s)
  commits-IsSafe s i row h at = record {
    held = λ j r k. held_after s i j row r h at k;
    fresh = λ j r k. ground (arith, h.fresh j r);
    alone = λ j k r other l m same. ground (arith, h.alone j k r other);
    final = λ j r k. final_after s i j row r h at k;
    told = λ j r k. told_after s i j row r h k;
    one = λ j k r other l m same. one_after s i j k row r other h at l m same;
  }
