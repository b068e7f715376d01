-- ===== src/Concurrent/Holds.antt =====
-- What holds between the deliveries that have read a row and the committed state, whatever the
-- order of the statements.
use mco_louna_task.Storage.Outbox.{has_event_id}
use mco_louna_task.System.Refinement.{find-visible, id_of_visible, lock_of_visible}
use mco_louna_task.Concurrent.Processing.{set_stage, settled, stopped, holding, updating}
use mco_louna_task.Values.{PaymentStatus, Uuid}
use mco_louna_task.UseCase.Process.Plan.{settled_event_row, settle}
use mco_louna_task.Storage.Payments.{has_id, visible}
use mco_louna_task.Exec.{PaymentRow, World}
use mco_louna_task.Errors.{Error}
use mco_louna_task.Concurrent.Processing.{
  Covers, Deliveries, holding, locked_row, moves, stopped, updating,
}
use mco_louna_task.Base.{
  any, true, Bool-cases, ap, inl, inr, subst, sym, ◌==◌, ◌∙◌, ◌≢◌, Bool, arith, find, some, ℕ, ◌≡◌,
}

module _ (x : ℕ → World) (target : ℕ → Uuid) where
  pub record IsSafe (s : Deliveries) : Type 0 where
    pub held :
        (i : ℕ) (row : PaymentRow)
        → locked_row (s.stage i) ≡ some row
        → (row.id ≡ target i) × (find (has_id row.id) s.db.payments ≡ some row)
    pub fresh :
        (i : ℕ) (row : PaymentRow) → s.stage i ≡ updating row → row.status ≡ PaymentStatus.pending
    pub alone :
        (i j : ℕ) (row other : PaymentRow)
        → locked_row (s.stage i) ≡ some row
        → locked_row (s.stage j) ≡ some other
        → row.id ≡ other.id
        → i ≡ j
    pub final :
        (i : ℕ) (row : PaymentRow)
        → s.stage i ≡ settled row
        → find (has_id (target i)) s.db.payments ≡ some (settle (x i) row)
    pub told :
        (i : ℕ) (row : PaymentRow)
        → s.stage i ≡ settled row
        → any (has_event_id (settled_event_row row (x i)).id) s.db.outbox ≡ true
    pub one :
        (i j : ℕ) (row other : PaymentRow)
        → s.stage i ≡ settled row
        → s.stage j ≡ settled other
        → target i ≡ target j
        → i ≡ j

  -- A statement of `i` that takes no row and commits nothing.
  pub stops-IsSafe :
      (s : Deliveries) (i : ℕ) (e : Error) → IsSafe s → IsSafe (moves i (stopped e) s)
  stops-IsSafe s i e h = record {
    held = λ j row k. ground (arith, h.held j row);
    fresh = λ j row k. ground (arith, h.fresh j row);
    alone = λ j k row other l m same. ground (arith, h.alone j k row other);
    final = λ j row k. ground (arith, h.final j row);
    told = λ j row k. ground (arith, h.told j row);
    one = λ j k row other l m same. ground (arith, h.one j k row other);
  }

  pub updates-IsSafe :
      (s : Deliveries) (i : ℕ) (row : PaymentRow)
      → IsSafe s
      → s.stage i ≡ holding row
      → row.status ≡ PaymentStatus.pending
      → IsSafe (moves i (updating row) s)
  updates-IsSafe s i row h at unsettled = record {
    held = λ j r k. h.held j r (still j r k);
    fresh = λ j r k. elim (Bool-cases (j == i)) [
      | inl self ↦ ground arith
      | inr other ↦ h.fresh j r (ground arith)
    ];
    alone = λ j k r other l m same. h.alone j k r other (still j r l) (still k other m) same;
    final = λ j r k. ground (arith, h.final j r);
    told = λ j r k. ground (arith, h.told j r);
    one = λ j k r other l m same. ground (arith, h.one j k r other);
  }
    where
      still :
          (j : ℕ) (r : PaymentRow)
          → locked_row (set_stage i (updating row) s.stage j) ≡ some r
          → locked_row (s.stage j) ≡ some r
      still j r k = elim (Bool-cases (j == i)) [
        | inl self ↦
            subst (λ n. locked_row (s.stage n) ≡ some r) (ground arith)
              (ap locked_row at ∙ ground arith)
        | inr other ↦ ground arith
      ]

  -- the row that is read is locked by nobody
  unlocked_row :
      (s : Deliveries) (i j : ℕ) (locked : Uuid → Bool) (row other : PaymentRow)
      → Covers locked s
      → find (visible locked (has_id (target i))) s.db.payments ≡ some row
      → locked_row (s.stage j) ≡ some other
      → row.id ≢ other.id
  unlocked_row s i j locked row other covers found at same = absurd (
      ground (
        arith,
        covers j other at,
        lock_of_visible locked (target i) s.db.payments row found,
        id_of_visible locked (target i) s.db.payments row found,
        same,
      ))

  read_row :
      (s : Deliveries) (i : ℕ) (locked : Uuid → Bool) (row : PaymentRow)
      → find (visible locked (has_id (target i))) s.db.payments ≡ some row
      → (row.id ≡ target i) × (find (has_id row.id) s.db.payments ≡ some row)
  read_row s i locked row found = (
    id_of_visible locked (target i) s.db.payments row found,
    subst (λ u. find (has_id u) s.db.payments ≡ some row)
        (sym (id_of_visible locked (target i) s.db.payments row found))
        (sym (
            find-visible locked (target i) s.db.payments
              (lock_of_visible locked (target i) s.db.payments row found))
          ∙ found),
  )

  alone_after_read :
      (s : Deliveries) (i j k : ℕ) (locked : Uuid → Bool) (row r q : PaymentRow)
      → IsSafe s
      → Covers locked s
      → find (visible locked (has_id (target i))) s.db.payments ≡ some row
      → locked_row (set_stage i (holding row) s.stage j) ≡ some r
      → locked_row (set_stage i (holding row) s.stage k) ≡ some q
      → r.id ≡ q.id
      → j ≡ k
  alone_after_read s i j k locked row r q h covers found l m same = elim (Bool-cases (j == i)) [
    | inl self ↦ elim (Bool-cases (k == i)) [
      | inl self' ↦ ground arith
      | inr other' ↦
          absurd (unlocked_row s i k locked row q covers found (ground arith) (ground arith))
    ]
    | inr other ↦ elim (Bool-cases (k == i)) [
      | inl self' ↦
          absurd (unlocked_row s i j locked row r covers found (ground arith) (ground arith))
      | inr other' ↦ h.alone j k r q (ground arith) (ground arith) same
    ]
  ]

  pub reads-IsSafe :
      (s : Deliveries) (i : ℕ) (locked : Uuid → Bool) (row : PaymentRow)
      → IsSafe s
      → Covers locked s
      → find (visible locked (has_id (target i))) s.db.payments ≡ some row
      → IsSafe (moves i (holding row) s)
  reads-IsSafe s i locked row h covers found = record {
    held = λ j r k. elim (Bool-cases (j == i)) [
      | inl self ↦
          subst
            (λ (y : PaymentRow). (y.id ≡ target j) × (find (has_id y.id) s.db.payments ≡ some y))
            (ground arith)
            (subst (λ n. (row.id ≡ target n) × (find (has_id row.id) s.db.payments ≡ some row))
              (ground arith) (read_row s i locked row found))
      | inr other ↦ h.held j r (ground arith)
    ];
    fresh = λ j r k. ground (arith, h.fresh j r);
    alone =
        λ j k r other l m same. alone_after_read s i j k locked row r other h covers found l m same;
    final = λ j r k. ground (arith, h.final j r);
    told = λ j r k. ground (arith, h.told j r);
    one = λ j k r other l m same. ground (arith, h.one j k r other);
  }
