-- ===== src/Concurrent/Commits.antt =====
-- What a commit of one request changes for the others.
use mco_louna_task.Storage.Payments.{has_id, has_key, violates}
use mco_louna_task.Concurrent.Creation.{Insertion, Requests, committed_rows, known_key, same_keys}
use mco_louna_task.Base.{
  [], any, any-append, ap, arith, false, find, find-append_none, some, true, ℕ, ◌++◌, ◌∙◌, ◌∷◌, ◌≡◌,
  ◌≢◌,
}

module _ (x : ℕ → Insertion) where
  pub room_after :
      (s : Requests) (i j : ℕ)
      → violates (x j).payment s.db ≡ false
      → same_keys (x j) (x i) ≡ false
      → violates (x j).payment (committed_rows (x i) s.db) ≡ false
  room_after s i j free differ =
      rw (any-append (has_id (x j).payment.id) s.db.payments ((x i).payment ∷ [])) (
        rw (any-append (has_key (x j).payment.idempotency_key) s.db.payments ((x i).payment ∷ []))
          (ground arith))

  pub found_after :
      (s : Requests) (i : ℕ)
      → violates (x i).payment s.db ≡ false
      → find (has_id (x i).payment.id) (s.db.payments ++ (x i).payment ∷ []) ≡ some (x i).payment
  found_after s i free =
      find-append_none (has_id (x i).payment.id) s.db.payments ((x i).payment ∷ []) (ground arith)
      ∙ ground arith

  pub known_after :
      (s : Requests) (i j : ℕ)
      → known_key (x j) s.db ≡ true
      → known_key (x j) (committed_rows (x i) s.db) ≡ true
  known_after s i j e =
      rw (any-append (has_key (x j).payment.idempotency_key) s.db.payments ((x i).payment ∷ []))
        (ground arith)

  pub known_self : (s : Requests) (i : ℕ) → known_key (x i) (committed_rows (x i) s.db) ≡ true
  known_self s i =
      rw (any-append (has_key (x i).payment.idempotency_key) s.db.payments ((x i).payment ∷ []))
        (ground arith)

  -- Who has room for its key is no request whose key is stored.
  pub room_known :
      (s : Requests) (i j : ℕ)
      → violates (x i).payment s.db ≡ false
      → known_key (x j) s.db ≡ true
      → (x i).payment.idempotency_key ≢ (x j).payment.idempotency_key
  room_known s i j free stored same = ground (arith, ap (λ k. any (has_key k) s.db.payments) same)
