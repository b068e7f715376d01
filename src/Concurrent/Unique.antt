-- ===== src/Concurrent/Unique.antt =====
-- The unique constraints under concurrent requests to create a payment: what they ensure, and what
-- the losing request of two with one key is answered.
use mco_louna_task.Http.Errors.{handle_exception}
use mco_louna_task.Values.{Uuid}
use mco_louna_task.System.Invariant.{AreDistinct, IsConsistent, same_key}
use mco_louna_task.Storage.Payments.{has_id, has_key, violates, visible}
use mco_louna_task.Exec.{Database, PaymentRow}
use mco_louna_task.Errors.{Error, exists, simple_error, integrity_error}
use mco_louna_task.Concurrent.Creation.{
  lookup_found, check_passed, commit_made, insert_refused, insert_taken, known_key, later,
  lookup_missed, start, Insertion, Reach, Requests, arriving, checking, committing, done, goes,
  inserting, make_commit,
}
use mco_louna_task.Base.{
  any-append, find-append_none, ◌∙◌, Bool, List, [], any, ap, arith, false, find, none, refl, some,
  ℕ, ◌∷◌, ◌≡◌, ◌≢◌,
}
use mco_louna_task.Http.Routes.{Server, answer_error, status_code}
use mco_louna_task.Concurrent.Creation.{failed}
use mco_louna_task.Concurrent.Invariant.{Reach-IsSound}

-- However the statements of any number of requests interleave: the payments that are committed
-- differ in their idempotency keys, a request that is done has its own payment committed, and two
-- requests that are done have different keys.
pub Reach-unique :
    (x : ℕ → Insertion) (d : Database) (t : Requests) (i j : ℕ)
    → IsConsistent d
    → Reach x (arriving d) t
    → t.pc i ≡ done
    → t.pc j ≡ done
    → i ≢ j
    → AreDistinct same_key t.db.payments
      × (find (has_id (x i).payment.id) t.db.payments ≡ some (x i).payment)
      × (find (has_id (x j).payment.id) t.db.payments ≡ some (x j).payment)
      × ((x i).payment.idempotency_key ≢ (x j).payment.idempotency_key)
Reach-unique x d t i j c r at_i at_j ne =
    let h = Reach-IsSound x d t c r in
    (h.keys, h.stored i at_i, h.stored j at_j, λ same. ne (h.one i j at_i at_j same))

any-visible :
    (locked : Uuid → Bool) (p : PaymentRow → Bool) (rows : List PaymentRow)
    → any p rows ≡ false
    → any (visible locked p) rows ≡ false
any-visible locked p [] h = refl
any-visible locked p (row ∷ rows) h = ground (arith, any-visible locked p rows)

find-visible-none :
    (locked : Uuid → Bool) (p : PaymentRow → Bool) (rows : List PaymentRow)
    → any p rows ≡ false
    → find (visible locked p) rows ≡ none
find-visible-none locked p [] h = refl
find-visible-none locked p (row ∷ rows) h = ground (arith, find-visible-none locked p rows)

module _ (x : ℕ → Insertion) (d : Database) (free : violates (x 0).payment d ≡ false)
    (same : (x 0).payment.idempotency_key ≡ (x 1).payment.idempotency_key) where
  unknown :
      (i : ℕ)
      → (x 0).payment.idempotency_key ≡ (x i).payment.idempotency_key
      → known_key (x i) d ≡ false
  unknown i e = ground (arith, ap (λ k. any (has_key k) d.payments) e)

  missed :
      (i : ℕ)
      → (x 0).payment.idempotency_key ≡ (x i).payment.idempotency_key
      → find (visible (λ _. false) (has_key (x i).payment.idempotency_key)) d.payments ≡ none
  missed i e =
      find-visible-none (λ _. false) (has_key (x i).payment.idempotency_key) d.payments
        (unknown i e)

  -- Both requests look, both check, the first inserts and commits, the INSERT of the second fails.
  refused_at_insert : Reach x (arriving d) (
      goes 1 (failed integrity_error) (
        make_commit (x 0) 0 (
          goes 0 committing (
            goes 1 inserting (goes 0 inserting (goes 1 checking (goes 0 checking (arriving d))))))))
  refused_at_insert =
      later
        (later
          (later
            (later
              (later
                (later (later start (lookup_missed 0 (λ _. false) refl (missed 0 refl) refl))
                  (lookup_missed 1 (λ _. false) refl (missed 1 same) refl))
                (check_passed 0 refl (unknown 0 refl) refl))
              (check_passed 1 refl (unknown 1 same) refl))
            (insert_taken 0 refl free (λ j e. ground arith) refl))
          (commit_made 0 refl refl))
        (insert_refused 1 refl
          (rw (any-append (has_key (x 1).payment.idempotency_key) d.payments ((x 0).payment ∷ []))
            (ground arith))
          refl)

  first_done : Requests
  first_done =
      make_commit (x 0) 0 (goes 0 committing (goes 0 inserting (goes 0 checking (arriving d))))

  found_key :
      find (visible (λ _. false) (has_key (x 1).payment.idempotency_key)) first_done.db.payments
      ≡ some (x 0).payment
  unfolding first_done
  found_key =
      find-append_none (visible (λ _. false) (has_key (x 1).payment.idempotency_key)) d.payments
        ((x 0).payment ∷ [])
        (any-visible (λ _. false) (has_key (x 1).payment.idempotency_key) d.payments
          (unknown 1 same))
      ∙ ground (arith, same)

  -- The first request is done before the second looks.
  refused_at_lookup :
      Reach x
        (arriving d)
        (goes 1 (failed (simple_error exists "Payment already exists")) first_done)
  unfolding first_done
  refused_at_lookup =
      later
        (later
          (later
            (later (later start (lookup_missed 0 (λ _. false) refl (missed 0 refl) refl))
              (check_passed 0 refl (unknown 0 refl) refl))
            (insert_taken 0 refl free (λ j e. ground arith) refl))
          (commit_made 0 refl refl))
        (lookup_found 1 (λ _. false) (x 0).payment refl found_key refl)

-- Of two requests with one new key, the second can be refused in two ways. In one order of the
-- statements it finds the payment of the first, and the answer is 403; in another its INSERT meets
-- the constraint after its checks have passed, and the answer is 500. The first is done in both.
pub duplicate_answers :
    (server : Server) (x : ℕ → Insertion) (d : Database)
    → violates (x 0).payment d ≡ false
    → (x 0).payment.idempotency_key ≡ (x 1).payment.idempotency_key
    → ((t : Requests) × Reach x (arriving d) t
        × (t.pc 0 ≡ done)
        × (e : Error) × (t.pc 1 ≡ failed e)
        × (status_code (answer_error server e) ≡ 403))
      × ((t : Requests) × Reach x (arriving d) t
          × (t.pc 0 ≡ done)
          × (e : Error) × (t.pc 1 ≡ failed e)
          × (status_code (answer_error server e) ≡ 500))
unfolding answer_error first_done handle_exception
duplicate_answers server x d free same = (
  (_, refused_at_lookup x d free same, refl, _, refl, refl),
  (_, refused_at_insert x d free same, refl, _, refl, refl),
)
