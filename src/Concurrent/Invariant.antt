-- ===== src/Concurrent/Invariant.antt =====
-- What holds between the open transactions and the committed state, whatever the order of the
-- statements.
use mco_louna_task.Concurrent.Commits.{found_after, known_after, known_self, room_after, room_known}
use mco_louna_task.Exec.{Database}
use mco_louna_task.System.Rows.{find_append}
use mco_louna_task.System.Invariant.{
  IsConsistent, append_distinct, flip_eq, AreDistinct, same_id, same_key,
}
use mco_louna_task.Storage.Payments.{has_id, violates}
use mco_louna_task.Concurrent.Creation.{
  raised, make_commit, Reach, Step, arriving, check_found, check_passed, commit_made,
  insert_refused, insert_taken, later, lookup_found, lookup_missed, start, set_pc, committed_rows,
  Insertion, Pc, Requests, committing, done, goes, known_key, same_keys,
}
use mco_louna_task.Base.{
  sym, Bool-cases, inl, inr, subst, ◌==◌, [], ap, ◌++◌, ◌∙◌, ◌∷◌, arith, false, find, some, true, ℕ,
  ◌≡◌, ◌≢◌,
}

module _ (x : ℕ → Insertion) where
  pub record IsSound (s : Requests) : Type 0 where
    pub keys : AreDistinct same_key s.db.payments
    pub ids : AreDistinct same_id s.db.payments
    pub room : (i : ℕ) → s.pc i ≡ committing → violates (x i).payment s.db ≡ false
    pub apart :
        (i j : ℕ)
        → s.pc i ≡ committing
        → s.pc j ≡ committing
        → i ≢ j
        → same_keys (x i) (x j) ≡ false
    pub stored :
        (i : ℕ) → s.pc i ≡ done → find (has_id (x i).payment.id) s.db.payments ≡ some (x i).payment
    pub known : (i : ℕ) → s.pc i ≡ done → known_key (x i) s.db ≡ true
    pub one :
        (i j : ℕ)
        → s.pc i ≡ done
        → s.pc j ≡ done
        → (x i).payment.idempotency_key ≡ (x j).payment.idempotency_key
        → i ≡ j

  -- A step of `i` that opens and commits nothing.
  module _ (s : Requests) (i : ℕ) (p : Pc) (h : IsSound s) where
    goes-IsSound : p ≢ committing → p ≢ done → IsSound (goes i p s)
    goes-IsSound not_open not_done = record {
      keys = h.keys;
      ids = h.ids;
      room = λ j e. ground (arith, h.room j);
      apart = λ j k e e' ne. ground (arith, h.apart j k);
      stored = λ j e. ground (arith, h.stored j);
      known = λ j e. ground (arith, h.known j);
      one = λ j k e e' same. ground (arith, h.one j k);
    }

  taken-IsSound :
      (s : Requests) (i : ℕ)
      → IsSound s
      → violates (x i).payment s.db ≡ false
      → ((j : ℕ) → s.pc j ≡ committing → same_keys (x i) (x j) ≡ false)
      → IsSound (goes i committing s)
  taken-IsSound s i h free alone = record {
    keys = h.keys;
    ids = h.ids;
    room = λ j e. ground (arith, h.room j);
    apart = λ j k e e' ne. ground (arith, h.apart j k, alone j, alone k);
    stored = λ j e. ground (arith, h.stored j);
    known = λ j e. ground (arith, h.known j);
    one = λ j k e e' same. ground (arith, h.one j k);
  }

  stored_after :
      (s : Requests) (i j : ℕ)
      → IsSound s
      → s.pc i ≡ committing
      → set_pc i done s.pc j ≡ done
      → find (has_id (x j).payment.id) (s.db.payments ++ (x i).payment ∷ []) ≡ some (x j).payment
  stored_after s i j h ready e = elim (Bool-cases (j == i)) [
    | inl self ↦
        subst
          (λ k.
            find (has_id (x k).payment.id) (s.db.payments ++ (x i).payment ∷ [])
            ≡ some (x k).payment)
          (ground arith) (found_after x s i (h.room i ready))
    | inr other ↦
        find_append (has_id (x j).payment.id) s.db.payments (x j).payment (x i).payment
          (h.stored j (ground arith))
  ]

  known_done :
      (s : Requests) (i j : ℕ)
      → IsSound s
      → set_pc i done s.pc j ≡ done
      → known_key (x j) (committed_rows (x i) s.db) ≡ true
  known_done s i j h e = elim (Bool-cases (j == i)) [
    | inl self ↦
        subst (λ k. known_key (x k) (committed_rows (x i) s.db) ≡ true) (ground arith)
          (known_self x s i)
    | inr other ↦ known_after x s i j (h.known j (ground arith))
  ]

  room_done :
      (s : Requests) (i j : ℕ)
      → IsSound s
      → s.pc i ≡ committing
      → set_pc i done s.pc j ≡ committing
      → violates (x j).payment (committed_rows (x i) s.db) ≡ false
  room_done s i j h ready e =
      room_after x s i j (h.room j (ground arith))
        (h.apart j i (ground arith) ready (λ same. ground arith))

  one_done :
      (s : Requests) (i j k : ℕ)
      → IsSound s
      → s.pc i ≡ committing
      → set_pc i done s.pc j ≡ done
      → set_pc i done s.pc k ≡ done
      → (x j).payment.idempotency_key ≡ (x k).payment.idempotency_key
      → j ≡ k
  one_done s i j k h ready e e' same = elim (Bool-cases (j == i)) [
    | inl self ↦ elim (Bool-cases (k == i)) [
      | inl self' ↦ ground arith
      | inr other' ↦ absurd (
          room_known x s i k (h.room i ready) (h.known k (ground arith))
            (ap (λ m. (x m).payment.idempotency_key) (ground arith) ∙ same))
    ]
    | inr other ↦ elim (Bool-cases (k == i)) [
      | inl self' ↦ absurd (
          room_known x s i j (h.room i ready) (h.known j (ground arith))
            (ap (λ m. (x m).payment.idempotency_key) (ground arith) ∙ sym same))
      | inr other' ↦ h.one j k (ground arith) (ground arith) same
    ]
  ]

  commit-IsSound :
      (s : Requests) (i : ℕ) → IsSound s → s.pc i ≡ committing → IsSound (make_commit (x i) i s)
  commit-IsSound s i h ready = record {
    keys =
        append_distinct same_key (λ y z. flip_eq z.idempotency_key y.idempotency_key) s.db.payments
          (x i).payment h.keys (ground (arith, h.room i ready));
    ids =
        append_distinct same_id (λ y z. flip_eq z.id y.id) s.db.payments (x i).payment h.ids
          (ground (arith, h.room i ready));
    room = λ j e. room_done s i j h ready e;
    apart = λ j k e e' ne. h.apart j k (ground arith) (ground arith) ne;
    stored = λ j e. stored_after s i j h ready e;
    known = λ j e. known_done s i j h e;
    one = λ j k e e' same. one_done s i j k h ready e e' same;
  }

  Step-IsSound : (s t : Requests) → Step x s t → IsSound s → IsSound t
  Step-IsSound s t (lookup_found i locked row at e made) h =
      subst IsSound (sym made) (goes-IsSound s i _ h (λ a. ground arith) (λ a. ground arith))
  Step-IsSound s t (lookup_missed i locked at e made) h =
      subst IsSound (sym made) (goes-IsSound s i _ h (λ a. ground arith) (λ a. ground arith))
  Step-IsSound s t (check_found i message at e made) h =
      subst IsSound (sym made) (goes-IsSound s i _ h (λ a. ground arith) (λ a. ground arith))
  Step-IsSound s t (check_passed i at e made) h =
      subst IsSound (sym made) (goes-IsSound s i _ h (λ a. ground arith) (λ a. ground arith))
  Step-IsSound s t (insert_refused i at e made) h =
      subst IsSound (sym made) (goes-IsSound s i _ h (λ a. ground arith) (λ a. ground arith))
  Step-IsSound s t (insert_taken i at free alone made) h =
      subst IsSound (sym made) (taken-IsSound s i h free alone)
  Step-IsSound s t (commit_made i at made) h = subst IsSound (sym made) (commit-IsSound s i h at)
  Step-IsSound s t (raised i e at made) h =
      subst IsSound (sym made) (goes-IsSound s i _ h (λ a. ground arith) (λ a. ground arith))

  arriving-IsSound : (d : Database) → IsConsistent d → IsSound (arriving d)
  arriving-IsSound d c = record {
    keys = c.keys;
    ids = c.ids;
    room = λ i e. ground arith;
    apart = λ i j e e' ne. ground arith;
    stored = λ i e. ground arith;
    known = λ i e. ground arith;
    one = λ i j e e' same. ground arith;
  }

  pub Reach-IsSound :
      (d : Database) (t : Requests) → IsConsistent d → Reach x (arriving d) t → IsSound t
  Reach-IsSound d t c start = arriving-IsSound d c
  Reach-IsSound d t c (later {t = u} r s) = Step-IsSound u t s (Reach-IsSound d u c r)
