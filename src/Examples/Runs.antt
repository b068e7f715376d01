-- ===== src/Examples/Runs.antt =====
-- The theorems on retries and on concurrent requests at concrete inputs.
use mco_louna_task.UseCase.Process.Calm.{IsCalm}
use mco_louna_task.System.Served.{empty_db, empty_db-IsConsistent}
use mco_louna_task.System.Invariant.{AreDistinct, same_key}
use mco_louna_task.Http.Routes.{answer_error, status_code}
use mco_louna_task.Errors.{Error}
use mco_louna_task.Concurrent.Unique.{Reach-unique, duplicate_answers}
use mco_louna_task.Concurrent.Creation.{
  failed, later, start, Insertion, Reach, Requests, arriving, check_passed, checking, commit_made,
  committing, done, goes, insert_taken, inserting, lookup_missed, make_commit,
}
use mco_louna_task.UseCase.Process.{process_in_transaction, process_payment}
use mco_louna_task.Storage.Payments.{has_id, get_by_id}
use mco_louna_task.Storage.Outbox.{mark_in_process}
use mco_louna_task.Serial.Rebuild.{decode_new_payment}
use mco_louna_task.Domain.ValueObject.{base_post_init}
use mco_louna_task.Domain.Identity.{create_payment_id}
use mco_louna_task.Broker.Routes.{payments_dlx}
use mco_louna_task.Broker.Retry.{create_retry_queues, delay_text}
use mco_louna_task.Values.{cat, uuid_version, str}
use mco_louna_task.Consumer.Process.{
  handle_new_payment, on_process_error, process_and_settle, run_process, handle_payment_processing,
}
use mco_louna_task.UseCase.Create.Plan.{created_message}
use mco_louna_task.System.Consumers.{consume, new_payments}
use mco_louna_task.Exec.{Delivery, World}
use mco_louna_task.Examples.{
  sample_row, sample_server, sample_uuid, sample_env, sample_event, sample_event_row,
  sample_message, sample_payment, sample_str, world_of,
}
use mco_louna_task.Consumer.Message.{
  attempt_of, claim_event, connect, delay_base, publish, publish_retry, Message,
}
use mco_louna_task.Base.{arith, false, find, ℕ, ◌+◌, ◌≢◌, ◌≤◌, ◌≡◌, [], refl, some, ◌∷◌}
use mco_louna_task.System.Retries.{Retries-bound, IsRetriedAs, again, first}

-- the pending event of a payment that is not there
abbrev orphan_world : World
orphan_world = world_of sample_env (record { payments = []; outbox = sample_event_row ∷ [] })

abbrev retried_message : Message
retried_message = record { body = created_message sample_event sample_payment; attempt = some 1 }

-- its message, as the consumer sends it to the retry queue
abbrev retry_sent : Delivery
retry_sent = record {
  exchange = payments_dlx.name;
  routing_key = cat (str "new") (cat (str ".retry.") (delay_text delay_base 1));
  body = retried_message.body;
  attempt = retried_message.attempt;
}

sample_sent : (consume sample_str new_payments sample_message orphan_world).1.sent ≡ retry_sent ∷ []
unfolding consume handle_payment_processing decode_new_payment handle_new_payment claim_event
    mark_in_process run_process process_and_settle process_payment process_in_transaction
    create_payment_id base_post_init uuid_version get_by_id on_process_error connect publish_retry
    create_retry_queues publish
sample_sent = refl

sample_retried : IsRetriedAs sample_str new_payments sample_message retried_message
sample_retried = record {
  world = orphan_world;
  new = retry_sent ∷ [];
  sent = sample_sent;
  place = 0;
  delivery = retry_sent;
  found = refl;
  key = λ same. cc same;
  header = λ absent. cc absent;
  same = refl;
}

Retries-bound_example :
    (1 ≤ 3) × (attempt_of retried_message ≡ 1) × (retried_message.body ≡ sample_message.body)
Retries-bound_example =
    Retries-bound sample_str new_payments sample_message retried_message 1 refl
      (again first sample_retried)

-- requests with keys of their own, and requests with one key
abbrev own_keys : ℕ → Insertion
own_keys i = record {
  payment = record sample_row {
    id = sample_uuid (10 + i);
    idempotency_key = sample_uuid (900 + i);
  };
  event = record sample_event_row { id = sample_uuid (20 + i) };
}

abbrev one_key : ℕ → Insertion
one_key i = record {
  payment = record sample_row { id = sample_uuid (10 + i) };
  event = record sample_event_row { id = sample_uuid (20 + i) };
}

abbrev first_done : Requests
first_done =
    make_commit (own_keys 0) 0
      (goes 0 committing (goes 0 inserting (goes 0 checking (arriving empty_db))))

abbrev both_done : Requests
both_done =
    make_commit (own_keys 1) 1 (goes 1 committing (goes 1 inserting (goes 1 checking first_done)))

run_first : Reach own_keys (arriving empty_db) first_done
run_first =
    later
      (later
        (later (later start (lookup_missed 0 (λ _. false) refl refl refl))
          (check_passed 0 refl refl refl))
        (insert_taken 0 refl refl (λ j e. ground arith) refl))
      (commit_made 0 refl refl)

run_both : Reach own_keys (arriving empty_db) both_done
run_both =
    later
      (later
        (later (later run_first (lookup_missed 1 (λ _. false) refl refl refl))
          (check_passed 1 refl refl refl))
        (insert_taken 1 refl refl (λ j e. ground arith) refl))
      (commit_made 1 refl refl)

differ : (i j : ℕ) → i ≡ 0 → j ≡ 1 → i ≢ j
differ i j at_zero at_one same = omega (arith, at_zero, at_one, same)

Reach-unique_example :
    AreDistinct same_key both_done.db.payments
    × (find (has_id (sample_uuid 10)) both_done.db.payments ≡ some (own_keys 0).payment)
    × (find (has_id (sample_uuid 11)) both_done.db.payments ≡ some (own_keys 1).payment)
    × (sample_uuid 900 ≢ sample_uuid 901)
Reach-unique_example =
    Reach-unique own_keys empty_db both_done 0 1 empty_db-IsConsistent run_both refl refl
      (differ 0 1 refl refl)

duplicate_answers_example :
    ((t : Requests) × Reach one_key (arriving empty_db) t
      × (t.pc 0 ≡ done)
      × (e : Error) × (t.pc 1 ≡ failed e)
      × (status_code (answer_error sample_server e) ≡ 403))
    × ((t : Requests) × Reach one_key (arriving empty_db) t
        × (t.pc 0 ≡ done)
        × (e : Error) × (t.pc 1 ≡ failed e)
        × (status_code (answer_error sample_server e) ≡ 500))
duplicate_answers_example = duplicate_answers sample_server one_key empty_db refl refl

pub sample_env-IsCalm : IsCalm sample_env
sample_env-IsCalm = record { commits = λ n. refl; calls = λ n. refl; unlocked = λ n u. refl }
