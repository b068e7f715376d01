-- ===== src/Storage/Repository.antt =====
-- The repositories and the unit of work of SQLAlchemy as implementations of the interfaces.
use mco_louna_task.Storage.Uow.{begin, commit, discard}
use mco_louna_task.Storage.Outbox.{add_events, get_pendings, mark_in_process, mark_processed}
use mco_louna_task.Interfaces.{PaymentEventRepository, PaymentUow}
use mco_louna_task.Domain.Repository.{PaymentRepository}
use mco_louna_task.Storage.Payments.{add_payment, get_by_id, get_by_key, update}

abbrev pub sql_payments : PaymentRepository
sql_payments = record {
  add = add_payment;
  get_by_id = get_by_id;
  get_by_key = get_by_key;
  update = update;
}

abbrev pub sql_outbox : PaymentEventRepository
sql_outbox = record {
  get_pendings = get_pendings;
  add = add_events;
  mark_processed = mark_processed;
  mark_in_process = mark_in_process;
}

-- `PaymentsUoWSQLAlchemy`: the session is closed whether or not the body has raised.
abbrev pub sql_uow : PaymentUow
sql_uow = record {
  payments = sql_payments;
  outbox = sql_outbox;
  enter = begin;
  leave = λ _. discard;
  commit = commit;
  rollback = discard;
}
