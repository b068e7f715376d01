-- ===== src/Lib.antt =====
-- A payment service: an HTTP interface takes payments with an idempotency key, stores each together
-- with an event in an outbox table, and publishes the event; a consumer processes new payments with
-- a simulated gateway and stores the result with another event; a second consumer notifies the
-- merchant's webhook; a poll publishes events again that are still pending. The parts meet in the
-- database (payments and outbox) and in the broker's messages.
--
-- Which file models what (paths from the root of the repository):
-- - Base, Values, Errors: shared helpers on lists and numbers; the Python values, enumerations
--   (src/payments/domain/enums) and exceptions (src/shared/domain/errors.py and the interface
--   errors under src/payments/application/interfaces). A call that may raise returns `Result`.
-- - Domain: the value objects (src/payments/domain/value_objects over
--   src/shared/domain/value_object.py), the events (src/payments/domain/events.py) and the
--   aggregate (src/payments/domain/payment.py over src/shared/domain/aggregate.py).
--   `create_amount` and its likes are the constructors with `__post_init__`; `rebuild` sets the
--   flag `_rebuilding`. The checks that read the fields of an object at run time work on a list of
--   fields with their kinds. `Entity` and `Specification` are the two bases of src/shared/domain
--   that no class of the service uses.
-- - Serial: serializer.py and rebuilder.py of src/payments/infrastructure/utils/events, the message
--   of the publisher, and the schemas by which the consumers read it
--   (src/payments/presentation/ampq/api/v1/schemas).
-- - Exec: the state. A `World` has the committed database `db`, the open transaction `tx`, the
--   messages `sent` to the broker, the requests `posts` to webhooks, the count `acks`, and an
--   environment `env` of what comes from outside: UUIDs, clocks, row locks of other transactions,
--   outcomes of commits, calls and requests. Each reading takes the next `tick`. `Action` is the
--   monad of the code that reads and changes a world and may raise.
-- - Interfaces: the outbox, the unit of work, the event bus and the sender of webhooks as records of
--   operations (src/payments/application/interfaces).
-- - Storage: the two repositories and the unit of work
--   (src/payments/infrastructure/database). `Schema` has the tables that table.py of payments and
--   outbox declare, and the initial migration as a list of operations on a schema.
-- - Broker: routes.py and event_bus.py of src/payments/infrastructure/broker, and the retry queues
--   and bindings of src/shared/infra/broker/utils. `Topology` lists the bindings that
--   src/payments/presentation/ampq/factory.py declares; `Paths` follows a message
--   through them, and `Returns` one that a consumer could not handle.
-- - UseCase: PaymentService (src/payments/domain/service.py), which takes the interface
--   `PaymentRepository` (src/payments/domain/repository.py), and the handlers of commands, events
--   and queries (src/payments/application/handlers). `Ports` has them over any unit of work and any
--   event bus; the other files have what these are with those of the service.
-- - Notifier: src/payments/application/strategies/notification_payload.py,
--   src/payments/infrastructure/notifications/httpx_sender.py and the notification use case.
-- - Consumer: the message handlers (src/payments/presentation/ampq/api/v1/events) and the periodic
--   poll (src/payments/consumer.py).
-- - Http: the exception handlers (src/payments/presentation/http/handlers/exceptions), and in
--   `Routes` the two routes, their schemas and the API key. The parameter `Server` has what FastAPI
--   and pydantic do: how they read a request or refuse it, and what they make of a response.
-- - System: the specification of the outbox as atomic changes of the database (`Change`), and the
--   whole service as sequences of operations (`Served`). `Rules` and `Runs` say once what is kept
--   by a handler if its parts keep it; `Consumers` and `Retries` are about a message from one
--   delivery to the next, and `Mail`, `Relay` and `Recovery` about the poll. `Settlement`, `Notified`,
--   `Lifecycle` and `Complete` follow a payment from the request to the webhook, and `GivesUp` and
--   `DeadLetter` a result whose client cannot be reached.
-- - Concurrent: any number of requests to create a payment at once (`Creation`), or of deliveries to
--   process one (`Processing`), one statement at a time. A statement sees what is committed (READ
--   COMMITTED). An INSERT waits while another open transaction holds a row with its identifier or
--   key; a SELECT of a payment locks the row and skips rows that others have locked.
-- - Examples: a concrete world, and the theorems applied to it.
--
-- Bounds. Every function is total by structural recursion. The sender makes its attempts by
-- recursion on their number, which is the 3 of `stop_after_attempt`. `run_periodically` takes the
-- number of rounds of the endless loop, and the theorems hold for every number.
--
-- Not modelled: dependency injection, logging, the session and the start of the processes, which
-- have no logic of the payments; the lifespan of the HTTP application; the enumeration types of
-- PostgreSQL; waiting times. Outside `Concurrent` an operation sees the database as it was committed
-- when its transaction began: two open transactions do not interleave, and other transactions show
-- only as row locks. A commit that raises has committed nothing. How Python reads texts that the
-- service did not print, `str` of arbitrary values, `urlparse` and the URL validator are parameters.
-- A request to a webhook is a call of `client.post`, and is counted also if it raises before
-- anything is sent.
pub mod Base
pub mod Values
pub mod Errors
pub mod Domain
pub mod Serial
pub mod Exec
pub mod Storage
pub mod Broker
pub mod UseCase
pub mod Notifier
pub mod Consumer
pub mod Http
pub mod Interfaces
pub mod System
pub mod Concurrent
pub mod Examples
