-- ===== src/Examples.antt =====
-- A concrete world and concrete data, and the theorems applied to them.
pub mod Requests
pub mod Events
pub mod Edges
pub mod Interfaces
pub mod Runs
pub mod Complete
pub mod Deliveries
pub mod Schema
pub mod DeadLetter
pub mod Recovery
use mco_louna_task.Http.Routes.{CreatePaymentRequest, Server}
use mco_louna_task.UseCase.Create.Plan.{created_message}
use mco_louna_task.Values.{
  status_value, Currency, PaymentStatus, TaskStatus, Text, Uuid, Value, currency, end, field,
  finite, int, negsuc, none_value, pos, status, str, str_key, text, uuid_text,
}
use mco_louna_task.UseCase.Create.{CreatePaymentCommand}
use mco_louna_task.System.Served.{empty_db}
use mco_louna_task.Storage.Uow.{commit}
use mco_louna_task.Serial.Rebuild.{Readers}
use mco_louna_task.Exec.{
  CallOutcome, CommitOutcome, Database, Env, OutboxRow, PaymentRow, PostOutcome, World,
}
use mco_louna_task.Domain.Timestamp.{utc}
use mco_louna_task.Domain.Payment.{Payment, created_event}
use mco_louna_task.Domain.Event.{Event}
use mco_louna_task.Consumer.Message.{Message}
use mco_louna_task.Base.{[], false, none, some, true, ℕ, ◌+◌, ◌∷◌}

abbrev pub no_readers : Readers
no_readers = record { read_uuid = λ _. none; read_decimal = λ _. none; read_iso = λ _. none }

-- a version 4 UUID for each number below 2 ^ 62
abbrev pub sample_uuid : ℕ → Uuid
sample_uuid n = 302231454903657293676544 + 9223372036854775808 + n

-- Everything succeeds, and no row is locked.
abbrev pub sample_env : Env
sample_env = record {
  dev = true;
  uuid4 = sample_uuid;
  clock = λ n. 100 + n;
  locked = λ _ _. false;
  commit = λ _. CommitOutcome.committed;
  call = λ _. CallOutcome.published;
  broker_publish = λ _. true;
  success = λ _. true;
  breaker_open = λ _. false;
  post = λ _. PostOutcome.response 200;
  route = λ queue key. str queue;
  urlparse = λ _. record { scheme = "https"; hostname = some "shop.example" };
  url_validate = λ _. true;
  readers = no_readers;
}

abbrev pub world_of : Env → Database → World
world_of env db = record { env = env; db = db; tx = db; tick = 0; sent = []; posts = []; acks = 0 }

abbrev pub sample_command : CreatePaymentCommand
sample_command = record {
  amount = finite false 12550 (negsuc 1);
  currency = Currency.rub;
  key = sample_uuid 900;
  description = "Order 42";
  metadata = field (str_key "order") (int (pos 42)) end;
  webhook_url = "https://shop.example/hook";
}

abbrev pub sample_row : PaymentRow
sample_row = record {
  id = sample_uuid 1;
  amount = finite false 12550 (negsuc 1);
  currency = Currency.rub;
  description = "Order 42";
  metadata = end;
  status = PaymentStatus.pending;
  idempotency_key = sample_uuid 900;
  created_at = utc 50;
  processed_at = none;
  webhook_url = "https://shop.example/hook";
}

abbrev pub settled_row : PaymentRow
settled_row = record sample_row { status = PaymentStatus.confirmed; processed_at = some (utc 60) }

-- the pending event of the payment
abbrev pub sample_event_row : OutboxRow
sample_event_row = record {
  id = sample_uuid 2;
  queue = "payments.new";
  payload = field (str_key "payment_id") (text (uuid_text (sample_uuid 1))) end;
  occurred_at = utc 51;
  status = TaskStatus.pending;
  handled_at = none;
}

abbrev pub pending_db : Database
pending_db = record { payments = sample_row ∷ []; outbox = sample_event_row ∷ [] }

abbrev pub settled_db_example : Database
settled_db_example = record { payments = settled_row ∷ []; outbox = sample_event_row ∷ [] }

abbrev pub empty_world : World
empty_world = world_of sample_env empty_db

abbrev pub pending_world : World
pending_world = world_of sample_env pending_db

abbrev pub settled_example : World
settled_example = world_of sample_env settled_db_example

abbrev pub sample_payment : Payment
sample_payment = record {
  id = record { value = sample_uuid 1; rebuilding = false };
  amount = record { value = finite false 12550 (negsuc 1); rebuilding = false };
  currency = Currency.rub;
  description = record { value = "Order 42"; rebuilding = false };
  metadata = record { value = end; rebuilding = false };
  key = record { value = sample_uuid 900; rebuilding = false };
  webhook_url = record { value = "https://shop.example/hook"; rebuilding = false };
  status = PaymentStatus.pending;
  created_at = record { value = utc 50; rebuilding = false };
  processed_at = none;
  events = [];
}

abbrev pub sample_event : Event
sample_event = created_event (sample_uuid 2) 51 sample_payment

abbrev pub sample_message : Message
sample_message = record { body = created_message sample_event sample_payment; attempt = none }

-- `str` on values that the service does not print itself
abbrev pub sample_str : Value → Text
sample_str _ = str "value"

abbrev pub read_body : CreatePaymentRequest
read_body = record {
  amount = finite false 12550 (negsuc 1);
  currency = Currency.rub;
  description = "Order 42";
  metadata = end;
  webhook_url = "https://shop.example/hook";
}

-- A server whose pydantic reads every body as one request, and every text as one UUID.
abbrev pub sample_server : Server
sample_server = record {
  api_key = none;
  missing_key = 422;
  invalid_request = 422;
  decode_json = λ _. some none_value;
  read_request = λ _. some read_body;
  read_uuid = λ _. some (sample_uuid 900);
  read_str = λ s. some (str (status_value s));
  accepts = λ _. true;
  to_str = sample_str;
  text_of = λ _. str "error";
}
