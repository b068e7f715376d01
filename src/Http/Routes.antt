-- ===== src/Http/Routes.antt =====
-- The HTTP interface: the API key (http/dependencies/auth/api_key.py, required by http/factory.py),
-- the two routes (http/api/v1/routes) and their schemas (http/api/v1/schemas). What FastAPI and
-- pydantic do themselves is a parameter, `Server`: how they read a request or refuse it, and what
-- they make of a response.
use mco_louna_task.Values.{Currency, Datetime, Decimal, Fields, PaymentStatus, Text, Uuid, Value}
use mco_louna_task.UseCase.Query.{GetPaymentQueryResponse, get_payment}
use mco_louna_task.UseCase.Create.{CreatePaymentCommand, CreatePaymentResponse, create_payment}
use mco_louna_task.Http.Errors.{ErrorResponse, handle_exception}
use mco_louna_task.Exec.{Action, World, lift, pure, ◌>>=◌}
use mco_louna_task.Errors.{Error, Result, err, ok, unauthorized, value_error}
use mco_louna_task.Base.{Bool, Option, String, if◌then◌else◌, none, not, some, str_eq, ℕ}

pub record CreatePaymentRequest : Type 0 where
  pub amount : Decimal
  pub currency : Currency
  pub description : String
  pub metadata : Fields
  pub webhook_url : String

-- `api_key` is the variable API_KEY of the environment. `decode_json` reads the text of a body, and
-- `read_request` is the validation of what it holds, with the URL in the form of its `str`, `read_uuid` that of a UUID in a header or a path,
-- `read_str` that of a field `str` at an enum member, and `accepts` that of the details.
pub record Server : Type 0 where
  pub api_key : Option String
  pub missing_key : ℕ
  pub invalid_request : ℕ
  pub decode_json : String → Option Value
  pub read_request : Value → Option CreatePaymentRequest
  pub read_uuid : String → Option Uuid
  pub read_str : PaymentStatus → Option Text
  pub accepts : GetPaymentQueryResponse → Bool
  pub to_str : Value → Text
  pub text_of : Error → Text

-- the schema CreatePaymentResponse
pub record CreatedBody : Type 0 where
  pub payment_id : Text
  pub status : Text
  pub created_at : Datetime

-- What a client gets: the two bodies, the body of an exception handler, or an answer of FastAPI's
-- own with the status.
pub data Response : Type 0 where
  accepted : CreatedBody → Response
  details : GetPaymentQueryResponse → Response
  failure : ErrorResponse → Response
  refusal : ℕ → Response

abbrev pub status_code : Response → ℕ
status_code (accepted _) = 202
status_code (details _) = 200
status_code (failure r) = r.status_code
status_code (refusal code) = code

-- `os.getenv("API_KEY", "dev-key")`
abbrev pub expected_key : Option String → String
expected_key none = "dev-key"
expected_key (some key) = key

unfoldable pub get_api_key : Server → String → Result String
get_api_key server key =
    if not (str_eq key (expected_key server.api_key)) then err unauthorized else ok key

-- the command that the route builds
abbrev pub command_of : CreatePaymentRequest → Uuid → CreatePaymentCommand
command_of request key = record {
  amount = request.amount;
  currency = request.currency;
  key = key;
  description = request.description;
  metadata = request.metadata;
  webhook_url = request.webhook_url;
}

-- `CreatePaymentResponse.model_validate(payment)`: a validation error is a `ValueError`
unfoldable pub created_body : Server → CreatePaymentResponse → Result CreatedBody
created_body server r = elim (server.read_str r.status) [
  | none ↦ err value_error
  | some t ↦ ok (record { payment_id = r.payment_id; status = t; created_at = r.created_at })
]

-- the route POST /v1/payments/
unfoldable pub post_payment : Server → CreatePaymentRequest → Uuid → Action Response
unfolding created_body
post_payment server request idempotency_key = do
  payment ← create_payment (command_of request idempotency_key)
  body ← lift (created_body server payment)
  pure (accepted body)

-- `GetPaymentResponse.model_validate(payment)`
unfoldable pub details_body : Server → GetPaymentQueryResponse → Result GetPaymentQueryResponse
details_body server r = if server.accepts r then ok r else err value_error

-- the route GET /v1/payments/{payment_id}
unfoldable pub get_details : Server → Uuid → Action Response
unfolding details_body
get_details server payment_id = do
  payment ← get_payment server.to_str payment_id
  body ← lift (details_body server payment)
  pure (details body)

-- An exception of a route goes to its handler; that of the API key, an `HTTPException`, to FastAPI's.
unfoldable pub answer_error : Server → Error → Response
answer_error server unauthorized = refusal 401
answer_error server e = failure (handle_exception server.text_of e)

unfoldable pub answered : Server → Action Response → World → Response × World
unfolding answer_error
answered server route w =
    let (r, w') = route w in elim r [ ok a ↦ (a, w') | err e ↦ (answer_error server e, w') ]

-- The API key is required of every route of the application.
unfoldable pub authorized : Server → Option String → Action Response → Action Response
unfolding get_api_key
authorized server none route = pure (refusal server.missing_key)
authorized server (some key) route = do checked_key ← lift (get_api_key server key); route

pub record CreateRequest : Type 0 where
  pub x_api_key : Option String
  pub idempotency_key : String
  pub body : String

-- A request that FastAPI cannot read is refused before the route runs.
abbrev pub when_read : Server → Option CreatePaymentRequest → Option Uuid → Action Response
when_read server (some request) (some key) = post_payment server request key
when_read server none key = pure (refusal server.invalid_request)
when_read server (some request) none = pure (refusal server.invalid_request)

-- FastAPI decodes the body before it asks for the API key.
abbrev pub when_decoded : Server → CreateRequest → Option Value → Action Response
when_decoded server r none = pure (refusal server.invalid_request)
when_decoded server r (some body) =
    authorized server r.x_api_key
      (when_read server (server.read_request body) (server.read_uuid r.idempotency_key))

unfoldable pub serve_create : Server → CreateRequest → World → Response × World
unfolding authorized answered
serve_create server r = answered server (when_decoded server r (server.decode_json r.body))

pub record DetailsRequest : Type 0 where
  pub x_api_key : Option String
  pub payment_id : String

abbrev pub when_read_id : Server → Option Uuid → Action Response
when_read_id server (some payment_id) = get_details server payment_id
when_read_id server none = pure (refusal server.invalid_request)

unfoldable pub serve_details : Server → DetailsRequest → World → Response × World
unfolding authorized answered
serve_details server r =
    answered server
      (authorized server r.x_api_key (when_read_id server (server.read_uuid r.payment_id)))
