-- ===== src/Notifier/Sender.antt =====
-- `HttpxWebhookSender` (infrastructure/notifications/httpx_sender.py) and `SendNotificationUseCase`
-- (application/handlers/events/notify.py). The circuit breaker answers whether it is open, and
-- each request has an outcome; the waits between the attempts change no state.
use mco_louna_task.Interfaces.{WebhookSender}
use mco_louna_task.Values.{Fields, Text, Value, str, text}
use mco_louna_task.Notifier.Strategy.{build, get_strategy}
use mco_louna_task.Exec.{
  record_post, Action, PostOutcome, catch, draw, lift, pure, raise, raise_when, ◌>>=◌, ◌>>◌,
}
use mco_louna_task.Errors.{
  Error, Result, attribute_error, err, http_other, http_request, http_status, http_timeout, ok,
  webhook_payload, webhook_sender_unavailable, webhook_url_invalid,
}
use mco_louna_task.Domain.Event.{Body, Event, Processed}
use mco_louna_task.Base.{
  Bool, Option, String, false, if◌then◌else◌, leb, none, not, some, suc, true, zero, ℕ, ◌==◌, ◌||◌,
}
use package.text.Mathlib.Text.{starts_with}

-- `url.startswith(("http://", "https://"))`
unfoldable pub is_http : String → Bool
is_http url = starts_with url "http://" || starts_with url "https://"

-- What the code makes of an outcome: nothing, or an exception.
unfoldable pub check_response : PostOutcome → Action (Unit {0})
check_response (PostOutcome.response code) =
    if leb 500 code
    then raise http_status
    else if code == 429
    then raise http_status
    else if leb 400 code
    then raise webhook_payload
    else pure tt
check_response PostOutcome.timed_out = raise http_timeout
check_response PostOutcome.request_error = raise http_request
check_response PostOutcome.other_error = raise http_other

unfoldable pub send_once : String → Fields → ℕ → Action (Unit {0})
send_once url payload timeout = do
  record_post (record { url = url; payload = payload; timeout = timeout })
  outcome ← draw (λ e. e.post)
  check_response outcome

-- `retry_if_exception_type((TimeoutException, RequestError, HTTPError))`
abbrev pub is_transient : Error → Bool
is_transient http_timeout = true
is_transient http_request = true
is_transient http_status = true
is_transient _ = false

abbrev pub retry_or_raise : Action (Unit {0}) → Error → Action (Unit {0})
retry_or_raise again e = if is_transient e then again else raise e

-- The attempts that are left after the first; the last exception is raised again.
unfoldable pub send_attempts : ℕ → String → Fields → ℕ → Action (Unit {0})
send_attempts zero url payload timeout = send_once url payload timeout
send_attempts (suc n) url payload timeout =
    catch (send_once url payload timeout) (retry_or_raise (send_attempts n url payload timeout))

-- `_send_with_retries`: `stop_after_attempt(3)`
unfoldable pub send_with_retries : String → Fields → ℕ → Action (Unit {0})
unfolding send_attempts
send_with_retries = send_attempts 2

-- The `except` clauses of `send`.
abbrev pub map_send_error : Error → Action (Unit {0})
map_send_error e = if is_transient e then raise webhook_sender_unavailable else raise e

abbrev pub call_breaker : Bool → Action (Unit {0}) → Action (Unit {0})
call_breaker true body = raise webhook_sender_unavailable
call_breaker false body = catch body map_send_error

unfoldable pub send_webhook : String → Fields → ℕ → Action (Unit {0})
unfolding is_http send_with_retries
send_webhook url payload timeout = do
  raise_when (not (is_http url)) webhook_url_invalid
  is_open ← draw (λ e. e.breaker_open)
  call_breaker is_open (send_with_retries url payload timeout)

-- `timeout if timeout is not None else self.DEFAULT_TIMEOUT`
abbrev pub timeout_or_default : Option ℕ → ℕ
timeout_or_default none = 5
timeout_or_default (some t) = t

-- the text that `event.webhook_url` holds
abbrev pub url_text : Value → Result String
url_text (text (str s)) = ok s
url_text _ = err attribute_error

-- The use case reads the attributes of a `PaymentProcessedEvent`.
abbrev pub processed_body : Body → Result Processed
processed_body (Body.processed p) = ok p
processed_body _ = err attribute_error

-- the sender as an implementation of the interface
abbrev pub httpx_sender : WebhookSender
httpx_sender = record { send = send_webhook }

-- `SendNotificationUseCase.__call__`
abbrev pub send_notification_with :
    WebhookSender → (Value → Text) → Event → Option ℕ → Action (Unit {0})
send_notification_with sender to_str event timeout = do
  p ← lift (processed_body event.body)
  payload ← lift (build to_str (get_strategy p.status) event.payment_id p)
  url ← lift (url_text p.webhook_url)
  sender.send url payload (timeout_or_default timeout)

-- the use case with the sender of the service
unfoldable pub send_notification : (Value → Text) → Event → Option ℕ → Action (Unit {0})
unfolding build get_strategy send_webhook
send_notification = send_notification_with httpx_sender
