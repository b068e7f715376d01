-- ===== src/Domain/Webhook.antt =====
-- `WebhookUrl` (payments/domain/value_objects/webhook.py). `urlparse` and the function of the
-- `validators` package are parameters.
use mco_louna_task.Base.{Bool, false, not, ◌||◌, String, Option, none, some, str_eq}
use mco_louna_task.Values.{str, text}
use mco_louna_task.Errors.{Result, ok, ◌>>◌, raise_if, simple_error, validation}
use mco_louna_task.Domain.ValueObject.{ValueObject, base_post_init}

-- What the code reads of the result of `urlparse`.
pub record ParsedUrl : Type 0 where
  pub scheme : String
  pub hostname : Option String

-- `parsed.hostname in ("localhost", "127.0.0.1")`
unfoldable pub is_localhost : Option String → Bool
is_localhost none = false
is_localhost (some host) = str_eq host "localhost" || str_eq host "127.0.0.1"

unfoldable pub create_webhook_url :
    (String → ParsedUrl) → (String → Bool) → Bool → String → Result (ValueObject String)
create_webhook_url urlparse url_validate dev url = do
  base_post_init dev "WebhookUrl.url" (text (str url))
  let parsed = urlparse url
  raise_if (not (str_eq parsed.scheme "http" || str_eq parsed.scheme "https"))
      (simple_error validation "Webhook URL must be http or https")
  raise_if (is_localhost parsed.hostname)
      (simple_error validation "Webhook URL cannot point to localhost")
  raise_if (not (url_validate url)) (simple_error validation "Webhook URL must be valid")
  ok (record { value = url; rebuilding = false })
