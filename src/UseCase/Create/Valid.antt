-- ===== src/UseCase/Create/Valid.antt =====
-- Which commands pass validation: `build_parts` returns exactly for these.
use mco_louna_task.UseCase.Create.Validation.{
  create_amount-Validates, create_description-Validates, create_key-Validates,
  create_metadata-Validates, create_webhook-Validates,
}
use mco_louna_task.Domain.Amount.{create_amount}
use mco_louna_task.Values.{
  end, field, other_key, str_key, Decimal, Fields, decimal, dict, Uuid, uuid, uuid_version,
}
use mco_louna_task.UseCase.Create.Plan.{planned_parts, checked}
use mco_louna_task.UseCase.Create.{build_parts, CreatePaymentCommand}
use mco_louna_task.Exec.{World}
use mco_louna_task.Errors.{Result, ok}
use mco_louna_task.Domain.Webhook.{create_webhook_url, ParsedUrl, is_localhost}
use mco_louna_task.Domain.ValueObject.{ValueObject, base_post_init}
use mco_louna_task.Domain.Metadata.{create_metadata, has_str_keys}
use mco_louna_task.Domain.Identity.{create_idempotency_key}
use mco_louna_task.Domain.Description.{create_description, codes}
use mco_louna_task.Domain.Accepts.{create_amount_iff, create_description_iff, IsAmount, IsPrintable}
use mco_louna_task.Base.{
  Option, eq_iff, none, ◌≢◌, ◌⊎◌, Bool, Option-cases, String, arith, false, length, some, true, ◌↔◌,
  ◌≡◌, ◌≤◌,
}

-- every key is a text
abbrev HasTextKeys : Fields → Type 0
HasTextKeys end = Unit
HasTextKeys (field (str_key k) v rest) = HasTextKeys rest
HasTextKeys (field (other_key n) v rest) = ⊥

-- The name of the host, if there is one, is not one of the two names of this one.
abbrev IsElsewhere : Option String → Type 0
IsElsewhere hostname = (hostname ≢ some "localhost") × (hostname ≢ some "127.0.0.1")

-- What `WebhookUrl` asks of the two library functions.
abbrev pub IsWebhook : (String → ParsedUrl) → (String → Bool) → String → Type 0
IsWebhook parse valid url =
    (((parse url).scheme ≡ "http") ⊎ ((parse url).scheme ≡ "https"))
    × IsElsewhere (parse url).hostname
    × (valid url ≡ true)

abbrev pub IsValid : CreatePaymentCommand → World → Type 0
IsValid c w =
    IsAmount c.amount
    × (uuid_version c.key ≡ some 4)
    × ((3 ≤ length (codes c.description))
        × (length (codes c.description) ≤ 50)
        × IsPrintable (codes c.description))
    × HasTextKeys c.metadata
    × IsWebhook w.env.urlparse w.env.url_validate c.webhook_url

key_iff :
    (dev : Bool) (u : Uuid)
    → (create_idempotency_key dev (uuid u) ≡ ok (checked u)) ↔ (uuid_version u ≡ some 4)
unfolding create_idempotency_key base_post_init
key_iff dev u = ground (arith, Option-cases (uuid_version u))

has_str_keys_iff : (fs : Fields) → (has_str_keys fs ≡ true) ↔ HasTextKeys fs
unfolding has_str_keys
has_str_keys_iff end = ground arith
has_str_keys_iff (field (str_key k) v rest) = has_str_keys_iff rest
has_str_keys_iff (field (other_key n) v rest) = ground arith

metadata_iff :
    (dev : Bool) (fs : Fields) → (create_metadata dev (dict fs) ≡ ok (checked fs)) ↔ HasTextKeys fs
unfolding create_metadata base_post_init
metadata_iff dev fs = ground (arith, has_str_keys_iff fs)

is_localhost_iff : (h : Option String) → (is_localhost h ≡ false) ↔ IsElsewhere h
unfolding is_localhost
is_localhost_iff none = ground arith
is_localhost_iff (some host) = ground (arith, eq_iff host "localhost", eq_iff host "127.0.0.1")

IsWebhook-iff :
    (parse : String → ParsedUrl) (valid : String → Bool) (dev : Bool) (s : String)
    → (create_webhook_url parse valid dev s ≡ ok (checked s)) ↔ IsWebhook parse valid s
unfolding create_webhook_url base_post_init
IsWebhook-iff parse valid dev s = ground (
  arith,
  eq_iff (parse s).scheme "http",
  eq_iff (parse s).scheme "https",
  is_localhost_iff (parse s).hostname,
)

abbrev AreOk :
    CreatePaymentCommand
    → Result (ValueObject Decimal)
    → Result (ValueObject Uuid)
    → Result (ValueObject String)
    → Result (ValueObject Fields)
    → Result (ValueObject String)
    → Type 0
AreOk c amount key descr meta hook =
    (amount ≡ ok (checked c.amount))
    × (key ≡ ok (checked c.key))
    × (descr ≡ ok (checked c.description))
    × (meta ≡ ok (checked c.metadata))
    × (hook ≡ ok (checked c.webhook_url))

build_iff :
    (c : CreatePaymentCommand) (w : World)
    → ((build_parts c w).0 ≡ ok (planned_parts c))
      ↔ AreOk c
          (create_amount w.env.dev (decimal c.amount))
          (create_idempotency_key w.env.dev (uuid c.key))
          (create_description w.env.dev c.description)
          (create_metadata w.env.dev (dict c.metadata))
          (create_webhook_url w.env.urlparse w.env.url_validate w.env.dev c.webhook_url)
unfolding build_parts
build_iff c w = ground (
  arith,
  create_amount-Validates w.env.dev c.amount,
  create_key-Validates w.env.dev c.key,
  create_description-Validates w.env.dev c.description,
  create_metadata-Validates w.env.dev c.metadata,
  create_webhook-Validates w.env.urlparse w.env.url_validate w.env.dev c.webhook_url,
)

-- The value objects of a command are built, with its values, exactly if the command is valid: a
-- positive amount with at most two decimal places, a version 4 UUID as key, a description of 3 to
-- 50 characters without a control character but for a newline at its end, metadata with texts as
-- keys, and a webhook with the scheme http or https, whose host is neither localhost nor 127.0.0.1
-- and that the URL validator takes.
pub build_parts_iff :
    (c : CreatePaymentCommand) (w : World)
    → ((build_parts c w).0 ≡ ok (planned_parts c)) ↔ IsValid c w
build_parts_iff c w = (forth, back)
  where
    forth : ((build_parts c w).0 ≡ ok (planned_parts c)) → IsValid c w
    forth h =
        let (amount, key, descr, meta, hook) = (build_iff c w).0 h in
        (
          (create_amount_iff w.env.dev c.amount).0 amount,
          (key_iff w.env.dev c.key).0 key,
          (create_description_iff w.env.dev c.description).0 descr,
          (metadata_iff w.env.dev c.metadata).0 meta,
          (IsWebhook-iff w.env.urlparse w.env.url_validate w.env.dev c.webhook_url).0 hook,
        )

    back : IsValid c w → ((build_parts c w).0 ≡ ok (planned_parts c))
    back (amount, key, descr, meta, hook) = (build_iff c w).1 (
      (create_amount_iff w.env.dev c.amount).1 amount,
      (key_iff w.env.dev c.key).1 key,
      (create_description_iff w.env.dev c.description).1 descr,
      (metadata_iff w.env.dev c.metadata).1 meta,
      (IsWebhook-iff w.env.urlparse w.env.url_validate w.env.dev c.webhook_url).1 hook,
    )
