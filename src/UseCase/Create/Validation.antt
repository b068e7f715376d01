-- ===== src/UseCase/Create/Validation.antt =====
-- Building the value objects of a command changes nothing, and gives the values of the command or
-- an error of the validation.
use mco_louna_task.Base.{Bool, true, false, String, ◌≡◌, arith}
use mco_louna_task.Values.{
  Uuid, Decimal, finite, infinity, nan, pos, negsuc, Fields, decimal, uuid, dict,
}
use mco_louna_task.Errors.{
  Error, Result, ok, err, domain_error, value_error, invalid_operation, attribute_error,
}
use mco_louna_task.Domain.ValueObject.{base_post_init}
use mco_louna_task.Domain.Amount.{create_amount}
use mco_louna_task.Domain.Description.{create_description, validate_lenth, validate_pattern}
use mco_louna_task.Domain.Identity.{create_idempotency_key, create_payment_id}
use mco_louna_task.Domain.Metadata.{create_metadata}
use mco_louna_task.Domain.Webhook.{ParsedUrl, create_webhook_url}
use mco_louna_task.UseCase.Create.{CreatePaymentCommand, Parts, build_parts}
use mco_louna_task.UseCase.Create.Plan.{checked, planned_parts}
use mco_louna_task.Exec.{World}

-- The errors that validating a value can raise.
abbrev pub is_rejection : Error → Bool
is_rejection (domain_error _) = true
is_rejection value_error = true
is_rejection invalid_operation = true
is_rejection attribute_error = true
is_rejection _ = false

-- A result is the given value, or a rejection.
abbrev pub Validates : {A : Type 0} → A → Result A → Type 0
Validates a (ok b) = b ≡ a
Validates a (err e) = is_rejection e ≡ true

pub create_amount-Validates :
    (dev : Bool) (d : Decimal) → Validates (checked d) (create_amount dev (decimal d))
unfolding create_amount base_post_init
create_amount-Validates dev (finite negative coefficient (pos n)) = ground arith
create_amount-Validates dev (finite negative coefficient (negsuc n)) = ground arith
create_amount-Validates dev (infinity negative) = ground arith
create_amount-Validates dev nan = ground arith

pub create_key-Validates :
    (dev : Bool) (u : Uuid) → Validates (checked u) (create_idempotency_key dev (uuid u))
unfolding create_idempotency_key base_post_init
create_key-Validates dev u = ground arith

pub create_id-Validates :
    (dev : Bool) (u : Uuid) → Validates (checked u) (create_payment_id dev (uuid u))
unfolding create_payment_id base_post_init
create_id-Validates dev u = ground arith

pub create_description-Validates :
    (dev : Bool) (s : String) → Validates (checked s) (create_description dev s)
unfolding create_description base_post_init validate_lenth validate_pattern
create_description-Validates dev s = ground arith

pub create_metadata-Validates :
    (dev : Bool) (fs : Fields) → Validates (checked fs) (create_metadata dev (dict fs))
unfolding create_metadata base_post_init
create_metadata-Validates dev fs = ground arith

pub create_webhook-Validates :
    (parse : String → ParsedUrl) (valid : String → Bool) (dev : Bool) (s : String)
    → Validates (checked s) (create_webhook_url parse valid dev s)
unfolding create_webhook_url base_post_init
create_webhook-Validates parse valid dev s = ground arith

-- Either every part has the value of the command, or the first invalid part is rejected; the world
-- stays as it is.
abbrev pub Built : CreatePaymentCommand → World → Result Parts × World → Type 0
Built c w (r, w') = Validates (planned_parts c) r × (w' ≡ w)

pub build_parts-Built : (c : CreatePaymentCommand) (w : World) → Built c w (build_parts c w)
unfolding build_parts
build_parts-Built c w = ground (
  arith,
  create_amount-Validates w.env.dev c.amount,
  create_key-Validates w.env.dev c.key,
  create_description-Validates w.env.dev c.description,
  create_metadata-Validates w.env.dev c.metadata,
  create_webhook-Validates w.env.urlparse w.env.url_validate w.env.dev c.webhook_url,
)
