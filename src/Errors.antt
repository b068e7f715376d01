-- ===== src/Errors.antt =====
-- Exceptions: shared/domain/errors.py, shared/infra/errors.py, the interface exceptions under
-- payments/application/interfaces, and the library and built-in exceptions that reach this code.
-- A call that may raise returns `Result`.
use mco_louna_task.Base.{ℕ, String, Option, none, Bool, true, false}
use mco_louna_task.Values.{Text, str}

pub data Scope : Type 0 where
  public private : Scope

pub data DomainClass : Type 0 where
  base invariant validation wrong_type business_rule not_found exists : DomainClass

-- `details` is `context["details"]`, and `status` is `context["status"]`.
pub record DomainError : Type 0 where
  pub cls : DomainClass
  pub message : Text
  pub scope : Scope
  pub details : Option Text
  pub status : ℕ

pub data Error : Type 0 where
  domain_error : DomainError → Error
  value_error type_error key_error attribute_error index_error : Error
  runtime_error timeout_error invalid_operation : Error
  serialization_error : Error
  publisher_unavailable event_routing event_serialization : Error
  repositories_unavailable repositories_exhausted : Error
  webhook_url_invalid webhook_payload webhook_sender_unavailable : Error
  integrity_error database_error broker_error : Error
  http_timeout http_request http_status http_other unauthorized : Error

pub data Result {ℓ} (A : Type ℓ) : Type ℓ where
  ok : A → Result A
  err : Error → Result A

-- `DomainError.__init__`: `setdefault("status", 400)`.
abbrev pub new_domain_error : Text → Option Text → DomainError
new_domain_error message details = record {
  cls = base;
  message = message;
  scope = private;
  details = details;
  status = 400;
}

-- The subclasses overwrite the status after `super().__init__`.
abbrev pub class_status : DomainClass → ℕ
class_status base = 400
class_status invariant = 422
class_status validation = 422
class_status wrong_type = 422
class_status business_rule = 422
class_status not_found = 404
class_status exists = 403

abbrev pub raise_domain : DomainClass → Text → Option Text → Error
raise_domain c message details =
    domain_error (record (new_domain_error message details) { cls = c; status = class_status c })

-- a subclass raised with a plain message
abbrev pub simple_error : DomainClass → String → Error
simple_error c message = raise_domain c (str message) none

infixl 5 ◌>>=◌ ◌>>◌
abbrev pub ◌>>=◌ {ℓ κ} : {A : Type ℓ} {B : Type κ} → Result A → (A → Result B) → Result B
ok a >>= f = f a
err e >>= f = err e

abbrev pub ◌>>◌ {ℓ κ} : {A : Type ℓ} {B : Type κ} → Result A → Result B → Result B
m >> k = m >>= λ _. k

-- `◌>>=◌` by name, for files that bring in that of the actions
abbrev pub bind : {A B : Type 0} → Result A → (A → Result B) → Result B
bind m f = m >>= f

abbrev pub raise_if : Bool → Error → Result (Unit {0})
raise_if true e = err e
raise_if false e = ok tt
