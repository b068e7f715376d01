-- ===== src/Http/Statuses.antt =====
-- The status codes of the responses to domain errors.
use mco_louna_task.Values.{Text}
use mco_louna_task.Http.Errors.{handle_exception}
use mco_louna_task.Errors.{DomainClass, DomainError, Error, Scope, domain_error, raise_domain}
use mco_louna_task.Base.{Option, arith, none, refl, ℕ, ◌≡◌}

-- the status of the response to a domain error
abbrev pub expected_status : DomainClass → ℕ
expected_status DomainClass.base = 500
expected_status DomainClass.invariant = 422
expected_status DomainClass.validation = 500
expected_status DomainClass.wrong_type = 500
expected_status DomainClass.business_rule = 422
expected_status DomainClass.not_found = 404
expected_status DomainClass.exists = 403

-- A domain error that the code raises is answered so: a broken invariant or business rule with
-- 422, a missing resource with 404, one that exists with 403, and a validation error, a type error
-- or the base class with 500.
pub handle_exception-status :
    (text_of : Error → Text) (c : DomainClass) (message : Text) (details : Option Text)
    → (handle_exception text_of (raise_domain c message details)).status_code ≡ expected_status c
unfolding handle_exception
handle_exception-status text_of DomainClass.base message details = refl
handle_exception-status text_of DomainClass.invariant message details = refl
handle_exception-status text_of DomainClass.validation message details = refl
handle_exception-status text_of DomainClass.wrong_type message details = refl
handle_exception-status text_of DomainClass.business_rule message details = refl
handle_exception-status text_of DomainClass.not_found message details = refl
handle_exception-status text_of DomainClass.exists message details = refl

-- The details of a private domain error reach no client: the response is the same without them.
pub handle_exception-private :
    (text_of : Error → Text) (d : DomainError)
    → d.scope ≡ Scope.private
    → handle_exception text_of (domain_error d)
      ≡ handle_exception text_of (domain_error (record d { details = none }))
unfolding handle_exception
handle_exception-private text_of d h = ground arith
