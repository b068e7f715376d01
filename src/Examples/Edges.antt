-- ===== src/Examples/Edges.antt =====
-- The theorems on value objects, payments and responses at concrete inputs.
use mco_louna_task.Values.{str}
use mco_louna_task.Http.Statuses.{handle_exception-status}
use mco_louna_task.Http.Errors.{handle_exception}
use mco_louna_task.Errors.{DomainClass, raise_domain}
use mco_louna_task.Base.{none, ◌≡◌}

handle_exception-status_example :
    (handle_exception
      (λ _. str "error")
      (raise_domain DomainClass.validation (str "Wrong description lenth") none)).status_code
    ≡ 500
handle_exception-status_example =
    handle_exception-status (λ _. str "error") DomainClass.validation
      (str "Wrong description lenth") none
