-- ===== src/Http/Answers.antt =====
-- What the answer to an HTTP request says of what the service did.
use mco_louna_task.Values.{str, uuid_text}
use mco_louna_task.UseCase.Create.Plan.{created_delivery}
use mco_louna_task.UseCase.Create.Outcome.{Creates}
use mco_louna_task.UseCase.Create.{CreatePaymentCommand}
use mco_louna_task.Http.Routes.{Response, accepted, details, failure, refusal}
use mco_louna_task.Base.{[], ◌++◌, ◌+◌, ◌∷◌, ◌≡◌, ◌⊎◌}
use mco_louna_task.UseCase.Create.Outcome as CreateOutcome
use mco_louna_task.Exec.{World}

-- What the answer to a request to create a payment tells, for the command in the request.
abbrev pub Tells : CreatePaymentCommand → World → Response × World → Type 0
Tells c w (accepted body, w') =
    (body.payment_id ≡ uuid_text (w.env.uuid4 (w.tick + 1)))
    × (body.status ≡ str "PENDING")
    × Creates c w w'.db
    × (w'.sent ≡ w.sent ++ created_delivery c w ∷ [])
Tells c w (failure r, w') =
    (w'.sent ≡ w.sent) × (((r.status_code ≡ 500) × Creates c w w'.db) ⊎ (w'.db ≡ w.db))
Tells c w (details _, w') = ⊥
Tells c w (refusal _, w') = (w'.db ≡ w.db) × (w'.sent ≡ w.sent)
