-- ===== src/System/Recovery.antt =====
-- What the outbox is for: a message whose publication failed after the commit is sent by the poll.
use mco_louna_task.System.Served.{Served}
use mco_louna_task.Base.{List}
use mathlib.Core.List.Perm
use mco_louna_task.UseCase.Create.Outcome as CreateOutcome
