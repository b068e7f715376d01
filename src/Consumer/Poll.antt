-- ===== src/Consumer/Poll.antt =====
-- The background poll: `handle_bad_events` (events/fetch.py) under `run_periodically`
-- (payments/consumer.py), which runs it again and again and drops every exception.
use mco_louna_task.UseCase.Query.{fetch_pending_tasks}
use mco_louna_task.Exec.{Action, World, ◌>>◌}
use mco_louna_task.Consumer.Message.{connect}
use mco_louna_task.Base.{suc, zero, ℕ}

unfoldable pub handle_bad_events : Action (Unit {0})
handle_bad_events = do connect; fetch_pending_tasks

-- `rounds` rounds of the loop
unfoldable pub run_periodically : ℕ → Action (Unit {0}) → World → World
run_periodically zero func w = w
run_periodically (suc rounds) func w = run_periodically rounds func (func w).1
