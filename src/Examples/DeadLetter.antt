-- ===== src/Examples/DeadLetter.antt =====
-- The theorem on a client that cannot be reached at a concrete one.
use mco_louna_task.UseCase.Process.Plan.{settled_event_row}
use mco_louna_task.System.GivesUp.{IsUnreachable}
use mco_louna_task.System.DeadLetter.{IsGivenUp, IsSentAgain, result_message, unreachable_client}
use mco_louna_task.Notifier.Sender.{is_http}
use mco_louna_task.Exec.{Database, Env, PostOutcome, World}
use mco_louna_task.Examples.{pending_world, sample_env, sample_row, sample_str, world_of}
use mco_louna_task.Consumer.Notify.{handle_notify_client}
use mco_louna_task.Base.{[], refl, suc, zero, ℕ, ◌∷◌}

-- the client answers each request with 503
abbrev down_env : Env
down_env = record sample_env { post = λ _. PostOutcome.response 503 }

-- the database with the event of a result
abbrev result_db : Database
result_db = record {
  payments = sample_row ∷ [];
  outbox = settled_event_row sample_row pending_world ∷ [];
}

down_env-IsUnreachable : IsUnreachable down_env
down_env-IsUnreachable = record {
  calm = record { commits = λ n. refl; calls = λ n. refl; unlocked = λ n u. refl };
  broker = λ n. refl;
  closed = λ n. refl;
  refuses = λ n. refl;
}

-- each delivery in a world with what the one before has committed
abbrev delivery_world : ℕ → World
delivery_world zero = world_of down_env result_db
delivery_world (suc k) =
    world_of down_env
      (handle_notify_client sample_str (result_message sample_row pending_world k)
        (delivery_world k)).1.db

unreachable_client_example :
    IsSentAgain sample_row pending_world 0 (delivery_world 0) (
      handle_notify_client sample_str
        (result_message sample_row pending_world 0)
        (delivery_world 0))
    × IsSentAgain sample_row pending_world 1 (delivery_world 1) (
        handle_notify_client sample_str
          (result_message sample_row pending_world 1)
          (delivery_world 1))
    × IsSentAgain sample_row pending_world 2 (delivery_world 2) (
        handle_notify_client sample_str
          (result_message sample_row pending_world 2)
          (delivery_world 2))
    × IsGivenUp sample_row pending_world (delivery_world 3) (
        handle_notify_client sample_str
          (result_message sample_row pending_world 3)
          (delivery_world 3))
unfolding is_http
unreachable_client_example =
    unreachable_client sample_str sample_row pending_world (delivery_world 0) (delivery_world 1)
      (delivery_world 2) (delivery_world 3) refl down_env-IsUnreachable down_env-IsUnreachable
      down_env-IsUnreachable down_env-IsUnreachable refl refl refl refl
