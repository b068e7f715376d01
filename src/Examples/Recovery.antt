-- ===== src/Examples/Recovery.antt =====
-- The theorem on a lost publication at a concrete input.
use mco_louna_task.UseCase.Create.{create_payment}
use mco_louna_task.System.Served.{empty_db}
use mco_louna_task.Exec.{CallOutcome, World}
use mco_louna_task.Examples.{sample_command, sample_env, world_of}

-- the broker is down, and up again for the poll
abbrev down_world : World
down_world = world_of (record sample_env { call = λ _. CallOutcome.circuit_open }) empty_db

abbrev up_world : World
up_world = world_of sample_env (create_payment sample_command down_world).1.db
