-- ===== src/Storage/Uow.antt =====
-- `PaymentsUoWSQLAlchemy` (infrastructure/database/uow.py): `async with uow` opens a transaction on
-- the committed state and closes the session at the end, which drops what was not committed;
-- `commit` maps the errors of SQLAlchemy. An error inside `rollback` is swallowed, and closing a
-- session does not raise.
use mco_louna_task.Errors.{
  ok, err, repositories_exhausted, repositories_unavailable, database_error,
}
use mco_louna_task.Exec.{World, Action, draw, CommitOutcome, ◌>>=◌}

abbrev pub begin : World → World
begin w = record w { tx = w.db }

-- `session.rollback()`, and what `session.close()` does to an open transaction
abbrev pub discard : World → World
discard w = record w { tx = w.db }

abbrev pub persist : World → World
persist w = record w { db = w.tx }

-- `__aenter__`, the body, and `__aexit__`, which lets an exception pass
abbrev pub with_uow : {A : Type 0} → Action A → Action A
with_uow body w = let (r, w') = body (begin w) in (r, discard w')

unfoldable pub finish_commit : CommitOutcome → Action (Unit {0})
finish_commit CommitOutcome.committed w = (ok tt, persist w)
finish_commit CommitOutcome.timed_out w = (err repositories_exhausted, discard w)
finish_commit CommitOutcome.operational w = (err repositories_unavailable, discard w)
finish_commit CommitOutcome.failed w = (err database_error, w)

unfoldable pub commit : Action (Unit {0})
unfolding finish_commit
commit = draw (λ e. e.commit) >>= finish_commit
