-- ===== src/Domain/Once.antt =====
-- A payment is settled at most once: a second transition of the aggregate is refused.
use mco_louna_task.Values.{Uuid}
use mco_louna_task.Errors.{Result, business_rule, err, ok, simple_error}
use mco_louna_task.Domain.Payment.{Payment, mark_as_failed, mark_as_succeeded}
use mco_louna_task.Domain.Laws.{now-ok}
use mco_louna_task.Base.{Bool, String, arith, false, true, ℕ, ◌≡◌}

-- the simulated gateway's answer chooses the transition
abbrev pub transition : Bool → String → Bool → ℕ → Uuid → ℕ → Payment → Result Payment
transition true reason dev at event_id event_at p = mark_as_succeeded dev at event_id event_at p
transition false reason dev at event_id event_at p =
    mark_as_failed dev at event_id event_at reason p

-- After a transition that went through, every transition is refused with "Already processed",
-- whichever of the two came first and whichever comes then.
pub transition_twice :
    (first second : Bool) (reason other_reason : String) (dev : Bool) (at at' : ℕ) (id id' : Uuid)
    (event_at event_at' : ℕ) (p q : Payment)
    → transition first reason dev at id event_at p ≡ ok q
    → transition second other_reason dev at' id' event_at' q
      ≡ err (simple_error business_rule "Already processed")
unfolding mark_as_succeeded mark_as_failed
transition_twice true true reason other dev at at' id id' event_at event_at' p q h =
    ground (arith, now-ok dev at)
transition_twice true false reason other dev at at' id id' event_at event_at' p q h =
    ground (arith, now-ok dev at)
transition_twice false true reason other dev at at' id id' event_at event_at' p q h =
    ground (arith, now-ok dev at)
transition_twice false false reason other dev at at' id id' event_at event_at' p q h =
    ground (arith, now-ok dev at)
