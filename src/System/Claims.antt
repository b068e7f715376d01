-- ===== src/System/Claims.antt =====
-- What the claim of an event by a consumer (`mark_in_process`) excludes.
use mco_louna_task.Values.{Uuid}
use mco_louna_task.System.Refinement.{claim_event-db}
use mco_louna_task.Storage.Outbox.{has_event_id, is_claimable, is_pending_task, mark_in_process}
use mco_louna_task.Exec.{OutboxRow, World}
use mco_louna_task.Errors.{Result, ok}
use mco_louna_task.Domain.Event.{Event}
use mco_louna_task.Consumer.Message.{Message, claim_event}
use mco_louna_task.Base.{
  Bool-cases, inl, inr, Bool, List, [], any, arith, false, refl, true, ◌&&◌, ◌+◌, ◌∷◌, ◌≡◌,
}

abbrev pub IsClaimable : Uuid → World → Type 0
IsClaimable u w = any (λ row. has_event_id u row && is_pending_task row) w.db.outbox ≡ true

claimable_unlocked :
    (locked : Uuid → Bool) (u : Uuid) (rows : List OutboxRow)
    → locked u ≡ false
    → any (is_claimable locked u) rows ≡ any (λ row. has_event_id u row && is_pending_task row) rows
claimable_unlocked locked u [] free = refl
claimable_unlocked locked u (r ∷ rows) free = ground (arith, claimable_unlocked locked u rows free)

pub claim_once :
    (u : Uuid) (w : World)
    → w.env.locked (w.tick + 1) u ≡ false
    → IsClaimable u w
    → (claim_event u w).0 ≡ ok true
unfolding claim_event mark_in_process
claim_once u w free h =
    ground (arith, claimable_unlocked (w.env.locked (w.tick + 1)) u w.db.outbox free)

-- The claim does not last: two consumers that claim one pending event, one after the other and
-- with no lock on it, are both told that it is theirs.
pub claim_event_twice :
    (u : Uuid) (w v : World)
    → v.db ≡ (claim_event u w).1.db
    → w.env.locked (w.tick + 1) u ≡ false
    → v.env.locked (v.tick + 1) u ≡ false
    → IsClaimable u w
    → ((claim_event u w).0 ≡ ok true) × ((claim_event u v).0 ≡ ok true)
claim_event_twice u w v same free_w free_v h =
    (claim_once u w free_w h, claim_once u v free_v (rw (same, claim_event-db u w) h))

-- what a delivery leaves behind when nothing was committed and nothing sent
abbrev pub IsDropped : World → Result (Unit {0}) × World → Type 0
IsDropped w x = (x.0 ≡ ok tt) × (x.1.db ≡ w.db) × (x.1.sent ≡ w.sent) × (x.1.acks ≡ w.acks + 1)

abbrev settled_world : World → World
settled_world w = record w { tx = w.db; tick = w.tick + 1 + 1 + 1 + 1 + 1 }

abbrev pub claimed_world : World → World
claimed_world w = record w { tx = w.db; tick = w.tick + 1 + 1 }

pub claim_event-world :
    (u : Uuid) (w : World) → (b : Bool) × (claim_event u w ≡ (ok b, claimed_world w))
unfolding claim_event mark_in_process
claim_event-world u w =
    elim (Bool-cases (any (is_claimable (w.env.locked (w.tick + 1)) u) w.db.outbox)) [
      | inl free ↦ (true, ground (arith, free))
      | inr taken ↦ (false, ground (arith, taken))
    ]
