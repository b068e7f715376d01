-- ===== src/System/Invariant.antt =====
-- What holds of every committed state that the service reaches.
use mco_louna_task.Values.{Datetime, PaymentStatus, Uuid}
use mco_louna_task.System.Change.{
  Change, Changes, finish, record_payment, settle_event, settle_payment, then_change, unchanged,
}
use mco_louna_task.Storage.Payments.{has_id, has_key}
use mco_louna_task.Storage.Outbox.{has_event_id, insert_event, set_status}
use mco_louna_task.Exec.{Database, OutboxRow, PaymentRow}
use mco_louna_task.Base.{
  All, All-append, Bool, Bool-cases, List, [], any, ap, arith, false, inl, inr, none, refl, subst,
  sym, update_where, ℕ, ◌++◌, ◌==◌, ◌∙◌, ◌∷◌, ◌≡◌, ◌≢◌, ◌⊎◌,
}
use mathlib.Core.Path.{fun_ext}

-- A payment has a processing time exactly when it is settled.
abbrev pub IsStamped : PaymentRow → Type 0
IsStamped row =
    ((row.status ≡ PaymentStatus.pending) × (row.processed_at ≡ none))
    ⊎ ((row.status ≢ PaymentStatus.pending) × (row.processed_at ≢ none))

-- No two rows pass the same test.
abbrev pub AreDistinct : {A : Type 0} → (A → A → Bool) → List A → Type 0
AreDistinct same [] = Unit
AreDistinct same (x ∷ xs) = (any (same x) xs ≡ false) × AreDistinct same xs

abbrev pub same_id : PaymentRow → PaymentRow → Bool
same_id p = has_id p.id

abbrev pub same_key : PaymentRow → PaymentRow → Bool
same_key p = has_key p.idempotency_key

abbrev pub same_event : OutboxRow → OutboxRow → Bool
same_event e = has_event_id e.id

pub record IsConsistent (d : Database) : Type 0 where
  pub ids : AreDistinct same_id d.payments
  pub keys : AreDistinct same_key d.payments
  pub events : AreDistinct same_event d.outbox
  pub stamps : All IsStamped d.payments

-- Adding a row at the end.
any_one :
    {A : Type 0} (p : A → Bool) (xs : List A) (y : A)
    → any p xs ≡ false
    → p y ≡ false
    → any p (xs ++ y ∷ []) ≡ false
any_one p [] y h k = ground arith
any_one p (x ∷ xs) y h k = ground (arith, any_one p xs y)

module _ {A : Type 0} (same : A → A → Bool) (flip : (x y : A) → same x y ≡ same y x) where
  pub append_distinct :
      (xs : List A) (y : A)
      → AreDistinct same xs
      → any (same y) xs ≡ false
      → AreDistinct same (xs ++ y ∷ [])
  append_distinct [] y h k = (refl, tt)
  append_distinct (x ∷ xs) y h k = (
    any_one (same x) xs y h.0 (ground (arith, flip x y)),
    append_distinct xs y h.1 (ground arith),
  )

pub flip_eq : (a b : ℕ) → (a == b) ≡ (b == a)
flip_eq a b = ground arith

-- Changing rows in a way that keeps what is compared.
module _ {A : Type 0} (same : A → A → Bool) (p : A → Bool) (f : A → A) where
  any_update :
      (q : A → Bool)
      → ((x : A) → q (f x) ≡ q x)
      → (xs : List A) → any q (update_where p f xs) ≡ any q xs
  any_update q keep [] = refl
  any_update q keep (x ∷ xs) = ground (arith, keep x, any_update q keep xs)

  update_distinct :
      ((x y : A) → same x (f y) ≡ same x y)
      → ((x y : A) → same (f x) y ≡ same x y)
      → (xs : List A) → AreDistinct same xs
      → AreDistinct same (update_where p f xs)
  update_distinct right left [] h = tt
  update_distinct right left (x ∷ xs) h = elim (Bool-cases (p x)) [
    | inl e ↦ rw e (
      (any_update (same (f x)) (right (f x)) xs ∙ ap (λ g. any g xs) (fun_ext (left x)) ∙ h.0),
      update_distinct right left xs h.1,
    )
    | inr e ↦ rw e ((any_update (same x) (right x) xs ∙ h.0), update_distinct right left xs h.1)
  ]

finish_stamps :
    (u : Uuid) (s : PaymentStatus) (at : Datetime) (rows : List PaymentRow)
    → s ≢ PaymentStatus.pending
    → All IsStamped rows
    → All IsStamped (update_where (has_id u) (finish s at) rows)
finish_stamps u s at [] final h = tt
finish_stamps u s at (row ∷ rows) final h = elim (Bool-cases (has_id u row)) [
  | inl e ↦ rw e (inr (final, λ absent. cc absent), finish_stamps u s at rows final h.1)
  | inr e ↦ rw e (h.0, finish_stamps u s at rows final h.1)
]

insert_event-distinct :
    (e : OutboxRow) (rows : List OutboxRow)
    → AreDistinct same_event rows
    → AreDistinct same_event (insert_event e rows)
unfolding insert_event
insert_event-distinct e rows h = elim (Bool-cases (any (has_event_id e.id) rows)) [
  | inl known ↦ rw known h
  | inr new ↦ rw new (append_distinct same_event (λ x y. flip_eq y.id x.id) rows e h new)
]

-- Each specified change keeps a consistent state consistent.
pub Change-IsConsistent : (d d' : Database) → Change d d' → IsConsistent d → IsConsistent d'
Change-IsConsistent d d' (record_payment p e fresh unset free tells made) c =
    subst IsConsistent (sym made) (record {
      ids = append_distinct same_id (λ x y. flip_eq y.id x.id) d.payments p c.ids (ground arith);
      keys =
          append_distinct same_key (λ x y. flip_eq y.idempotency_key x.idempotency_key) d.payments p
            c.keys (ground arith);
      events = insert_event-distinct e d.outbox c.events;
      stamps = All-append IsStamped d.payments (p ∷ []) c.stamps (inl (fresh, unset), tt);
    })
Change-IsConsistent d d' (settle_payment u row s at e known fresh final tells made) c =
    subst IsConsistent (sym made) (record {
      ids =
          update_distinct same_id (has_id u) (finish s at) (λ x y. refl) (λ x y. refl) d.payments
            c.ids;
      keys =
          update_distinct same_key (has_id u) (finish s at) (λ x y. refl) (λ x y. refl) d.payments
            c.keys;
      events = insert_event-distinct e d.outbox c.events;
      stamps = finish_stamps u s at d.payments final c.stamps;
    })
Change-IsConsistent d d' (settle_event u s known final made) c =
    subst IsConsistent (sym made) (record {
      ids = c.ids;
      keys = c.keys;
      events =
          update_distinct same_event (has_event_id u) (set_status s) (λ x y. refl) (λ x y. refl)
            d.outbox c.events;
      stamps = c.stamps;
    })

pub Changes-IsConsistent : (d d' : Database) → Changes d d' → IsConsistent d → IsConsistent d'
Changes-IsConsistent d d' unchanged c = c
Changes-IsConsistent d d' (then_change {d' = e} h s) c =
    Change-IsConsistent e d' s (Changes-IsConsistent d e h c)
