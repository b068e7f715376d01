-- ===== src/Domain/Specification.antt =====
-- The specification combinators (shared/domain/specification/base.py). A leaf is a specification of
-- another class. `Iterator` is a list here: the generator yields the elements in this order.
use mco_louna_task.Base.{
  All, All-append, Bool, List, [], false, not, refl, true, ◌&&◌, ◌++◌, ◌||◌, ◌∷◌, ◌≡◌,
}

pub data Specification (A : Type 0) : Type 0 where
  leaf : A → Specification A
  and_specification : Specification A → Specification A → Specification A
  or_specification : Specification A → Specification A → Specification A
  not_specification : Specification A → Specification A

module _ {A : Type 0} where
  unfoldable pub get_leaf_specifications : Specification A → List (Specification A)
  get_leaf_specifications (and_specification left right) =
      get_leaf_specifications left ++ get_leaf_specifications right
  get_leaf_specifications (or_specification left right) =
      get_leaf_specifications left ++ get_leaf_specifications right
  get_leaf_specifications (not_specification spec) = get_leaf_specifications spec
  get_leaf_specifications (leaf a) = leaf a ∷ []

  unfoldable pub is_composite : Specification A → Bool
  is_composite (and_specification left right) = true
  is_composite (or_specification left right) = true
  is_composite (not_specification spec) = true
  is_composite (leaf a) = false

  -- what a specification means, for a meaning of the leaves
  abbrev pub satisfies : (A → Bool) → Specification A → Bool
  satisfies m (leaf a) = m a
  satisfies m (and_specification s t) = satisfies m s && satisfies m t
  satisfies m (or_specification s t) = satisfies m s || satisfies m t
  satisfies m (not_specification s) = not (satisfies m s)

  abbrev pub AgreeOn : (A → Bool) → (A → Bool) → List (Specification A) → Type 0
  AgreeOn m n [] = Unit
  AgreeOn m n (s ∷ ss) = (is_composite s ≡ false) × (satisfies m s ≡ satisfies n s) × AgreeOn m n ss

  AgreeOn-append :
      (m n : A → Bool) (xs ys : List (Specification A))
      → AgreeOn m n (xs ++ ys)
      → AgreeOn m n xs × AgreeOn m n ys
  AgreeOn-append m n [] ys h = (tt, h)
  AgreeOn-append m n (x ∷ xs) ys h =
      let (left, right) = AgreeOn-append m n xs ys h.2 in ((h.0, h.1, left), right)

  pub leaves-simple :
      (s : Specification A) → All (λ t. is_composite t ≡ false) (get_leaf_specifications s)
  unfolding get_leaf_specifications is_composite
  leaves-simple (leaf a) = (refl, tt)
  leaves-simple (and_specification s t) =
      All-append (λ t. is_composite t ≡ false) (get_leaf_specifications s)
        (get_leaf_specifications t) (leaves-simple s) (leaves-simple t)
  leaves-simple (or_specification s t) =
      All-append (λ t. is_composite t ≡ false) (get_leaf_specifications s)
        (get_leaf_specifications t) (leaves-simple s) (leaves-simple t)
  leaves-simple (not_specification s) = leaves-simple s

  -- The leaves that are yielded decide a specification: two meanings that agree on them agree on
  -- the whole.
  pub satisfies-leaves :
      (m n : A → Bool) (s : Specification A)
      → AgreeOn m n (get_leaf_specifications s)
      → satisfies m s ≡ satisfies n s
  unfolding get_leaf_specifications
  satisfies-leaves m n (leaf a) h = h.1
  satisfies-leaves m n (and_specification s t) h =
      let (left, right) =
        AgreeOn-append m n (get_leaf_specifications s) (get_leaf_specifications t) h in
      cc (satisfies-leaves m n s left, satisfies-leaves m n t right)
  satisfies-leaves m n (or_specification s t) h =
      let (left, right) =
        AgreeOn-append m n (get_leaf_specifications s) (get_leaf_specifications t) h in
      cc (satisfies-leaves m n s left, satisfies-leaves m n t right)
  satisfies-leaves m n (not_specification s) h = cc (satisfies-leaves m n s h)
