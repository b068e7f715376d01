-- ===== src/Domain/FieldTypes.antt =====
-- What the DEV check of an aggregate's fields accepts.
use mco_louna_task.Errors.{◌>>◌}
use mco_louna_task.Errors.{Result, err, ok}
use mco_louna_task.Domain.Aggregate.{
  Field, FieldValue, Kind, aggregate_post_init, is_skipped, sequence, single, validate_elements,
  validate_field, validate_field_types, validate_value,
}
use mco_louna_task.Base.{
  Bool-cases, List, String, [], arith, eq_iff, false, refl, true, ◌↔◌, ◌∷◌, ◌≡◌, ◌≢◌, ◌⊎◌,
}

abbrev pub AreDomainElements : List Kind → Type 0
AreDomainElements [] = Unit
AreDomainElements (k ∷ ks) =
    ((k ≡ Kind.value_object) ⊎ (k ≡ Kind.entity) ⊎ (k ≡ Kind.domain_event) ⊎ (k ≡ Kind.enum))
    × AreDomainElements ks

-- a field that the rule of the class allows
abbrev pub IsDomainValue : FieldValue → Type 0
IsDomainValue (single k) = k ≢ Kind.plain
IsDomainValue (sequence ks) = AreDomainElements ks

abbrev pub AreDomainFields : List Field → Type 0
AreDomainFields [] = Unit
AreDomainFields (f ∷ fs) =
    ((f.name ≡ "id") ⊎ (f.name ≡ "_rebuilding") ⊎ IsDomainValue f.value) × AreDomainFields fs

validate_elements_iff : (ks : List Kind) → (validate_elements ks ≡ ok tt) ↔ AreDomainElements ks
unfolding validate_elements
validate_elements_iff [] = ground arith
validate_elements_iff (k ∷ ks) = ground (arith, validate_elements_iff ks)

validate_value_iff : (v : FieldValue) → (validate_value v ≡ ok tt) ↔ IsDomainValue v
unfolding validate_value
validate_value_iff (sequence ks) = validate_elements_iff ks
validate_value_iff (single k) = ground arith

is_skipped_iff : (n : String) → (is_skipped n ≡ true) ↔ ((n ≡ "id") ⊎ (n ≡ "_rebuilding"))
unfolding is_skipped
is_skipped_iff n = ground (arith, eq_iff n "id", eq_iff n "_rebuilding")

validate_field_iff :
    (f : Field)
    → (validate_field f ≡ ok tt)
      ↔ ((f.name ≡ "id") ⊎ (f.name ≡ "_rebuilding") ⊎ IsDomainValue f.value)
unfolding validate_field
validate_field_iff f =
    ground
      (arith, is_skipped_iff f.name, validate_value_iff f.value, Bool-cases (is_skipped f.name))

then_iff :
    {P Q : Type 0} (m k : Result (Unit {0}))
    → ((m ≡ ok tt) ↔ P)
    → ((k ≡ ok tt) ↔ Q)
    → ((m >> k) ≡ ok tt) ↔ (P × Q)
then_iff (ok _) k p q = (λ h. (p.0 refl, q.0 h), λ h. q.1 h.1)
then_iff (err e) k p q = (λ h. absurd (cc h), λ h. absurd (cc (p.1 h.0)))

-- In DEV a proper subclass of `Aggregate` is accepted exactly if each of its fields, besides `id`
-- and `_rebuilding`, is an enum member, `None`, a boolean, a domain object, or a sequence of domain
-- objects and enum members.
pub aggregate_post_init_iff :
    (fields : List Field) → (aggregate_post_init true false fields ≡ ok tt) ↔ AreDomainFields fields
unfolding aggregate_post_init
aggregate_post_init_iff [] = ground arith
aggregate_post_init_iff (f ∷ fs) =
    then_iff (validate_field f) (validate_field_types fs) (validate_field_iff f)
      (aggregate_post_init_iff fs)
