-- ===== src/Domain/Accepts.antt =====
-- What the value objects `Amount` and `Description` accept.
use mco_louna_task.Values.{Decimal, decimal, finite, infinity, nan, negsuc, pos}
use mco_louna_task.Errors.{ok}
use mco_louna_task.Domain.ValueObject.{ValueObject, base_post_init}
use mco_louna_task.Domain.Description.{
  codes, create_description, is_control, match_valid, validate_lenth, validate_pattern,
}
use mco_louna_task.Domain.Amount.{create_amount}
use mco_louna_task.Base.{
  ◌<◌, Bool, List, String, [], arith, false, length, true, ℕ, ◌+◌, ◌↔◌, ◌∷◌, ◌≡◌, ◌≢◌, ◌≤◌, ◌⊎◌,
}

abbrev pub checked_value : {A : Type 0} → A → ValueObject A
checked_value a = record { value = a; rebuilding = false }

-- A positive finite decimal with at most two places.
abbrev pub IsAmount : Decimal → Type 0
IsAmount (finite negative coefficient (pos n)) = (negative ≡ false) × (coefficient ≢ 0)
IsAmount (finite negative coefficient (negsuc n)) =
    (negative ≡ false) × (coefficient ≢ 0) × (n + 1 ≤ 2)
IsAmount _ = ⊥

-- `Amount` accepts exactly the positive finite decimals with at most two decimal places, with
-- their value.
pub create_amount_iff :
    (dev : Bool) (d : Decimal) → (create_amount dev (decimal d) ≡ ok (checked_value d)) ↔ IsAmount d
unfolding create_amount base_post_init
create_amount_iff dev (finite negative coefficient (pos n)) = ground arith
create_amount_iff dev (finite negative coefficient (negsuc n)) = ground arith
create_amount_iff dev (infinity negative) = ground arith
create_amount_iff dev nan = ground arith

-- the control characters of ASCII
abbrev IsControl : ℕ → Type 0
IsControl c = (c < 32) ⊎ (c ≡ 127)

-- No control character, but a newline may end the text.
abbrev pub IsPrintable : List ℕ → Type 0
IsPrintable [] = Unit
IsPrintable (c ∷ rest) = ((¬ IsControl c) × IsPrintable rest) ⊎ ((c ≡ 10) × (rest ≡ []))

is_control_iff : (c : ℕ) → (is_control c ≡ true) ↔ IsControl c
unfolding is_control
is_control_iff c = ground arith

match_valid_iff : (cs : List ℕ) → (match_valid cs ≡ true) ↔ IsPrintable cs
unfolding match_valid
match_valid_iff [] = ground arith
match_valid_iff (c ∷ []) = ground (arith, is_control_iff c)
match_valid_iff (c ∷ d ∷ rest) = ground (arith, is_control_iff c, match_valid_iff (d ∷ rest))

-- `Description` accepts exactly the texts of 3 to 50 characters without a control character, and
-- those whose one control character is a newline at the end.
pub create_description_iff :
    (dev : Bool) (s : String)
    → (create_description dev s ≡ ok (checked_value s))
      ↔ ((3 ≤ length (codes s)) × (length (codes s) ≤ 50) × IsPrintable (codes s))
unfolding create_description base_post_init validate_lenth validate_pattern
create_description_iff dev s = ground (arith, match_valid_iff (codes s))
