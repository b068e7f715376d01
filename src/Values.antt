-- ===== src/Values.antt =====
-- The Python values that the payment service handles: numbers, identifiers, instants, the
-- enumerations of payments/domain/enums, texts, and one type of dynamic values.
-- A text keeps its parts: `str(uuid)` is `uuid_text u`, an f-string is a `cat`. `float` and
-- `opaque` carry a tag for values that the service only passes on; a `float` is finite,
-- and `special_float` is NaN or an infinity.
use mco_louna_task.Base.{
  ℕ, ◌/◌, ◌%◌, ◌^◌, String, Bool, true, false, Option, none, some, ◌==◌, if◌then◌else◌,
}

-- `negsuc n` is -(n + 1).
pub data ℤ : Type 0 where
  pos : ℕ → ℤ
  negsuc : ℕ → ℤ

-- A finite decimal is (-1) ^ negative * coefficient * 10 ^ exponent.
pub data Decimal : Type 0 where
  finite : Bool → ℕ → ℤ → Decimal
  infinity : Bool → Decimal
  nan : Decimal

-- A UUID is its 128-bit integer.
abbrev pub Uuid : Type 0
Uuid = ℕ

-- An instant, and whether `tzinfo` is set.
pub record Datetime : Type 0 where
  pub instant : ℕ
  pub aware : Bool

pub data Currency : Type 0 where
  rub usd eur : Currency

pub data PaymentStatus : Type 0 where
  pending confirmed failed : PaymentStatus

pub data TaskStatus : Type 0 where
  pending confirmed failed in_process : TaskStatus

pub data Text : Type 0 where
  str : String → Text
  uuid_text : Uuid → Text
  decimal_text : Decimal → Text
  iso_text : Datetime → Text
  num_text : ℕ → Text
  cat : Text → Text → Text

pub data Key : Type 0 where
  str_key : String → Key
  other_key : ℕ → Key

mutual
  pub data Value : Type 0 where
    none_value : Value
    bool_value : Bool → Value
    int : ℤ → Value
    float : ℕ → Value
    special_float : ℕ → Value
    text : Text → Value
    decimal : Decimal → Value
    uuid : Uuid → Value
    datetime : Datetime → Value
    currency : Currency → Value
    status : PaymentStatus → Value
    dict : Fields → Value
    list : Items → Value
    tuple : Items → Value
    mapping_proxy : Fields → Value
    instance_of : Fields → Value
    opaque : ℕ → Value

  pub data Items : Type 0 where
    nil : Items
    cons : Value → Items → Items

  pub data Fields : Type 0 where
    end : Fields
    field : Key → Value → Fields → Fields

abbrev pub currency_value : Currency → String
currency_value Currency.rub = "RUB"
currency_value Currency.usd = "USD"
currency_value Currency.eur = "EUR"

abbrev pub status_value : PaymentStatus → String
status_value PaymentStatus.pending = "PENDING"
status_value PaymentStatus.confirmed = "CONFIRMED"
status_value PaymentStatus.failed = "FAILED"

abbrev pub task_status_eq : TaskStatus → TaskStatus → Bool
task_status_eq TaskStatus.pending TaskStatus.pending = true
task_status_eq TaskStatus.confirmed TaskStatus.confirmed = true
task_status_eq TaskStatus.failed TaskStatus.failed = true
task_status_eq TaskStatus.in_process TaskStatus.in_process = true
task_status_eq _ _ = false

-- Python's `uuid.UUID.version`: a number where the variant bits are those of RFC 4122.
unfoldable pub uuid_version : Uuid → Option ℕ
uuid_version u = if (u / 2 ^ 62) % 4 == 2 then some ((u / 2 ^ 76) % 16) else none
