-- ===== src/Domain/Event.antt =====
-- The domain events: shared/domain/event.py and payments/domain/events.py. A field of an event
-- holds any value, since an event that is rebuilt from its payload keeps the values it finds there.
use mco_louna_task.Base.{String, Option, none, some, str_eq, if◌then◌else◌}
use Prim.Native.String.{◌++◌}
use mco_louna_task.Values.{Uuid, Datetime, Value}

pub data EventClass : Type 0 where
  domain created processed : EventClass

pub record Processed : Type 0 where
  pub amount : Value
  pub currency : Value
  pub webhook_url : Value
  pub status : Value
  pub reason : Value

pub data Body : Type 0 where
  domain : Body
  created : Body
  processed : Processed → Body

pub record Event : Type 0 where
  pub id : Uuid
  pub occurred_at : Datetime
  pub payload : Value
  pub payment_id : Value
  pub body : Body

abbrev pub body_class : Body → EventClass
body_class Body.domain = EventClass.domain
body_class Body.created = EventClass.created
body_class (Body.processed _) = EventClass.processed

-- `type(event)`
abbrev pub class_of : Event → EventClass
class_of e = body_class e.body

-- `__event_group__`
abbrev pub event_group : EventClass → String
event_group _ = "payments"

-- `__event_key__`
abbrev pub event_key : EventClass → String
event_key EventClass.domain = "*"
event_key EventClass.created = "new"
event_key EventClass.processed = "processed"

-- `f"{cls.__event_group__}.{cls.__event_key__}"`, under which `register_event` registers a class
abbrev pub registry_key : EventClass → String
registry_key c = (event_group c ++ ".") ++ event_key c

-- `EVENT_REGISTRY.get`
unfoldable pub event_registry : String → Option EventClass
event_registry k =
    if str_eq k (registry_key EventClass.domain)
    then some EventClass.domain
    else if str_eq k (registry_key EventClass.created)
    then some EventClass.created
    else if str_eq k (registry_key EventClass.processed)
    then some EventClass.processed
    else none
