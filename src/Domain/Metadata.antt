-- ===== src/Domain/Metadata.antt =====
-- `Metadata` (payments/domain/value_objects/metadata.py).
use mco_louna_task.Base.{Bool, true, false, not}
use mco_louna_task.Values.{Value, dict, mapping_proxy, Fields, end, field, str_key, other_key}
use mco_louna_task.Errors.{Result, ok, err, ◌>>=◌, ◌>>◌, raise_if, simple_error, wrong_type}
use mco_louna_task.Domain.ValueObject.{ValueObject, base_post_init}

-- `isinstance(self.meta, (dict, MappingProxyType))`
unfoldable pub require_mapping : Value → Result Fields
require_mapping (dict fs) = ok fs
require_mapping (mapping_proxy fs) = ok fs
require_mapping _ = err (simple_error wrong_type "Metadata must be a dictionary")

-- `all(isinstance(k, str) for k in self.meta.keys())`
unfoldable pub has_str_keys : Fields → Bool
has_str_keys end = true
has_str_keys (field (str_key _) _ rest) = has_str_keys rest
has_str_keys (field (other_key _) _ rest) = false

-- The base class sees the converted value.
unfoldable pub create_metadata : Bool → Value → Result (ValueObject Fields)
unfolding require_mapping
create_metadata dev value = do
  fs ← require_mapping value
  raise_if (not (has_str_keys fs)) (simple_error wrong_type "Not each field serializable")
  base_post_init dev "Metadata.meta" (mapping_proxy fs)
  ok (record { value = fs; rebuilding = false })
