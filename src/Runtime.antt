-- ===== src/Runtime.antt =====
-- include/gateway/runtime.hpp and src/core/runtime.cpp: the runtime, which owns the plugins, the queues
-- and the workers. Here what its parts share: the plugin instances and the lookups.
pub mod Lifecycle
pub mod Work
pub mod Configure
pub mod Facade
mod Tests
use mini_gateway.Prelude.{
  ℕ, Bool, true, false, String, concat, Option, none, some, List, [], ◌∷◌, str_eq, if◌then◌else◌,
  Result, ok, err, invalid_argument, out_of_range,
}
use mini_gateway.Model.{GatewayConfig, DeviceConfig, CollectionGroup}

pub data AcquisitionMode : Type 0 where
  poll push : AcquisitionMode

-- `std::find_if` by a name, or the exception of the end
unfoldable pub find_if : {A : Type 0} → (A → String) → String → List A → Option A
find_if name_of name [] = none
find_if name_of name (x ∷ xs) = if str_eq (name_of x) name then some x else find_if name_of name xs

unfoldable pub find_device : GatewayConfig → String → Result DeviceConfig
unfolding find_if
find_device config device_id = elim (find_if (λ d. d.id) device_id config.devices) [
  | none ↦ err (invalid_argument (concat "driver references unknown device: " device_id))
  | some device ↦ ok device
]

unfoldable pub find_group : GatewayConfig → String → Result CollectionGroup
unfolding find_if
find_group config group_id = elim (find_if (λ g. g.id) group_id config.groups) [
  | none ↦ err (out_of_range (concat "scheduled collection group was not found: " group_id))
  | some group ↦ ok group
]
