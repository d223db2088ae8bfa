-- ===== src/Driver/Claim.antt =====
-- pkg/driver/driver.go: what the driver reads of a ResourceClaim.
use dra_multi_things.Base.{Str, str_eq, ◌==◌, if◌then◌else◌, lit, List, [], ◌∷◌, Option, none, some}
use dra_multi_things.Base.Int.{pos}
use dra_multi_things.Driver.Codec.{decode_config}
use dra_multi_things.Handler.{DeviceConfig, device_type_netdev}
use dra_multi_things.System.Os.{Content}

-- The fields of the Kubernetes types that the driver reads.
pub record OpaqueConfig : Type 0 where
  pub driver : Str
  pub parameters : Content

pub record AllocationResult : Type 0 where
  pub driver : Str
  pub pool : Str
  pub device : Str
  pub request : Str

pub record ResourceClaim : Type 0 where
  pub uid : Str
  pub namespace : Str
  pub name : Str
  pub config : List (Option OpaqueConfig)
  pub allocation : Option (List AllocationResult)

unfoldable pub default_config : DeviceConfig
unfolding lit
default_config = record {
  typ = device_type_netdev;
  netdev = some (record {
    kind = lit "dummy";
    interface_name = lit "eth1";
    mtu = pos 0;
    parent = [];
    mode = [];
    vf_index = pos 0;
    host_device = [];
    pkey = pos 0;
  });
  rdma = none;
  combo = none;
}

-- The loop of `parseConfig`: the first configuration for this driver that can be parsed.
unfoldable pub first_config : Str → List (Option OpaqueConfig) → DeviceConfig
first_config driver_name [] = default_config
first_config driver_name (none ∷ configs) = first_config driver_name configs
first_config driver_name (some opaque ∷ configs) =
    let rest = first_config driver_name configs in
    if opaque.driver == driver_name
    then elim (decode_config opaque.parameters) [ none ↦ rest | some parsed ↦ parsed ]
    else rest

-- `parseConfig`; `none` is a nil claim.
unfoldable pub parse_config : Str → Option ResourceClaim → DeviceConfig
unfolding first_config
parse_config driver_name none = default_config
parse_config driver_name (some rc) = first_config driver_name rc.config

unfoldable pub first_device : Str → List AllocationResult → Str
first_device driver_name [] = []
first_device driver_name (r ∷ results) =
    let rest = first_device driver_name results in
    if r.driver == driver_name then r.device else rest

-- `getAllocatedDevice`
unfoldable pub get_allocated_device : Str → Option ResourceClaim → Str
unfolding first_device
get_allocated_device driver_name none = []
get_allocated_device driver_name (some rc) = elim rc.allocation [
  | none ↦ []
  | some results ↦ first_device driver_name results
]
