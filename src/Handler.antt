-- ===== src/Handler.antt =====
-- pkg/handler/types.go: what a claim asks for, what a handler returns, and the handler interface.
pub mod Registry
use dra_multi_things.Base.{
  ◌≡◌, Str, str_eq, ◌==◌, if◌then◌else◌, lit, Bool, true, false, List, [], ◌∷◌, Option, none, some,
}
use dra_multi_things.Base.Dict.{Dict, NodupKeys, lookup}
use dra_multi_things.Base.Int.{ℤ}
use dra_multi_things.System.Errors.{Error}
use dra_multi_things.System.Monad.{M}

-- `DeviceType`, a string type with three named constants.
abbrev pub DeviceType : Type 0
DeviceType = Str

unfoldable pub device_type_netdev : DeviceType
unfolding lit
device_type_netdev = lit "netdev"

unfoldable pub device_type_rdma : DeviceType
unfolding lit
device_type_rdma = lit "rdma"

unfoldable pub device_type_combo : DeviceType
unfolding lit
device_type_combo = lit "combo"

pub record NetdevConfig : Type 0 where
  pub kind : Str
  pub interface_name : Str
  pub mtu : ℤ
  pub parent : Str
  pub mode : Str
  pub vf_index : ℤ
  pub host_device : Str
  pub pkey : ℤ

pub record RdmaConfig : Type 0 where
  pub prefer_device : Str

pub record ComboConfig : Type 0 where
  pub rdma : RdmaConfig
  pub netdev : NetdevConfig

pub record DeviceConfig : Type 0 where
  pub typ : DeviceType
  pub netdev : Option NetdevConfig
  pub rdma : Option RdmaConfig
  pub combo : Option ComboConfig

pub record PrepareRequest : Type 0 where
  pub claim_uid : Str
  pub namespace : Str
  pub claim_name : Str
  pub allocated_device : Str
  pub config : DeviceConfig

pub record AllocationInfo : Type 0 where
  pub typ : DeviceType
  pub kind : Str
  pub claim_uid : Str
  pub device_name : Str
  pub metadata : Dict Str Str

pub record UnprepareRequest : Type 0 where
  pub claim_uid : Str
  pub allocation : AllocationInfo

-- The fields of the CDI package's types that the program sets.
pub record DeviceNode : Type 0 where
  pub path : Str
  pub host_path : Str
  pub permissions : Str

pub record Mount : Type 0 where
  pub host_path : Str
  pub container_path : Str
  pub options : List Str

pub record LinuxNetDevice : Type 0 where
  pub host_interface_name : Str
  pub name : Str

pub record ContainerEdits : Type 0 where
  pub device_nodes : List DeviceNode
  pub mounts : List Mount
  pub net_devices : List LinuxNetDevice
  pub env : List Str

pub record PrepareResult : Type 0 where
  pub pool_name : Str
  pub device_name : Str
  pub cdi_edits : ContainerEdits
  pub allocation : AllocationInfo

-- The interface `DeviceHandler`, over the state `S` that the handlers act on.
pub record DeviceHandler (S : Type 0) : Type 0 where
  pub typ : DeviceType
  pub kinds : List Str
  pub prepare : PrepareRequest → M S PrepareResult
  pub unprepare : UnprepareRequest → M S (Unit {0})
  pub validate : DeviceConfig → Option Error

abbrev netdev_kind : Option NetdevConfig → Str
netdev_kind none = []
netdev_kind (some c) = c.kind

-- `DeviceConfig.GetKind`
unfoldable pub get_kind : DeviceConfig → Str
get_kind c =
    if c.typ == device_type_netdev
    then netdev_kind c.netdev
    else if c.typ == device_type_rdma
    then lit "uverbs"
    else if c.typ == device_type_combo
    then lit "roce"
    else []

-- `m[k]` of a map of strings: the empty string where the key is missing.
abbrev pub meta : Str → Dict Str Str → Str
meta k d = elim (lookup k d) [ none ↦ [] | some v ↦ v ]

abbrev pub no_edits : ContainerEdits
no_edits = record { device_nodes = []; mounts = []; net_devices = []; env = [] }

-- What a repeated preparation can read off the allocation: the device, and the pool, which is the
-- default unless the metadata name another.
abbrev pub Recorded : PrepareResult → Type 0
Recorded r =
    (r.allocation.device_name ≡ r.device_name)
    × ((r.pool_name ≡ lit "default") × (lookup (lit "poolName") r.allocation.metadata ≡ none))

-- What the file of an allocation must hold to be found for its claim, and read back.
abbrev pub Restorable : Str → PrepareResult → Type 0
Restorable uid r = (r.allocation.claim_uid ≡ uid) × NodupKeys r.allocation.metadata
