-- ===== src/Driver/Publisher.antt =====
-- pkg/driver/publisher.go: the devices of a node, found in sysfs and devfs, as they are published.
pub mod Rules
pub mod Values
pub mod Prepare
pub mod Names
pub mod Distinct
use dra_multi_things.Base.{
  ℕ, Str, str_eq, ◌==◌, if◌then◌else◌, lit, Bool, true, false, not, ◌||◌, List, [], ◌∷◌, ◌++◌,
  Option, none, some, ◌⊎◌, inl, inr, contains,
}
use dra_multi_things.Base.Dict.{Dict, insert}
use dra_multi_things.Base.FilePath.{filepath_join, filepath_base}
use dra_multi_things.Base.Int.{ℤ, negsuc, is_nonneg}
use dra_multi_things.Base.Numeral.{atoi, decimal}
use dra_multi_things.Base.Strings.{has_prefix, contains_str, trim_space}
use dra_multi_things.Rdma.Mode.{detect_netns_mode}
use dra_multi_things.System.Errors.{Error}
use dra_multi_things.System.Netlink.{Netlink}
use dra_multi_things.System.Os.{Os, Content, read_dir, read_file, readlink, stat, text_of}
use dra_multi_things.System.World.{World, NetnsMode, shared, exclusive}

-- The types of k8s.io/api/resource/v1 that the program fills, with the fields that it sets. A
-- quantity is the text that `resource.MustParse` is given.
pub record DeviceAttribute : Type 0 where
  pub int_value : Option ℤ
  pub string_value : Option Str

pub record DeviceCapacity : Type 0 where
  pub value : Str
  pub default : Option Str

pub record Device : Type 0 where
  pub name : Str
  pub attributes : Dict Str DeviceAttribute
  pub capacity : Dict Str DeviceCapacity
  pub allow_multiple_allocations : Option Bool

pub record Slice : Type 0 where
  pub devices : List Device

pub record Pool : Type 0 where
  pub slices : List Slice

pub record DriverResources : Type 0 where
  pub pools : Dict Str Pool

abbrev pub string_attribute : Str → DeviceAttribute
string_attribute s = record { int_value = none; string_value = some s }

abbrev pub int_attribute : ℤ → DeviceAttribute
int_attribute n = record { int_value = some n; string_value = none }

-- A device with attributes only.
abbrev pub plain_device : Str → Dict Str DeviceAttribute → Device
plain_device name attributes = record {
  name = name;
  attributes = attributes;
  capacity = [];
  allow_multiple_allocations = none;
}

unfoldable pub net_dir : Str
unfolding lit
net_dir = lit "/sys/class/net"

unfoldable pub ib_dir : Str
unfolding lit
ib_dir = lit "/dev/infiniband"

abbrev succeeds {ℓ} : {A : Type ℓ} → Error ⊎ A → Bool
succeeds (inl _) = false
succeeds (inr _) = true

-- `isVF`
unfoldable pub is_vf : Os → Str → Bool
unfolding lit
is_vf os name =
    succeeds (readlink os (filepath_join (net_dir ∷ name ∷ lit "device" ∷ lit "physfn" ∷ [])))

-- `getVFParent`
unfoldable pub get_vf_parent : Os → Str → Str
unfolding lit
get_vf_parent os vf_name =
    elim (read_dir os
      (filepath_join (net_dir ∷ vf_name ∷ lit "device" ∷ lit "physfn" ∷ lit "net" ∷ []))) [
        | inl _ ↦ []
        | inr [] ↦ []
        | inr (entry ∷ _) ↦ entry
      ]

-- `getPCIAddress`
unfoldable pub get_pci_address : Os → Str → Str
unfolding lit
get_pci_address os name = elim (readlink os (filepath_join (net_dir ∷ name ∷ lit "device" ∷ []))) [
  | inl _ ↦ []
  | inr resolved ↦ filepath_base resolved
]

abbrev or_minus_one : Option ℤ → ℤ
or_minus_one none = negsuc 0
or_minus_one (some node) = node

-- The number in a file of sysfs, and -1 if it cannot be read or is none.
abbrev pub node_number : Error ⊎ Content → ℤ
node_number (inl _) = negsuc 0
node_number (inr c) = or_minus_one (atoi (trim_space (text_of c)))

-- `getNUMANode`
unfoldable pub get_numa_node : Os → Str → ℤ
unfolding lit
get_numa_node os name =
    node_number
      (read_file os (filepath_join (net_dir ∷ name ∷ lit "device" ∷ lit "numa_node" ∷ [])))

-- The loop over the patterns.
unfoldable pub matches_pattern : Str → List Str → Bool
matches_pattern name [] = false
matches_pattern name (part ∷ patterns) =
    (has_prefix name part || contains_str name part) || matches_pattern name patterns

-- `isAllocatableInterface`
unfoldable pub is_allocatable_interface : Str → Bool
unfolding matches_pattern lit
is_allocatable_interface name =
    matches_pattern name
      (lit "vf" ∷ lit "enp" ∷ lit "ens" ∷ lit "ib" ∷ lit "rdma" ∷ lit "veth" ∷ lit "dummy" ∷ [])

-- `isPhysicalInterface`
unfoldable pub is_physical_interface : Os → Str → Bool
unfolding lit
is_physical_interface os name = stat os (filepath_join (net_dir ∷ name ∷ lit "device" ∷ []))

-- `resolveIBDeviceName`
unfoldable pub resolve_ib_device_name : Os → Str → Str
unfolding lit
resolve_ib_device_name os uverbs_name =
    elim (read_file os
      (filepath_join (lit "/sys/class/infiniband_verbs" ∷ uverbs_name ∷ lit "ibdev" ∷ []))) [
        | inl _ ↦ []
        | inr c ↦ trim_space (text_of c)
      ]

-- Loopback, common host interfaces, and container veth pairs.
unfoldable pub is_skipped : Str → Bool
unfolding lit
is_skipped name =
    contains (lit "lo" ∷ lit "eth0" ∷ lit "docker0" ∷ lit "cni0" ∷ []) name
    || has_prefix name (lit "veth")

-- `if pciAddr := getPCIAddress(name); pciAddr != ""`
abbrev add_pci : Str → Dict Str DeviceAttribute → Dict Str DeviceAttribute
add_pci addr attributes =
    if not (addr == [])
    then insert (lit "dra.example.com/pci-address") (string_attribute addr) attributes
    else attributes

-- `if numaNode := getNUMANode(name); numaNode >= 0`
abbrev add_numa : ℤ → Dict Str DeviceAttribute → Dict Str DeviceAttribute
add_numa node attributes =
    if is_nonneg node
    then insert (lit "dra.example.com/numa-node") (int_attribute node) attributes
    else attributes

unfoldable pub vf_device : Os → Str → Device
unfolding lit
vf_device os name = plain_device name (
    add_numa (get_numa_node os name) (
      add_pci (get_pci_address os name) (
        (lit "dra.example.com/type", string_attribute (lit "netdev"))
        ∷ (lit "dra.example.com/kind", string_attribute (lit "sriov-vf"))
        ∷ (lit "dra.example.com/parent", string_attribute (get_vf_parent os name))
        ∷ [])))

unfoldable pub interface_device : Str → Device
unfolding lit
interface_device name = plain_device (lit "netdev-" ++ name) (
    (lit "dra.example.com/type", string_attribute (lit "netdev"))
    ∷ (lit "dra.example.com/kind", string_attribute (lit "physical"))
    ∷ (lit "dra.example.com/interface", string_attribute name)
    ∷ [])

-- The loop of `discoverNetworkDevices`.
unfoldable pub network_devices : Os → List Str → List Device
unfolding is_skipped is_allocatable_interface vf_device interface_device
network_devices os [] = []
network_devices os (name ∷ entries) =
    let rest = network_devices os entries in
    if is_skipped name
    then rest
    else if is_vf os name
    then vf_device os name ∷ rest
    else if is_allocatable_interface name
    then interface_device name ∷ rest
    else rest

-- `discoverNetworkDevices`
unfoldable pub discover_network_devices : Os → List Device
unfolding network_devices
discover_network_devices os = elim (read_dir os net_dir) [
  | inl _ ↦ []
  | inr entries ↦ network_devices os entries
]

-- `string(mode)`
unfoldable pub mode_text : NetnsMode → Str
unfolding lit
mode_text shared = lit "shared"
mode_text exclusive = lit "exclusive"

abbrev if_shared : NetnsMode → Option Bool
if_shared shared = some true
if_shared exclusive = none

-- `if ibDev != ""`
abbrev add_ibdev : Str → Dict Str DeviceAttribute → Dict Str DeviceAttribute
add_ibdev ib_dev attributes =
    if not (ib_dev == [])
    then insert (lit "dra.example.com/ibdev") (string_attribute ib_dev) attributes
    else attributes

unfoldable pub rdma_device : Os → NetnsMode → Str → Device
unfolding mode_text lit
rdma_device os mode name = record {
  name = name;
  attributes = add_ibdev (resolve_ib_device_name os name) (
      (lit "dra.example.com/type", string_attribute (lit "rdma"))
      ∷ (lit "dra.example.com/device", string_attribute (filepath_join (ib_dir ∷ name ∷ [])))
      ∷ (lit "dra.example.com/rdma-netns-mode", string_attribute (mode_text mode))
      ∷ []);
  capacity = [];
  allow_multiple_allocations = if_shared mode;
}

-- The loop of `discoverRDMADevices`.
unfoldable pub rdma_devices : Os → NetnsMode → List Str → List Device
unfolding rdma_device lit
rdma_devices os mode [] = []
rdma_devices os mode (name ∷ entries) =
    let rest = rdma_devices os mode entries in
    if not (has_prefix name (lit "uverbs")) then rest else rdma_device os mode name ∷ rest

unfoldable pub max_virtual_slots : ℕ
max_virtual_slots = 128

unfoldable pub virtual_device : Device
unfolding decimal max_virtual_slots lit
virtual_device = record {
  name = lit "netdev-virtual";
  attributes =
      (lit "dra.example.com/type", string_attribute (lit "netdev"))
      ∷ (lit "dra.example.com/kind", string_attribute (lit "virtual"))
      ∷ [];
  capacity =
      (
        lit "dra.example.com/slots",
        record { value = decimal max_virtual_slots; default = some (lit "1") },
      )
      ∷ [];
  allow_multiple_allocations = some true;
}

-- The template of a pool of links of a kind on a parent.
unfoldable pub pool_device : Str → Str → Device
unfolding lit
pool_device kind parent = plain_device (parent ++ (b'-' ∷ (kind ++ lit "-pool"))) (
    (lit "dra.example.com/type", string_attribute (lit "netdev"))
    ∷ (lit "dra.example.com/kind", string_attribute kind)
    ∷ (lit "dra.example.com/parent", string_attribute parent)
    ∷ [])

-- The loop of `discoverVirtualPools`.
unfoldable pub pool_devices : Os → List Str → List Device
unfolding pool_device lit
pool_devices os [] = []
pool_devices os (name ∷ entries) =
    let rest = pool_devices os entries in
    if name == lit "lo"
    then rest
    else if is_physical_interface os name
    then pool_device (lit "macvlan") name ∷ pool_device (lit "ipvlan") name ∷ rest
    else rest

-- `discoverVirtualPools`
unfoldable pub discover_virtual_pools : Os → List Device
unfolding virtual_device pool_devices
discover_virtual_pools os =
    virtual_device
    ∷ (elim (read_dir os net_dir) [ inl _ ↦ [] | inr entries ↦ pool_devices os entries ])

module _ {N : Netlink} where
  -- `discoverRDMADevices`
  unfoldable pub discover_rdma_devices : World N → List Device × World N
  unfolding rdma_devices
  discover_rdma_devices w =
      let (mode, w') = detect_netns_mode w in
      elim (read_dir w'.os ib_dir) [
        | inl _ ↦ ([], w')
        | inr entries ↦ (rdma_devices w'.os mode entries, w')
      ]

  -- What `DiscoverResources` appends in turn.
  unfoldable pub all_devices : World N → List Device × World N
  all_devices w =
      let (rdma, w') = discover_rdma_devices w in
      (discover_network_devices w.os ++ (rdma ++ discover_virtual_pools w'.os), w')

  -- `DiscoverResources`
  unfoldable pub discover_resources : Str → Str → World N → DriverResources × World N
  unfolding all_devices
  discover_resources driver_name node_name w =
      let (devices, w') = all_devices w in
      (
        record { pools = (node_name, record { slices = record { devices = devices } ∷ [] }) ∷ [] },
        w',
      )
