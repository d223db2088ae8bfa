-- ===== src/Driver/Publisher/Values.antt =====
-- The values of published attributes (pkg/driver/publisher.go).
use dra_multi_things.Base.{
  ℕ, ◌^◌, ◌<◌, ◌≡◌, ◌≢◌, refl, Str, str_eq, lit, [], ◌∷◌, Option, none, some, ◌⊎◌, inl, inr, arith,
  Option-cases,
}
use dra_multi_things.Base.Dict.{Dict, lookup, lookup-insert}
use dra_multi_things.Base.FilePath.{filepath_join}
use dra_multi_things.Base.Int.{ℤ, pos, negsuc}
use dra_multi_things.Base.Numeral.{atoi, atoi-lt}
use dra_multi_things.Base.Strings.{trim_space}
use dra_multi_things.Driver.Publisher.{
  Device, DeviceAttribute, vf_device, interface_device, rdma_device, pool_device, virtual_device,
  discover_resources, get_numa_node, get_pci_address, resolve_ib_device_name, mode_text, ib_dir,
  node_number, string_attribute, int_attribute, add_pci, add_numa, add_ibdev,
}
use dra_multi_things.Driver.Publisher.Rules.{Everywhere, discover_resources-Everywhere}
use dra_multi_things.Rdma.Mode.{detect_netns_mode}
use dra_multi_things.System.Errors.{Error}
use dra_multi_things.System.Netlink.{Netlink}
use dra_multi_things.System.Os.{Os, Content, text_of}
use dra_multi_things.System.World.{World, NetnsMode}

-- A NUMA node, where a device has one, is an integer from 0 to 2 ^ 63 - 1.
abbrev pub HasNode : DeviceAttribute → Type 0
HasNode a = (n : ℕ) × (a.int_value ≡ some (pos n)) × (n < 2 ^ 63)

abbrev OfSome : (DeviceAttribute → Type 0) → Option DeviceAttribute → Type 0
OfSome P none = Unit
OfSome P (some a) = P a

abbrev pub NodeBounded : Device → Type 0
NodeBounded d = OfSome HasNode (lookup (lit "dra.example.com/numa-node") d.attributes)

abbrev NodeAt : Device → Type 0
NodeAt d =
    (a : DeviceAttribute)
    → lookup (lit "dra.example.com/numa-node") d.attributes ≡ some a
    → HasNode a

node_number-lt : (x : Error ⊎ Content) (n : ℕ) → node_number x ≡ pos n → n < 2 ^ 63
node_number-lt (inl e) n h = cc
node_number-lt (inr c) n h = elim (Option-cases (atoi (trim_space (text_of c)))) [
  | inl q ↦ ground arith
  | inr (k, q) ↦ ground (arith, atoi-lt (trim_space (text_of c)) n)
]

get_numa_node-lt : (os : Os) (name : Str) (n : ℕ) → get_numa_node os name ≡ pos n → n < 2 ^ 63
unfolding get_numa_node
get_numa_node-lt os name n h = node_number-lt _ n h

add_numa-HasNode :
    (z : ℤ) (d : Dict Str DeviceAttribute) (a : DeviceAttribute)
    → ((n : ℕ) → z ≡ pos n → n < 2 ^ 63)
    → lookup (lit "dra.example.com/numa-node") d ≡ none
    → lookup (lit "dra.example.com/numa-node") (add_numa z d) ≡ some a
    → HasNode a
add_numa-HasNode (pos n) d a h e q = (
  n,
  ground (
    arith,
    lookup-insert (lit "dra.example.com/numa-node") (lit "dra.example.com/numa-node")
        (int_attribute (pos n)) d,
  ),
  h n refl,
)
add_numa-HasNode (negsuc n) d a h e q = absurd (cc)

pci-ne-numa : lit "dra.example.com/pci-address" ≢ lit "dra.example.com/numa-node"
unfolding lit
pci-ne-numa = ground arith

ibdev-ne-numa : lit "dra.example.com/ibdev" ≢ lit "dra.example.com/numa-node"
unfolding lit
ibdev-ne-numa = ground arith

lookup-add_pci :
    (addr : Str) (d : Dict Str DeviceAttribute)
    → lookup (lit "dra.example.com/numa-node") (add_pci addr d)
      ≡ lookup (lit "dra.example.com/numa-node") d
lookup-add_pci addr d = ground (
  arith,
  pci-ne-numa,
  lookup-insert (lit "dra.example.com/numa-node") (lit "dra.example.com/pci-address")
      (string_attribute addr) d,
)

lookup-add_ibdev :
    (dev : Str) (d : Dict Str DeviceAttribute)
    → lookup (lit "dra.example.com/numa-node") (add_ibdev dev d)
      ≡ lookup (lit "dra.example.com/numa-node") d
lookup-add_ibdev dev d = ground (
  arith,
  ibdev-ne-numa,
  lookup-insert (lit "dra.example.com/numa-node") (lit "dra.example.com/ibdev")
      (string_attribute dev) d,
)

vf_device-NodeAt : (os : Os) (name : Str) → NodeAt (vf_device os name)
unfolding vf_device lookup lit str_eq
vf_device-NodeAt os name a q =
    add_numa-HasNode (get_numa_node os name) _ a (get_numa_node-lt os name)
      (lookup-add_pci (get_pci_address os name) _) q

-- The devices of the other kinds have no such attribute.
rdma_device-NodeAt : (os : Os) (mode : NetnsMode) (name : Str) → NodeAt (rdma_device os mode name)
unfolding rdma_device lookup lit str_eq
rdma_device-NodeAt os mode name a q = absurd (
    ground (
      arith,
      lookup-add_ibdev (resolve_ib_device_name os name) (
          (lit "dra.example.com/type", string_attribute (lit "rdma"))
          ∷ (lit "dra.example.com/device", string_attribute (filepath_join (ib_dir ∷ name ∷ [])))
          ∷ (lit "dra.example.com/rdma-netns-mode", string_attribute (mode_text mode))
          ∷ []),
    ))

pool_device-NodeAt : (kind parent : Str) → NodeAt (pool_device kind parent)
unfolding pool_device lookup lit str_eq
pool_device-NodeAt kind parent a q = absurd (cc)

interface_device-NodeAt : (name : Str) → NodeAt (interface_device name)
unfolding interface_device lookup lit str_eq
interface_device-NodeAt name a q = absurd (cc)

virtual_device-NodeAt : NodeAt virtual_device
unfolding virtual_device lookup lit str_eq
virtual_device-NodeAt a q = absurd (cc)

OfSome-elim :
    (o : Option DeviceAttribute)
    → ((a : DeviceAttribute) → o ≡ some a → HasNode a)
    → OfSome HasNode o
OfSome-elim none h = tt
OfSome-elim (some a) h = h a refl

NodeAt-NodeBounded : (d : Device) → NodeAt d → NodeBounded d
NodeAt-NodeBounded d h = OfSome-elim _ h

-- Every published NUMA node is an integer from 0 to 2 ^ 63 - 1, whatever the files of sysfs hold.
pub discover_resources-NodeBounded :
    {N : Netlink} (driver_name node_name : Str) (w : World N)
    → Everywhere NodeBounded (discover_resources driver_name node_name w).0
discover_resources-NodeBounded d n w =
    discover_resources-Everywhere w NodeBounded
      (λ name _ _. NodeAt-NodeBounded (vf_device w.os name) (vf_device-NodeAt w.os name))
      (λ name _ _. NodeAt-NodeBounded (interface_device name) (interface_device-NodeAt name))
      (λ name _.
        NodeAt-NodeBounded (rdma_device w.os (detect_netns_mode w).0 name)
          (rdma_device-NodeAt w.os (detect_netns_mode w).0 name))
      (NodeAt-NodeBounded virtual_device virtual_device-NodeAt)
      (λ name _ _. (
        NodeAt-NodeBounded (pool_device (lit "macvlan") name)
            (pool_device-NodeAt (lit "macvlan") name),
        NodeAt-NodeBounded (pool_device (lit "ipvlan") name)
            (pool_device-NodeAt (lit "ipvlan") name),
      ))
      d n
