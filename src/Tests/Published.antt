-- ===== src/Tests/Published.antt =====
-- What the driver publishes on a small node (pkg/driver/publisher.go).
use dra_multi_things.Base.{
  Among, ◌≡◌, refl, Str, str_eq, nat_eq, lit, true, false, List, [], ◌∷◌, none, some, inl, All,
  NodupStr,
}
use dra_multi_things.Base.Dict.{lookup}
use dra_multi_things.Base.FilePath.{filepath_join}
use dra_multi_things.Base.Strings.{has_prefix, contains_str}
use dra_multi_things.Driver.Publisher.{
  Device, discover_network_devices, discover_virtual_pools, is_vf, is_physical_interface,
  all_devices, discover_resources, discover_rdma_devices, net_dir, ib_dir, rdma_device,
}
use dra_multi_things.Driver.Publisher.Distinct.{NamesApart, discover_resources-NamesApart}
use dra_multi_things.Driver.Publisher.Names.{Plain}
use dra_multi_things.Driver.Publisher.Prepare.{Agrees, prepare-discover_rdma_devices}
use dra_multi_things.Driver.Publisher.Rules.{Everywhere}
use dra_multi_things.Driver.Publisher.Values.{NodeBounded, discover_resources-NodeBounded}
use dra_multi_things.Handler.{PrepareRequest}
use dra_multi_things.Rdma.Mode.{detect_netns_mode}
use dra_multi_things.Rdma.Uverbs.{prepare}
use dra_multi_things.System.Os.{Os, text, read_dir, stat, entries_of, readlink}
use dra_multi_things.System.World.{World, shared}
use dra_multi_things.Tests.Kernel.{kernel}

abbrev device_path : Str → List Str → Str
device_path name rest = filepath_join (lit "/sys/class/net" ∷ name ∷ lit "device" ∷ rest)

-- A node with a physical interface, a virtual function and an RDMA device.
abbrev node_files : Os
node_files = record {
  files =
      (device_path (lit "vf0") (lit "numa_node" ∷ []), text (lit "1"))
      ∷ (lit "/sys/class/infiniband_verbs/uverbs0/ibdev", text (lit "mlx5_0"))
      ∷ (lit "/dev/infiniband/uverbs0", text [])
      ∷ [];
  dirs =
      (lit "/sys/class/net", lit "enp1" ∷ lit "lo" ∷ lit "vf0" ∷ [])
      ∷ (lit "/dev/infiniband", lit "rdma_cm" ∷ lit "uverbs0" ∷ [])
      ∷ (device_path (lit "vf0") (lit "physfn" ∷ lit "net" ∷ []), lit "enp1" ∷ [])
      ∷ [];
  symlinks =
      (device_path (lit "enp1") [], lit "../../../0000:3b:00.0")
      ∷ (device_path (lit "vf0") [], lit "../../../0000:3b:00.2")
      ∷ (device_path (lit "vf0") (lit "physfn" ∷ []), lit "../0000:3b:00.0")
      ∷ [];
  refuses = λ _ _. false;
}

abbrev node_world : World (kernel true)
node_world = record {
  net = record { links = []; namespace = 0 };
  os = node_files;
  tracker = record { pending = []; active = [] };
  cached_mode = some shared;
}

abbrev names : List Device → List Str
names [] = []
names (d ∷ ds) = d.name ∷ names ds

published_names : names (all_devices node_world).0 ≡ (
    lit "netdev-enp1"
    ∷ lit "vf0"
    ∷ lit "uverbs0"
    ∷ lit "netdev-virtual"
    ∷ lit "enp1-macvlan-pool"
    ∷ lit "enp1-ipvlan-pool"
    ∷ lit "vf0-macvlan-pool"
    ∷ lit "vf0-ipvlan-pool"
    ∷ [])
unfolding all_devices discover_network_devices discover_rdma_devices discover_virtual_pools read_dir
    readlink stat lookup str_eq nat_eq net_dir ib_dir has_prefix contains_str is_vf filepath_join
    detect_netns_mode is_physical_interface lit
published_names = refl

discover_resources-NodeBounded_example :
    Everywhere NodeBounded (discover_resources (lit "dra.example.com") (lit "node-1") node_world).0
discover_resources-NodeBounded_example =
    discover_resources-NodeBounded (lit "dra.example.com") (lit "node-1") node_world

-- The entries of the two directories.
nets_once : NodupStr (entries_of node_files net_dir)
unfolding read_dir net_dir lookup lit str_eq
nets_once = (refl, (refl, (refl, tt)))

devs_once : NodupStr (entries_of node_files ib_dir)
unfolding read_dir ib_dir lookup lit str_eq
devs_once = (refl, (refl, tt))

nets-Plain : All Plain (entries_of node_files net_dir)
unfolding read_dir net_dir lookup lit str_eq nat_eq has_prefix
nets-Plain = ((refl, refl), ((refl, refl), ((refl, refl), tt)))

discover_resources-NamesApart_example :
    NamesApart (discover_resources (lit "dra.example.com") (lit "node-1") node_world).0
discover_resources-NamesApart_example =
    discover_resources-NamesApart (lit "dra.example.com") (lit "node-1") node_world nets_once
      devs_once nets-Plain

abbrev request : PrepareRequest
request = record {
  claim_uid = lit "12345678-aaaa-bbbb-cccc-123456789abc";
  namespace = lit "ns";
  claim_name = lit "claim";
  allocated_device = lit "uverbs0";
  config = record { typ = lit "rdma"; netdev = none; rdma = none; combo = none };
}

abbrev uverbs0 : Device
uverbs0 = rdma_device node_files shared (lit "uverbs0")

uverbs0_published : Among uverbs0 (discover_rdma_devices node_world).0
unfolding discover_rdma_devices detect_netns_mode read_dir ib_dir lookup lit str_eq nat_eq
    has_prefix
uverbs0_published = inl refl

uverbs0_name : request.allocated_device ≡ uverbs0.name
unfolding rdma_device
uverbs0_name = refl

uverbs0_stat : stat node_files (filepath_join (ib_dir ∷ uverbs0.name ∷ [])) ≡ true
unfolding rdma_device stat filepath_join ib_dir lookup lit str_eq nat_eq
uverbs0_stat = refl

prepare-discover_rdma_devices_example : Agrees uverbs0 (prepare true request node_world).0
prepare-discover_rdma_devices_example =
    prepare-discover_rdma_devices true node_world node_world uverbs0 request uverbs0_published refl
      uverbs0_name uverbs0_stat
