-- ===== src/Driver/Publisher/Rules.antt =====
-- What holds of every device that is published (pkg/driver/publisher.go), loop by loop.
use dra_multi_things.Base.{
  ◌≡◌, ◌≢◌, refl, Str, str_eq, lit, true, false, List, [], ◌∷◌, ◌++◌, All, All-append, arith,
}
use dra_multi_things.Base.Strings.{has_prefix}
use dra_multi_things.Driver.Publisher.{
  Device, DriverResources, is_skipped, is_vf, is_allocatable_interface, vf_device, interface_device,
  network_devices, discover_network_devices, is_physical_interface, rdma_device, rdma_devices,
  pool_device, pool_devices, virtual_device, discover_virtual_pools, discover_rdma_devices,
  all_devices, discover_resources, net_dir, ib_dir,
}
use dra_multi_things.Rdma.Mode.{detect_netns_mode}
use dra_multi_things.System.Netlink.{Netlink}
use dra_multi_things.System.Os.{Os, entries_of}
use dra_multi_things.System.World.{World, NetnsMode}

-- A property of every device of every slice of every pool.
abbrev pub Everywhere : (Device → Type 0) → DriverResources → Type 0
Everywhere P r = All (λ pool. All (λ slice. All P slice.devices) pool.1.slices) r.pools

pub All-Unit : (xs : List Str) → All (λ _. Unit {0}) xs
All-Unit [] = tt
All-Unit (x ∷ xs) = (tt, All-Unit xs)

-- Devices with `P` from entries with `Q`.
module _ (Q : Str → Type 0) (P : Device → Type 0) where
  pub network_devices-All :
      (os : Os) (entries : List Str)
      → All Q entries
      → ((n : Str) → Q n → is_skipped n ≡ false → is_vf os n ≡ true → P (vf_device os n))
      → ((n : Str)
          → Q n
          → is_skipped n ≡ false
          → is_allocatable_interface n ≡ true
          → P (interface_device n))
      → All P (network_devices os entries)
  unfolding network_devices
  network_devices-All os [] qs v i = tt
  network_devices-All os (n ∷ entries) (q, qs) v i =
      ground (arith, network_devices-All os entries qs v i, v n q, i n q)

  pub rdma_devices-All :
      (os : Os) (mode : NetnsMode) (entries : List Str)
      → All Q entries
      → ((n : Str) → Q n → has_prefix n (lit "uverbs") ≡ true → P (rdma_device os mode n))
      → All P (rdma_devices os mode entries)
  unfolding rdma_devices
  rdma_devices-All os mode [] qs h = tt
  rdma_devices-All os mode (n ∷ entries) (q, qs) h =
      ground (arith, rdma_devices-All os mode entries qs h, h n q)

  pub pool_devices-All :
      (os : Os) (entries : List Str)
      → All Q entries
      → ((n : Str)
          → Q n
          → n ≢ lit "lo"
          → is_physical_interface os n ≡ true
          → P (pool_device (lit "macvlan") n) × P (pool_device (lit "ipvlan") n))
      → All P (pool_devices os entries)
  unfolding pool_devices
  pool_devices-All os [] qs h = tt
  pool_devices-All os (n ∷ entries) (q, qs) h =
      ground (arith, pool_devices-All os entries qs h, h n q)

pub discover_network_devices_lem :
    (os : Os) → discover_network_devices os ≡ network_devices os (entries_of os net_dir)
unfolding discover_network_devices network_devices
discover_network_devices_lem os = ground arith

pub discover_virtual_pools_lem :
    (os : Os)
    → discover_virtual_pools os ≡ (virtual_device ∷ pool_devices os (entries_of os net_dir))
unfolding discover_virtual_pools pool_devices
discover_virtual_pools_lem os = ground arith

module _ {N : Netlink} (w : World N) where
  -- Detecting the mode leaves the files alone.
  pub os-detect_netns_mode : (detect_netns_mode w).1.os ≡ w.os
  unfolding detect_netns_mode
  os-detect_netns_mode = ground arith

  pub discover_rdma_devices_lem :
      (discover_rdma_devices w).0
      ≡ rdma_devices w.os (detect_netns_mode w).0 (entries_of w.os ib_dir)
  unfolding discover_rdma_devices rdma_devices
  discover_rdma_devices_lem = ground (arith, os-detect_netns_mode)

  os-discover_rdma_devices : (discover_rdma_devices w).1.os ≡ w.os
  unfolding discover_rdma_devices
  os-discover_rdma_devices = ground (arith, os-detect_netns_mode)

  -- The devices of a node, from the entries of the two directories.
  pub all_devices_lem : (all_devices w).0 ≡ (
      network_devices w.os (entries_of w.os net_dir)
      ++ (rdma_devices w.os (detect_netns_mode w).0 (entries_of w.os ib_dir)
          ++ (virtual_device ∷ pool_devices w.os (entries_of w.os net_dir))))
  unfolding all_devices
  all_devices_lem =
      rw
        (
          os-discover_rdma_devices,
          discover_network_devices_lem w.os,
          discover_virtual_pools_lem w.os,
          discover_rdma_devices_lem,
        )
        refl

  -- A property of each kind of device holds of every device that is published.
  module _ (P : Device → Type 0)
      (vf : (n : Str) → is_skipped n ≡ false → is_vf w.os n ≡ true → P (vf_device w.os n))
      (interface : (n : Str)
        → is_skipped n ≡ false
        → is_allocatable_interface n ≡ true
        → P (interface_device n))
      (rdma : (n : Str)
        → has_prefix n (lit "uverbs") ≡ true
        → P (rdma_device w.os (detect_netns_mode w).0 n))
      (virtual : P virtual_device)
      (pool : (n : Str)
        → n ≢ lit "lo"
        → is_physical_interface w.os n ≡ true
        → P (pool_device (lit "macvlan") n) × P (pool_device (lit "ipvlan") n)) where
    pub all_devices-All : All P (all_devices w).0
    all_devices-All =
        let entries = entries_of w.os net_dir in
        rw all_devices_lem (
          All-append P _ _
            (network_devices-All (λ _. Unit) P w.os entries (All-Unit entries) (λ n _. vf n)
              (λ n _. interface n))
            (All-append P _ _
              (rdma_devices-All (λ _. Unit) P w.os (detect_netns_mode w).0 (entries_of w.os ib_dir)
                (All-Unit _) (λ n _. rdma n))
              (
                virtual,
                pool_devices-All (λ _. Unit) P w.os entries (All-Unit entries) (λ n _. pool n),
              )))

    pub discover_resources-Everywhere :
        (driver_name node_name : Str) → Everywhere P (discover_resources driver_name node_name w).0
    unfolding discover_resources
    discover_resources-Everywhere d n = ((all_devices-All, tt), tt)
