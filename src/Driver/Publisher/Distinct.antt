-- ===== src/Driver/Publisher/Distinct.antt =====
-- No two published devices have the same name (pkg/driver/publisher.go).
use dra_multi_things.Base.{
  ◌≡◌, ◌≢◌, refl, ap, sym, ◌∙◌, Str, str_eq, nat_eq, lit, true, false, List, [], ◌∷◌, ◌++◌, ◌⊎◌,
  inl, inr, arith, All, All-append, contains, NodupStr,
}
use dra_multi_things.Driver.Publisher.{
  Device, DriverResources, discover_resources, is_allocatable_interface, vf_device,
  interface_device, network_devices, rdma_device, rdma_devices, pool_device, pool_devices,
  virtual_device, all_devices, net_dir, ib_dir,
}
use dra_multi_things.Driver.Publisher.Names.{
  dashes, Plain, NetName, RdmaName, dashes-netdev, PoolName, pool_name, append_dash_inj,
  net-ne-rdma, rdma-ne-pool, net-ne-pool, netdev_inj, net-ne-virtual, rdma-ne-virtual,
  virtual-ne-pool, virtual-not-allocatable,
}
use dra_multi_things.Driver.Publisher.Rules.{
  network_devices-All, rdma_devices-All, pool_devices-All, all_devices_lem, All-Unit,
}
use dra_multi_things.System.Netlink.{Netlink}
use dra_multi_things.System.Os.{Os, entries_of}
use dra_multi_things.System.World.{World, NetnsMode}

-- No two devices have the same name.
abbrev pub Distinct : List Device → Type 0
Distinct [] = Unit
Distinct (d ∷ ds) = All (λ e. d.name ≢ e.name) ds × Distinct ds

All-weaken :
    {A : Type 0} (P Q : A → Type 0) (xs : List A) → ((x : A) → P x → Q x) → All P xs → All Q xs
All-weaken P Q [] f p = tt
All-weaken P Q (x ∷ xs) f (p, ps) = (f x p, All-weaken P Q xs f ps)

All-and :
    {A : Type 0} (P Q : A → Type 0) (xs : List A) → All P xs → All Q xs → All (λ x. P x × Q x) xs
All-and P Q [] p q = tt
All-and P Q (x ∷ xs) (p, ps) (q, qs) = ((p, q), All-and P Q xs ps qs)

Distinct-append :
    (P Q : Device → Type 0) (xs ys : List Device)
    → ((a b : Device) → P a → Q b → a.name ≢ b.name)
    → All P xs
    → All Q ys
    → Distinct xs
    → Distinct ys
    → Distinct (xs ++ ys)
Distinct-append P Q [] ys f p q u v = v
Distinct-append P Q (x ∷ xs) ys f (p, ps) q (n, u) v = (
  All-append _ xs ys n (All-weaken Q _ ys (λ b. f x b p) q),
  Distinct-append P Q xs ys f ps q u v,
)

-- A text that a list does not contain differs from its elements.
ne-All : (n : Str) (entries : List Str) → contains entries n ≡ false → All (λ m. n ≢ m) entries
ne-All n [] h = tt
ne-All n (m ∷ entries) h = ((λ e. ground arith), ne-All n entries (ground arith))

abbrev NetDevice : Device → Type 0
NetDevice d = NetName d.name

vf-NetName : (os : Os) (n : Str) → Plain n → NetDevice (vf_device os n)
unfolding vf_device
vf-NetName os n p = inl p

allocatable-ne : (n : Str) → is_allocatable_interface n ≡ true → n ≢ lit "virtual"
allocatable-ne n h e = cc virtual-not-allocatable

interface-NetName :
    (n : Str) → Plain n → is_allocatable_interface n ≡ true → NetDevice (interface_device n)
unfolding interface_device
interface-NetName n (d, u) h = inr (n, refl, d, allocatable-ne n h)

network_devices-NetName :
    (os : Os) (entries : List Str) → All Plain entries → All NetDevice (network_devices os entries)
network_devices-NetName os entries p =
    network_devices-All Plain NetDevice os entries p (λ n q _ _. vf-NetName os n q)
      (λ n q _ h. interface-NetName n q h)

-- The devices of other interfaces have other names.
vf-ne :
    (os : Os) (n : Str) (entries : List Str)
    → Plain n
    → All (λ m. (n ≢ m) × Plain m) entries
    → All (λ e. (vf_device os n).name ≢ e.name) (network_devices os entries)
unfolding vf_device interface_device
vf-ne os n entries p h =
    network_devices-All (λ m. (n ≢ m) × Plain m) (λ e. n ≢ e.name) os entries h (λ m q _ _. q.0)
      (λ m q _ _ e. omega (arith, ap dashes e, dashes-netdev m, p.0))

interface-ne :
    (os : Os) (n : Str) (entries : List Str)
    → Plain n
    → All (λ m. (n ≢ m) × Plain m) entries
    → All (λ e. (interface_device n).name ≢ e.name) (network_devices os entries)
unfolding vf_device interface_device
interface-ne os n entries p h =
    network_devices-All (λ m. (n ≢ m) × Plain m) (λ e. (lit "netdev-" ++ n) ≢ e.name) os entries h
      (λ m q _ _ e. omega (arith, ap dashes e, dashes-netdev n, q.1.0))
      (λ m q _ _ e. q.0 (netdev_inj n m e))

network_devices-Distinct :
    (os : Os) (entries : List Str)
    → NodupStr entries
    → All Plain entries
    → Distinct (network_devices os entries)
unfolding network_devices
network_devices-Distinct os [] u p = tt
network_devices-Distinct os (n ∷ entries) (fresh, u) (p, ps) =
    let others = All-and (λ m. n ≢ m) Plain entries (ne-All n entries fresh) ps in
    ground (
      arith,
      network_devices-Distinct os entries u ps,
      vf-ne os n entries p others,
      interface-ne os n entries p others,
    )

rdma_devices-RdmaName :
    (os : Os) (mode : NetnsMode) (entries : List Str)
    → All (λ d. RdmaName d.name) (rdma_devices os mode entries)
unfolding rdma_device
rdma_devices-RdmaName os mode entries =
    rdma_devices-All (λ _. Unit) (λ d. RdmaName d.name) os mode entries (All-Unit entries)
      (λ n _ h. h)

rdma-ne :
    (os : Os) (mode : NetnsMode) (n : Str) (entries : List Str)
    → All (λ m. n ≢ m) entries
    → All (λ e. (rdma_device os mode n).name ≢ e.name) (rdma_devices os mode entries)
unfolding rdma_device
rdma-ne os mode n entries h =
    rdma_devices-All (λ m. n ≢ m) (λ e. n ≢ e.name) os mode entries h (λ m q _. q)

rdma_devices-Distinct :
    (os : Os) (mode : NetnsMode) (entries : List Str)
    → NodupStr entries
    → Distinct (rdma_devices os mode entries)
unfolding rdma_devices
rdma_devices-Distinct os mode [] u = tt
rdma_devices-Distinct os mode (n ∷ entries) (fresh, u) = ground (
  arith,
  rdma_devices-Distinct os mode entries u,
  rdma-ne os mode n entries (ne-All n entries fresh),
)

pool-PoolName : (kind n : Str) → Plain n → PoolName (pool_device kind n).name
unfolding pool_device
pool-PoolName kind n p = (n, kind, refl, p)

pool_devices-PoolName :
    (os : Os) (entries : List Str)
    → All Plain entries
    → All (λ d. PoolName d.name) (pool_devices os entries)
pool_devices-PoolName os entries p =
    pool_devices-All Plain (λ d. PoolName d.name) os entries p
      (λ n q _ _. (pool-PoolName (lit "macvlan") n q, pool-PoolName (lit "ipvlan") n q))

pool-ne :
    (os : Os) (kind n : Str) (entries : List Str)
    → Plain n
    → All (λ m. (n ≢ m) × Plain m) entries
    → All (λ e. (pool_device kind n).name ≢ e.name) (pool_devices os entries)
unfolding pool_device
pool-ne os kind n entries p h =
    pool_devices-All (λ m. (n ≢ m) × Plain m) (λ e. pool_name kind n ≢ e.name) os entries h
      (λ m q _ _. (
        (λ e. q.0 (append_dash_inj n m _ _ p.0 q.1.0 e).0),
        (λ e. q.0 (append_dash_inj n m _ _ p.0 q.1.0 e).0),
      ))

-- The two pools of a parent.
kinds_apart : lit "macvlan" ++ lit "-pool" ≢ lit "ipvlan" ++ lit "-pool"
unfolding lit
kinds_apart e = ground arith

kinds_ne :
    (n : Str) → Plain n → (pool_device (lit "macvlan") n).name ≢ (pool_device (lit "ipvlan") n).name
unfolding pool_device
kinds_ne n p e = kinds_apart (append_dash_inj n n _ _ p.0 p.0 e).1

pool_devices-Distinct :
    (os : Os) (entries : List Str)
    → NodupStr entries
    → All Plain entries
    → Distinct (pool_devices os entries)
unfolding pool_devices
pool_devices-Distinct os [] u p = tt
pool_devices-Distinct os (n ∷ entries) (fresh, u) (p, ps) =
    let others = All-and (λ m. n ≢ m) Plain entries (ne-All n entries fresh) ps in
    ground (
      arith,
      pool_devices-Distinct os entries u ps,
      pool-ne os (lit "macvlan") n entries p others,
      pool-ne os (lit "ipvlan") n entries p others,
      kinds_ne n p,
    )

virtual_name : virtual_device.name ≡ lit "netdev-virtual"
unfolding virtual_device
virtual_name = refl

abbrev Late : Device → Type 0
Late d = (d.name ≡ lit "netdev-virtual") ⊎ PoolName d.name

net-ne-Late : (a b : Device) → NetDevice a → Late b → a.name ≢ b.name
net-ne-Late a b p (inl e) h = net-ne-virtual a.name p (h ∙ e)
net-ne-Late a b p (inr q) h = net-ne-pool a.name b.name p q h

rdma-ne-Late : (a b : Device) → RdmaName a.name → Late b → a.name ≢ b.name
rdma-ne-Late a b p (inl e) h = rdma-ne-virtual a.name p (h ∙ e)
rdma-ne-Late a b p (inr q) h = rdma-ne-pool a.name b.name p q h

module _ (os : Os) (mode : NetnsMode) (nets ibs : List Str) (u : NodupStr nets) (v : NodupStr ibs)
    (p : All Plain nets) where
  Late-pools : All Late (virtual_device ∷ pool_devices os nets)
  Late-pools = (
    inl virtual_name,
    All-weaken (λ d. PoolName d.name) Late _ (λ d. inr) (pool_devices-PoolName os nets p),
  )

  late-Distinct : Distinct (virtual_device ∷ pool_devices os nets)
  late-Distinct = (
    All-weaken (λ d. PoolName d.name) (λ e. virtual_device.name ≢ e.name) _
        (λ d q h. virtual-ne-pool d.name q (sym virtual_name ∙ h))
        (pool_devices-PoolName os nets p),
    pool_devices-Distinct os nets u p,
  )

  -- The RDMA devices, the virtual device and the pools.
  rest-Distinct : Distinct (rdma_devices os mode ibs ++ (virtual_device ∷ pool_devices os nets))
  rest-Distinct =
      Distinct-append (λ d. RdmaName d.name) Late _ _ rdma-ne-Late
        (rdma_devices-RdmaName os mode ibs) Late-pools (rdma_devices-Distinct os mode ibs v)
        late-Distinct

  abbrev Rest : Device → Type 0
  Rest d = RdmaName d.name ⊎ Late d

  net-ne-Rest : (a b : Device) → NetDevice a → Rest b → a.name ≢ b.name
  net-ne-Rest a b q (inl r) h = net-ne-rdma a.name b.name q r h
  net-ne-Rest a b q (inr l) h = net-ne-Late a b q l h

  Rest-devices : All Rest (rdma_devices os mode ibs ++ (virtual_device ∷ pool_devices os nets))
  Rest-devices =
      All-append Rest _ _
        (All-weaken (λ d. RdmaName d.name) Rest _ (λ d. inl) (rdma_devices-RdmaName os mode ibs))
        (All-weaken Late Rest (virtual_device ∷ pool_devices os nets) (λ d. inr) Late-pools)

  listed-Distinct : Distinct (
      network_devices os nets
      ++ (rdma_devices os mode ibs ++ (virtual_device ∷ pool_devices os nets)))
  listed-Distinct =
      Distinct-append NetDevice Rest _ _ net-ne-Rest (network_devices-NetName os nets p)
        Rest-devices (network_devices-Distinct os nets u p) rest-Distinct

all_devices-Distinct :
    {N : Netlink} (w : World N)
    → NodupStr (entries_of w.os net_dir)
    → NodupStr (entries_of w.os ib_dir)
    → All Plain (entries_of w.os net_dir)
    → Distinct (all_devices w).0
all_devices-Distinct w u v p = rw (all_devices_lem w) (listed-Distinct w.os _ _ _ u v p)

-- No two devices of a slice have the same name.
abbrev pub NamesApart : DriverResources → Type 0
NamesApart r = All (λ pool. All (λ slice. Distinct slice.devices) pool.1.slices) r.pools

-- No two devices that `DiscoverResources` publishes have the same name, if both directories list
-- each entry once, and no network interface has a dash in its name or begins with `uverbs`.
pub discover_resources-NamesApart :
    {N : Netlink} (driver_name node_name : Str) (w : World N)
    → NodupStr (entries_of w.os net_dir)
    → NodupStr (entries_of w.os ib_dir)
    → All Plain (entries_of w.os net_dir)
    → NamesApart (discover_resources driver_name node_name w).0
unfolding discover_resources
discover_resources-NamesApart driver_name node_name w u v p =
    ((all_devices-Distinct w u v p, tt), tt)
