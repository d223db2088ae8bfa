-- ===== src/Main/Table.antt =====
-- The whole table of the registry (`buildHandlerRegistry` of cmd/dra-driver/main.go).
use dra_multi_things.Base.{
  ◌≡◌, refl, Str, str_eq, ◌==◌, if◌then◌else◌, lit, ◌≢◌, true, ◌&&◌, [], ◌∷◌, Option, none, some,
  arith,
}
use dra_multi_things.Base.Dict.{lookup}
use dra_multi_things.Combo.{roce_handler}
use dra_multi_things.Handler.{
  DeviceHandler, device_type_netdev, device_type_rdma, device_type_combo,
}
use dra_multi_things.Handler.Registry.{HandlerRegistry, get, register}
use dra_multi_things.Handler.Registry.Laws.{get-register}
use dra_multi_things.Main.{build_handler_registry}
use dra_multi_things.Netdev.Dummy.{dummy_handler}
use dra_multi_things.Netdev.HostDevice.{host_device_handler}
use dra_multi_things.Netdev.Ipoib.{ipoib_handler}
use dra_multi_things.Netdev.Ipvlan.{ipvlan_handler}
use dra_multi_things.Netdev.Macvlan.{macvlan_handler}
use dra_multi_things.Netdev.Sriov.{sriov_vf_handler}
use dra_multi_things.Netdev.Veth.{veth_handler}
use dra_multi_things.Rdma.Uverbs.{uverbs_handler}
use dra_multi_things.System.Netlink.{Netlink}
use dra_multi_things.System.World.{World}

-- The handler of a netdev kind.
abbrev pub netdev_handler_of : {N : Netlink} → Str → Option (DeviceHandler (World N))
netdev_handler_of kind =
    if lit "ipoib" == kind
    then some ipoib_handler
    else if lit "host-device" == kind
    then some host_device_handler
    else if lit "dummy" == kind
    then some dummy_handler
    else if lit "sriov-vf" == kind
    then some sriov_vf_handler
    else if lit "veth" == kind
    then some veth_handler
    else if lit "ipvlan" == kind
    then some ipvlan_handler
    else if lit "macvlan" == kind
    then some macvlan_handler
    else none

-- The handler of a type and a kind.
abbrev pub handler_of : {N : Netlink} → Str → Str → Option (DeviceHandler (World N))
handler_of typ kind =
    if lit "netdev" == typ
    then netdev_handler_of kind
    else if lit "rdma" == typ
    then (if lit "uverbs" == kind then some (uverbs_handler true) else none)
    else if lit "combo" == typ
    then (if lit "roce" == kind
        then some (roce_handler (uverbs_handler true) dummy_handler)
        else none)
    else none

netdev-ne-rdma : lit "netdev" ≢ lit "rdma"
unfolding lit
netdev-ne-rdma e = cc

netdev-ne-combo : lit "netdev" ≢ lit "combo"
unfolding lit
netdev-ne-combo e = cc

rdma-ne-combo : lit "rdma" ≢ lit "combo"
unfolding lit
rdma-ne-combo e = cc

get-nil : {S : Type 0} (typ kind : Str) → get {S = S} typ kind [] ≡ none
unfolding get lookup
get-nil typ kind = refl

-- `Get` after the registration of a handler with one kind.
get-register_one :
    {S : Type 0} (h : DeviceHandler S) (r : HandlerRegistry S) (t k typ kind : Str)
    → h.typ ≡ t
    → h.kinds ≡ k ∷ []
    → get typ kind (register h r) ≡ (if (t == typ) && (k == kind) then some h else get typ kind r)
get-register_one h r t k typ kind p q = rw (get-register, p, q) (ground arith)

module _ {N : Netlink} (r : HandlerRegistry (World N)) (typ kind : Str) where
  get-ipoib : get typ kind (register ipoib_handler r) ≡ (
      if (lit "netdev" == typ) && (lit "ipoib" == kind) then some ipoib_handler else get typ kind r)
  unfolding ipoib_handler device_type_netdev
  get-ipoib = get-register_one _ r (lit "netdev") (lit "ipoib") typ kind refl refl

  get-host_device : get typ kind (register host_device_handler r) ≡ (
      if (lit "netdev" == typ) && (lit "host-device" == kind)
      then some host_device_handler
      else get typ kind r)
  unfolding host_device_handler device_type_netdev
  get-host_device = get-register_one _ r (lit "netdev") (lit "host-device") typ kind refl refl

  get-dummy : get typ kind (register dummy_handler r) ≡ (
      if (lit "netdev" == typ) && (lit "dummy" == kind) then some dummy_handler else get typ kind r)
  unfolding dummy_handler device_type_netdev
  get-dummy = get-register_one _ r (lit "netdev") (lit "dummy") typ kind refl refl

  get-sriov : get typ kind (register sriov_vf_handler r) ≡ (
      if (lit "netdev" == typ) && (lit "sriov-vf" == kind)
      then some sriov_vf_handler
      else get typ kind r)
  unfolding sriov_vf_handler device_type_netdev
  get-sriov = get-register_one _ r (lit "netdev") (lit "sriov-vf") typ kind refl refl

  get-veth : get typ kind (register veth_handler r) ≡ (
      if (lit "netdev" == typ) && (lit "veth" == kind) then some veth_handler else get typ kind r)
  unfolding veth_handler device_type_netdev
  get-veth = get-register_one _ r (lit "netdev") (lit "veth") typ kind refl refl

  get-ipvlan : get typ kind (register ipvlan_handler r) ≡ (
      if (lit "netdev" == typ) && (lit "ipvlan" == kind)
      then some ipvlan_handler
      else get typ kind r)
  unfolding ipvlan_handler device_type_netdev
  get-ipvlan = get-register_one _ r (lit "netdev") (lit "ipvlan") typ kind refl refl

  get-macvlan : get typ kind (register macvlan_handler r) ≡ (
      if (lit "netdev" == typ) && (lit "macvlan" == kind)
      then some macvlan_handler
      else get typ kind r)
  unfolding macvlan_handler device_type_netdev
  get-macvlan = get-register_one _ r (lit "netdev") (lit "macvlan") typ kind refl refl

  get-uverbs : get typ kind (register (uverbs_handler true) r) ≡ (
      if (lit "rdma" == typ) && (lit "uverbs" == kind)
      then some (uverbs_handler true)
      else get typ kind r)
  unfolding uverbs_handler device_type_rdma
  get-uverbs = get-register_one _ r (lit "rdma") (lit "uverbs") typ kind refl refl

  get-roce : get typ kind (register (roce_handler (uverbs_handler true) dummy_handler) r) ≡ (
      if (lit "combo" == typ) && (lit "roce" == kind)
      then some (roce_handler (uverbs_handler true) dummy_handler)
      else get typ kind r)
  unfolding roce_handler device_type_combo
  get-roce = get-register_one _ r (lit "combo") (lit "roce") typ kind refl refl

-- The registry that the program builds has exactly the documented handlers: the seven kinds of
-- netdev, uverbs of rdma and roce of combo; every other type or kind has none.
pub get-build_handler_registry :
    (N : Netlink) (typ kind : Str)
    → get typ kind (build_handler_registry {N = N}) ≡ handler_of typ kind
unfolding build_handler_registry
get-build_handler_registry N typ kind =
    rw
      (
        get-roce, get-uverbs, get-ipoib, get-host_device, get-dummy, get-sriov, get-veth,
        get-ipvlan, get-macvlan,
      )
      (ground
        (arith, get-nil {S = World N} typ kind, netdev-ne-rdma, netdev-ne-combo, rdma-ne-combo))
