-- ===== src/Netdev/Ipvlan.antt =====
-- pkg/handler/netdev/ipvlan.go: `IpvlanHandler`.
use dra_multi_things.Base.{
  Str, str_eq, ◌==◌, if◌then◌else◌, lit, not, [], ◌∷◌, ◌++◌, ◌||◌, Option, none, some,
}
use dra_multi_things.Handler.{
  PrepareRequest, PrepareResult, UnprepareRequest, DeviceConfig, DeviceHandler, device_type_netdev,
}
use dra_multi_things.Netdev.Create.{
  or_default, new_attrs, netdev_result, add_and_up, unprepare_created,
}
use dra_multi_things.System.Errors.{Error, errorf}
use dra_multi_things.System.Monad.{
  M, pure, ◌>>=◌, ◌>>◌, require, guard, wrap, slice_to, link_by_name,
}
use dra_multi_things.System.Netlink.{Netlink, Link, attrs, IpvlanMode, l2, l3}
use dra_multi_things.System.World.{World}

unfoldable pub validate : DeviceConfig → Option Error
validate cfg = elim cfg.netdev [
  | none ↦ some (errorf "netdev config is required for ipvlan" [])
  | some c ↦
      if c.parent == [] then some (errorf "parent interface is required for ipvlan" []) else none
]

-- The switch on `cfg.Mode`; `none` is its default case.
unfoldable pub mode_of : Str → Option IpvlanMode
unfolding lit
mode_of mode =
    if mode == lit "l3" then some l3 else if mode == lit "l2" || mode == [] then some l2 else none

module _ {N : Netlink} where
  unfoldable pub prepare : PrepareRequest → M (World N) PrepareResult
  prepare req = do
    cfg ← require req.config.netdev (errorf "netdev config is required for ipvlan" [])
    guard (not (cfg.parent == [])) (errorf "parent interface is required for ipvlan" [])
    mode ← require (mode_of cfg.mode) (errorf "unsupported ipvlan mode: %s" (cfg.mode ∷ []))
    uid ← slice_to 8 req.claim_uid
    let if_name = lit "iv" ++ uid
    let container_name = or_default cfg.interface_name (lit "eth1")
    parent_link ←
        wrap "parent interface %s not found: %w" (cfg.parent ∷ []) (link_by_name cfg.parent)
    add_and_up "failed to create ipvlan interface %s: %w"
        "failed to bring up ipvlan interface %s: %w"
        (Link.ipvlan (record (new_attrs if_name cfg) { parent_index = (attrs parent_link).index })
          mode)
        (if_name ∷ []) (if_name ∷ [])
    pure (
        netdev_result (lit "ipvlan") req.claim_uid if_name container_name (
          (lit "createdInterface", if_name)
          ∷ (lit "parent", cfg.parent)
          ∷ (lit "containerName", container_name)
          ∷ []))

  unfoldable pub unprepare : UnprepareRequest → M (World N) (Unit {0})
  unfolding unprepare_created
  unprepare = unprepare_created "createdInterface" "failed to delete ipvlan interface %s: %w"

  unfoldable pub ipvlan_handler : DeviceHandler (World N)
  unfolding lit
  ipvlan_handler = record {
    typ = device_type_netdev;
    kinds = lit "ipvlan" ∷ [];
    prepare = prepare;
    unprepare = unprepare;
    validate = validate;
  }
