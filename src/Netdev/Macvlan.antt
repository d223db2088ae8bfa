-- ===== src/Netdev/Macvlan.antt =====
-- pkg/handler/netdev/macvlan.go: `MacvlanHandler`.
use dra_multi_things.Base.{
  Str, str_eq, ◌==◌, if◌then◌else◌, lit, not, [], ◌∷◌, ◌++◌, ◌||◌, Option, none, some,
}
use dra_multi_things.Handler.{
  PrepareRequest, PrepareResult, UnprepareRequest, DeviceConfig, DeviceHandler, device_type_netdev,
}
use dra_multi_things.Netdev.Create.{
  or_default, new_attrs, netdev_result, add_and_up, unprepare_created,
}
use dra_multi_things.System.Errors.{Error, errorf}
use dra_multi_things.System.Monad.{
  M, pure, ◌>>=◌, ◌>>◌, require, guard, wrap, slice_to, link_by_name,
}
use dra_multi_things.System.Netlink.{Netlink, Link, attrs, MacvlanMode, bridge, vepa, private}
use dra_multi_things.System.World.{World}

unfoldable pub validate : DeviceConfig → Option Error
validate cfg = elim cfg.netdev [
  | none ↦ some (errorf "netdev config is required for macvlan" [])
  | some c ↦
      if c.parent == [] then some (errorf "parent interface is required for macvlan" []) else none
]

-- The switch on `cfg.Mode`; `none` is its default case.
unfoldable pub mode_of : Str → Option MacvlanMode
unfolding lit
mode_of mode =
    if mode == lit "vepa"
    then some vepa
    else if mode == lit "private"
    then some private
    else if mode == lit "bridge" || mode == []
    then some bridge
    else none

module _ {N : Netlink} where
  unfoldable pub prepare : PrepareRequest → M (World N) PrepareResult
  prepare req = do
    cfg ← require req.config.netdev (errorf "netdev config is required for macvlan" [])
    guard (not (cfg.parent == [])) (errorf "parent interface is required for macvlan" [])
    mode ← require (mode_of cfg.mode) (errorf "unsupported macvlan mode: %s" (cfg.mode ∷ []))
    uid ← slice_to 8 req.claim_uid
    let if_name = lit "mv" ++ uid
    let container_name = or_default cfg.interface_name (lit "eth1")
    parent_link ←
        wrap "parent interface %s not found: %w" (cfg.parent ∷ []) (link_by_name cfg.parent)
    add_and_up "failed to create macvlan interface %s: %w"
        "failed to bring up macvlan interface %s: %w"
        (Link.macvlan (record (new_attrs if_name cfg) { parent_index = (attrs parent_link).index })
          mode)
        (if_name ∷ []) (if_name ∷ [])
    pure (
        netdev_result (lit "macvlan") req.claim_uid if_name container_name (
          (lit "createdInterface", if_name)
          ∷ (lit "parent", cfg.parent)
          ∷ (lit "containerName", container_name)
          ∷ []))

  unfoldable pub unprepare : UnprepareRequest → M (World N) (Unit {0})
  unfolding unprepare_created
  unprepare = unprepare_created "createdInterface" "failed to delete macvlan interface %s: %w"

  unfoldable pub macvlan_handler : DeviceHandler (World N)
  unfolding lit
  macvlan_handler = record {
    typ = device_type_netdev;
    kinds = lit "macvlan" ∷ [];
    prepare = prepare;
    unprepare = unprepare;
    validate = validate;
  }
