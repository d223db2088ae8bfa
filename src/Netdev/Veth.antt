-- ===== src/Netdev/Veth.antt =====
-- pkg/handler/netdev/veth.go: `VethHandler`.
use dra_multi_things.Base.{str_eq, lit, [], ◌∷◌, ◌++◌, Option, none, some}
use dra_multi_things.Handler.{
  PrepareRequest, PrepareResult, UnprepareRequest, DeviceConfig, DeviceHandler, device_type_netdev,
}
use dra_multi_things.Netdev.Create.{or_default, new_attrs, netdev_result, unprepare_created}
use dra_multi_things.System.Errors.{Error, errorf}
use dra_multi_things.System.Monad.{
  M, pure, ◌>>=◌, ◌>>◌, require, wrap, on_error, slice_to, link_by_name, link_add, link_del,
  link_set_up,
}
use dra_multi_things.System.Netlink.{Netlink, Link}
use dra_multi_things.System.World.{World}

unfoldable pub validate : DeviceConfig → Option Error
validate cfg = elim cfg.netdev [
  | none ↦ some (errorf "netdev config is required for veth" [])
  | some c ↦ none
]

module _ {N : Netlink} where
  unfoldable pub prepare : PrepareRequest → M (World N) PrepareResult
  prepare req = do
    cfg ← require req.config.netdev (errorf "netdev config is required for veth" [])
    uid ← slice_to 8 req.claim_uid
    let host_end = lit "vh" ++ uid
    let container_end = lit "vc" ++ uid
    let container_name = or_default cfg.interface_name (lit "eth1")
    let veth = Link.veth (new_attrs host_end cfg) container_end
    wrap "failed to create veth pair %s/%s: %w" (host_end ∷ container_end ∷ []) (link_add veth)
    host_link ←
        on_error (link_del veth)
          (wrap "failed to find host veth %s: %w" (host_end ∷ []) (link_by_name host_end))
    on_error (link_del veth)
        (wrap "failed to bring up host veth %s: %w" (host_end ∷ []) (link_set_up host_link))
    container_link ← on_error (link_del veth) (
        wrap "failed to find container veth %s: %w" (container_end ∷ [])
          (link_by_name container_end))
    on_error (link_del veth) (
        wrap "failed to bring up container veth %s: %w" (container_end ∷ [])
          (link_set_up container_link))
    pure (
        netdev_result (lit "veth") req.claim_uid container_end container_name (
          (lit "hostEnd", host_end)
          ∷ (lit "containerEnd", container_end)
          ∷ (lit "containerName", container_name)
          ∷ []))

  -- Deleting one end of the pair deletes both.
  unfoldable pub unprepare : UnprepareRequest → M (World N) (Unit {0})
  unfolding unprepare_created
  unprepare = unprepare_created "hostEnd" "failed to delete veth pair (host=%s): %w"

  unfoldable pub veth_handler : DeviceHandler (World N)
  unfolding lit
  veth_handler = record {
    typ = device_type_netdev;
    kinds = lit "veth" ∷ [];
    prepare = prepare;
    unprepare = unprepare;
    validate = validate;
  }
