-- ===== src/Netdev/Dummy.antt =====
-- pkg/handler/netdev/dummy.go: `DummyHandler`.
use dra_multi_things.Base.{str_eq, lit, [], ◌∷◌, ◌++◌, Option, none, some}
use dra_multi_things.Handler.{
  PrepareRequest, PrepareResult, UnprepareRequest, DeviceConfig, DeviceHandler, device_type_netdev,
}
use dra_multi_things.Netdev.Create.{or_default, new_attrs, netdev_result, unprepare_created}
use dra_multi_things.System.Errors.{Error, errorf}
use dra_multi_things.System.Monad.{
  M, pure, ◌>>=◌, ◌>>◌, require, wrap, on_error, slice_to, link_by_name, link_add, link_del,
  link_set_up,
}
use dra_multi_things.System.Netlink.{Netlink, Link}
use dra_multi_things.System.World.{World}

unfoldable pub validate : DeviceConfig → Option Error
validate cfg = elim cfg.netdev [
  | none ↦ some (errorf "netdev config is required for dummy" [])
  | some c ↦ none
]

module _ {N : Netlink} where
  unfoldable pub prepare : PrepareRequest → M (World N) PrepareResult
  prepare req = do
    cfg ← require req.config.netdev (errorf "netdev config is required for dummy" [])
    uid ← slice_to 8 req.claim_uid
    let if_name = lit "dm" ++ uid
    let container_name = or_default cfg.interface_name (lit "eth1")
    let dummy = Link.dummy (new_attrs if_name cfg)
    wrap "failed to create dummy interface %s: %w" (if_name ∷ []) (link_add dummy)
    link ← on_error (link_del dummy) (
        wrap "failed to find dummy interface %s after creation: %w" (if_name ∷ [])
          (link_by_name if_name))
    on_error (link_del link)
        (wrap "failed to bring up dummy interface %s: %w" (if_name ∷ []) (link_set_up link))
    pure (
        netdev_result (lit "dummy") req.claim_uid if_name container_name
          ((lit "createdInterface", if_name) ∷ (lit "containerName", container_name) ∷ []))

  unfoldable pub unprepare : UnprepareRequest → M (World N) (Unit {0})
  unfolding unprepare_created
  unprepare = unprepare_created "createdInterface" "failed to delete dummy interface %s: %w"

  unfoldable pub dummy_handler : DeviceHandler (World N)
  unfolding lit
  dummy_handler = record {
    typ = device_type_netdev;
    kinds = lit "dummy" ∷ [];
    prepare = prepare;
    unprepare = unprepare;
    validate = validate;
  }
