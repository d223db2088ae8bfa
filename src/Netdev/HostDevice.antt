-- ===== src/Netdev/HostDevice.antt =====
-- pkg/handler/netdev/host_device.go: `HostDeviceHandler`.
use dra_multi_things.Base.{str_eq, ◌==◌, if◌then◌else◌, lit, not, [], ◌∷◌, Option, none, some}
use dra_multi_things.Base.Int.{is_positive}
use dra_multi_things.Handler.{
  PrepareRequest, PrepareResult, UnprepareRequest, DeviceConfig, DeviceHandler, device_type_netdev,
}
use dra_multi_things.Netdev.Create.{or_default, netdev_result}
use dra_multi_things.System.Errors.{Error, errorf}
use dra_multi_things.System.Monad.{
  M, pure, ◌>>=◌, ◌>>◌, require, guard, wrap, link_by_name, link_set_mtu,
}
use dra_multi_things.System.Netlink.{Netlink}
use dra_multi_things.System.World.{World}

unfoldable pub validate : DeviceConfig → Option Error
validate cfg = elim cfg.netdev [
  | none ↦ some (errorf "netdev config is required for host-device" [])
  | some c ↦
      if c.host_device == []
      then some (
          errorf "hostDevice (the name of the existing host interface) is required for host-device"
            [])
      else none
]

module _ {N : Netlink} where
  unfoldable pub prepare : PrepareRequest → M (World N) PrepareResult
  prepare req = do
    cfg ← require req.config.netdev (errorf "netdev config is required for host-device" [])
    let host_if = cfg.host_device
    guard (not (host_if == [])) (errorf "hostDevice is required for host-device" [])
    let container_name = or_default cfg.interface_name host_if
    link ← wrap "host interface %q not found: %w" (host_if ∷ []) (link_by_name host_if)
    if is_positive cfg.mtu
        then wrap "failed to set MTU on %s: %w" (host_if ∷ []) (link_set_mtu link cfg.mtu)
        else pure tt
    pure (
        netdev_result (lit "host-device") req.claim_uid host_if container_name
          ((lit "hostDevice", host_if) ∷ (lit "containerName", container_name) ∷ []))

  -- The interface belongs to another system and stays.
  unfoldable pub unprepare : UnprepareRequest → M (World N) (Unit {0})
  unprepare req = pure tt

  unfoldable pub host_device_handler : DeviceHandler (World N)
  unfolding lit
  host_device_handler = record {
    typ = device_type_netdev;
    kinds = lit "host-device" ∷ [];
    prepare = prepare;
    unprepare = unprepare;
    validate = validate;
  }
