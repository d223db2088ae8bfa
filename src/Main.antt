-- ===== src/Main.antt =====
-- cmd/dra-driver/main.go: the registry with every handler of the driver.
pub mod Table
pub mod Every
pub mod Behaviour
pub mod Repeat
pub mod Recall
pub mod Calls
pub mod Links
pub mod Cycle
pub mod Persists
pub mod Files
pub mod Restart
pub mod Life
pub mod Run
use dra_multi_things.Base.{Bool, true, List, [], ◌∷◌}
use dra_multi_things.Combo.{roce_handler}
use dra_multi_things.Handler.{DeviceHandler}
use dra_multi_things.Handler.Registry.{HandlerRegistry, new_handler_registry, register}
use dra_multi_things.Netdev.Dummy.{dummy_handler}
use dra_multi_things.Netdev.HostDevice.{host_device_handler}
use dra_multi_things.Netdev.Ipoib.{ipoib_handler}
use dra_multi_things.Netdev.Ipvlan.{ipvlan_handler}
use dra_multi_things.Netdev.Macvlan.{macvlan_handler}
use dra_multi_things.Netdev.Sriov.{sriov_vf_handler}
use dra_multi_things.Netdev.Veth.{veth_handler}
use dra_multi_things.Rdma.Uverbs.{uverbs_handler}
use dra_multi_things.System.Netlink.{Netlink}
use dra_multi_things.System.World.{World}

module _ {N : Netlink} where
  -- `buildHandlerRegistry`
  unfoldable pub build_handler_registry : HandlerRegistry (World N)
  build_handler_registry = register (roce_handler (uverbs_handler true) dummy_handler) (
      register (uverbs_handler true) (
        register ipoib_handler (
          register host_device_handler (
            register dummy_handler (
              register sriov_vf_handler (
                register veth_handler
                  (register ipvlan_handler (register macvlan_handler new_handler_registry))))))))
