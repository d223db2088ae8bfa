-- ===== src/Netdev.antt =====
-- pkg/handler/netdev: one handler for each kind of network interface.
pub mod Create
pub mod Dummy
pub mod Macvlan
pub mod Ipvlan
pub mod Veth
pub mod HostDevice
pub mod Ipoib
pub mod Sriov
pub mod Undo
pub mod Rollback
pub mod RoundTrip
pub mod Physical
