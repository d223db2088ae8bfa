-- ===== src/Nri.antt =====
-- The NRI plugin (pkg/nri) and the tracker that it shares with the RDMA handler.
pub mod Tracker
pub mod Uuid
pub mod Plugin
pub mod Lifecycle
