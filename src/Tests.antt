-- ===== src/Tests.antt =====
-- Concrete runs of the theorems.
pub mod Kernel
mod Links
mod Pods
mod Claims
mod Rdma
mod Restored
mod Recalled
mod Published
mod Lives
mod Runs
