-- ===== src/Rdma.antt =====
-- pkg/handler/rdma: the RDMA netns mode and the handler of uverbs devices.
pub mod Mode
pub mod Namespaces
pub mod Uverbs
