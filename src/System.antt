-- ===== src/System.antt =====
-- What the driver runs on: the kernel behind the netlink and netns packages, the files, and the
-- state of the process that the handlers share. A step of the program takes this world to an
-- outcome and the world after it.
pub mod Errors
pub mod Netlink
pub mod Os
pub mod World
pub mod Monad
pub mod Triple
