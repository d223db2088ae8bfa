-- ===== src/System/World.antt =====
-- The state that the handlers share: the kernel, the files, the RDMA tracker (pkg/nri/tracker.go)
-- and the cached RDMA netns mode (pkg/handler/rdma/system.go).

use dra_multi_things.Base.{Option}
use dra_multi_things.Nri.Tracker.{RdmaNetnsTracker}
use dra_multi_things.System.Netlink.{Netlink}
use dra_multi_things.System.Os.{Os}

-- The RDMA netns mode of `rdma.NetnsMode`.
pub data NetnsMode : Type 0 where
  shared exclusive : NetnsMode

pub record World (N : Netlink) : Type 0 where
  pub net : N.State
  pub os : Os
  pub tracker : RdmaNetnsTracker
  -- `cachedMode`, once `detectOnce` has run.
  pub cached_mode : Option NetnsMode
