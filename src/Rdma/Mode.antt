-- ===== src/Rdma/Mode.antt =====
-- pkg/handler/rdma/system.go: the RDMA netns mode, asked of the kernel once.
use dra_multi_things.Base.{Str, str_eq, ◌==◌, if◌then◌else◌, lit, none, some, ◌⊎◌, inl, inr}
use dra_multi_things.System.Errors.{Error}
use dra_multi_things.System.Netlink.{Netlink}
use dra_multi_things.System.World.{World, NetnsMode, shared, exclusive}

-- The switch on the kernel's answer; an error counts as shared.
unfoldable pub mode_of : Error ⊎ Str → NetnsMode
unfolding lit
mode_of (inl e) = shared
mode_of (inr mode) = if mode == lit "exclusive" then exclusive else shared

module _ {N : Netlink} where
  -- `DetectNetnsMode`
  unfoldable pub detect_netns_mode : World N → NetnsMode × World N
  unfolding mode_of
  detect_netns_mode w = elim w.cached_mode [
    | some mode ↦ (mode, w)
    | none ↦
        let mode = mode_of (N.rdma_system_mode w.net) in
        (mode, record w { cached_mode = some mode })
  ]

  -- `ResetDetectedMode`
  unfoldable pub reset_detected_mode : World N → World N
  reset_detected_mode w = record w { cached_mode = none }
