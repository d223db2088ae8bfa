-- ===== src/Rdma/Namespaces.antt =====
-- Entering a pod's network namespace and moving an RDMA device back to the host:
-- `returnRDMAToHost` of pkg/handler/rdma/uverbs.go, and the same steps in `StopPodSandbox` of
-- pkg/nri/plugin.go. Handles are closed at once and locks on OS threads have no effect here.
use dra_multi_things.Base.{
  Str, str_eq, ◌==◌, if◌then◌else◌, lit, Bool, true, false, [], Option, none, some, inl, inr,
}
use dra_multi_things.System.Errors.{Error}
use dra_multi_things.System.Netlink.{Netlink}
use dra_multi_things.System.World.{World}

abbrev pub init_ns : Str
unfolding lit
init_ns = lit "/proc/1/ns/net"

module _ (N : Netlink) where
  abbrev entered_or_not : Option Error × N.State → Bool × N.State
  entered_or_not (none, s) = (true, s)
  entered_or_not (some e, s) = (false, s)

  -- Whether the namespace at the path was entered.
  unfoldable pub enter_pod_ns : Str → N.State → Bool × N.State
  enter_pod_ns path s = if path == [] then (false, s) else elim (N.ns_from_path s path) [
    | inl _ ↦ (false, s)
    | inr pod_ns ↦ entered_or_not (N.ns_set s pod_ns)
  ]

  -- The deferred `netns.Set(hostNS)`, which runs if the pod's namespace was entered.
  unfoldable pub leave_pod_ns : Bool → N.NsHandle → N.State → N.State
  leave_pod_ns true host s = (N.ns_set s host).1
  leave_pod_ns false host s = s

  -- `RdmaLinkByName` and `RdmaLinkSetNsFd`; every error is only logged.
  unfoldable pub move_to_host : N.NsHandle → Str → N.State → N.State
  move_to_host host ib_dev s = elim (N.rdma_link_by_name s ib_dev) [
    | inl _ ↦ s
    | inr link ↦ (N.rdma_link_set_ns_fd s link host).1
  ]

module _ {N : Netlink} where
  -- `returnRDMAToHost`
  unfoldable pub return_rdma_to_host : Str → Str → World N → World N
  unfolding enter_pod_ns leave_pod_ns move_to_host
  return_rdma_to_host ib_dev path w = elim (N.ns_from_path w.net init_ns) [
    | inl _ ↦ w
    | inr host ↦
        let (entered, s) = enter_pod_ns N path w.net in
        record w { net = leave_pod_ns N entered host (move_to_host N host ib_dev s) }
  ]
