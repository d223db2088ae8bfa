-- ===== src/Nri/Plugin/Stop.antt =====
-- What `StopPodSandbox` leaves (pkg/nri/plugin.go), and in which network namespace the thread is
-- after it, and after `returnRDMAToHost` of pkg/handler/rdma/uverbs.go.
use dra_multi_things.Base.{
  ◌≡◌, ◌≢◌, refl, ◌∙◌, Str, str_eq, Bool, List, [], ◌∷◌, true, false, none, inl, inr, arith,
  sum-cases,
}
use dra_multi_things.Nri.Plugin.{
  PodSandbox, get_netns_path, return_devices, return_moves, stop_pod_sandbox,
}
use dra_multi_things.Nri.Tracker.{ActiveMove, get_active_for_pod, remove_active_for_pod}
use dra_multi_things.Nri.Tracker.Active.{remove_active_for_pod_lem}
use dra_multi_things.Rdma.Namespaces.{
  init_ns, enter_pod_ns, leave_pod_ns, move_to_host, return_rdma_to_host,
}
use dra_multi_things.System.Netlink.{Netlink}
use dra_multi_things.System.World.{World}

-- The documented behaviour of the namespaces: `current` is that of the thread. `netns.Set` changes
-- it if it succeeds, moving a device does not change it, and what `/proc/1/ns/net` opens is `host`,
-- which can always be entered.
pub record KeepsNamespace (N : Netlink) (current : N.State → N.NsHandle) (host : N.NsHandle)
    : Type 0 where
  pub set_fails :
      (s : N.State) (h : N.NsHandle)
      → (N.ns_set s h).0 ≢ none
      → current (N.ns_set s h).1 ≡ current s
  pub set_enters :
      (s : N.State) (h : N.NsHandle) → (N.ns_set s h).0 ≡ none → current (N.ns_set s h).1 ≡ h
  pub set_host : (s : N.State) → (N.ns_set s host).0 ≡ none
  pub opens_host : (s : N.State) (h : N.NsHandle) → N.ns_from_path s init_ns ≡ inr h → h ≡ host
  pub moves_stay :
      (s : N.State) (l : N.RdmaLink) (h : N.NsHandle)
      → current (N.rdma_link_set_ns_fd s l h).1 ≡ current s

module _ (N : Netlink) {current : N.State → N.NsHandle} {host : N.NsHandle}
    (K : KeepsNamespace N current host) where
  move_to_host-current :
      (h : N.NsHandle) (dev : Str) (s : N.State) → current (move_to_host N h dev s) ≡ current s
  unfolding move_to_host
  move_to_host-current h dev s = elim (sum-cases (N.rdma_link_by_name s dev)) [
    | inl (e, q) ↦ rw (q, move_to_host) refl
    | inr (l, q) ↦ rw (q, move_to_host) (K.moves_stay s l h)
  ]

  return_devices-current :
      (h : N.NsHandle) (moves : List ActiveMove) (s : N.State)
      → current (return_devices N h moves s) ≡ current s
  unfolding return_devices
  return_devices-current h [] s = refl
  return_devices-current h (m ∷ moves) s =
      return_devices-current h moves (move_to_host N h m.ib_dev s)
      ∙ move_to_host-current h m.ib_dev s

  -- A thread that has not entered the pod's namespace is where it was.
  enter_pod_ns-current :
      (path : Str) (s : N.State)
      → (enter_pod_ns N path s).0 ≡ false
      → current (enter_pod_ns N path s).1 ≡ current s
  unfolding enter_pod_ns
  enter_pod_ns-current path s f = elim (sum-cases (N.ns_from_path s path)) [
    | inl (e, q) ↦ ground arith
    | inr (l, q) ↦ ground (arith, K.set_fails s l)
  ]

  -- After whatever stays in the namespace, the thread is in the host's if it was there before.
  leave_pod_ns-current :
      (path : Str) (s t : N.State)
      → current s ≡ host
      → current t ≡ current (enter_pod_ns N path s).1
      → current (leave_pod_ns N (enter_pod_ns N path s).0 host t) ≡ host
  unfolding leave_pod_ns
  leave_pod_ns-current path s t h e = left (enter_pod_ns N path s).0 refl
    where
      left : (b : Bool) → (enter_pod_ns N path s).0 ≡ b → current (leave_pod_ns N b host t) ≡ host
      left true q = K.set_enters t host (K.set_host t)
      left false q = e ∙ enter_pod_ns-current path s q ∙ h

  return_moves-current :
      (path : Str) (moves : List ActiveMove) (s : N.State)
      → current s ≡ host
      → current (return_moves N path moves s) ≡ host
  unfolding return_moves
  return_moves-current path [] s h = h
  return_moves-current path (m ∷ moves) s h = elim (sum-cases (N.ns_from_path s init_ns)) [
    | inl (e, q) ↦ rw (q, return_moves) h
    | inr (x, q) ↦
        rw (q, return_moves, K.opens_host s x q)
          (leave_pod_ns-current path s _ h
            (return_devices-current host (m ∷ moves) (enter_pod_ns N path s).1))
  ]

  -- `StopPodSandbox` never returns an error, and a thread that is in the host's network namespace
  -- is there again afterwards, whichever calls fail on the way, except entering the host's.
  pub stop_pod_sandbox-current :
      (pod : PodSandbox) (w : World N)
      → current w.net ≡ host
      → ((stop_pod_sandbox pod w).0 ≡ none) × (current (stop_pod_sandbox pod w).1.net ≡ host)
  unfolding stop_pod_sandbox
  stop_pod_sandbox-current pod w h = (
    refl,
    return_moves-current (get_netns_path pod) (remove_active_for_pod pod.uid w.tracker).0 w.net h,
  )

  -- A thread that is in the host's network namespace is there again after `returnRDMAToHost`, which
  -- `Unprepare` of the uverbs handler calls, whichever calls fail on the way, except entering the
  -- host's.
  pub return_rdma_to_host-current :
      (ib_dev path : Str) (w : World N)
      → current w.net ≡ host
      → current (return_rdma_to_host ib_dev path w).net ≡ host
  unfolding return_rdma_to_host
  return_rdma_to_host-current ib_dev path w h = elim (sum-cases (N.ns_from_path w.net init_ns)) [
    | inl (e, q) ↦ rw (q, return_rdma_to_host) h
    | inr (x, q) ↦
        rw (q, return_rdma_to_host, K.opens_host w.net x q)
          (leave_pod_ns-current path w.net _ h
            (move_to_host-current host ib_dev (enter_pod_ns N path w.net).1))
  ]

module _ {N : Netlink} where
  -- After `StopPodSandbox` the pod has no active move, and any other pod has its own moves in the
  -- same order; the pending moves are as before.
  pub stop_pod_sandbox_lem :
      (pod : PodSandbox) (other : Str) (w : World N)
      → other ≢ pod.uid
      → let v = (stop_pod_sandbox pod w).1 in
        (get_active_for_pod pod.uid v.tracker ≡ [])
        × ((get_active_for_pod other v.tracker ≡ get_active_for_pod other w.tracker)
            × (v.tracker.pending ≡ w.tracker.pending))
  unfolding stop_pod_sandbox
  stop_pod_sandbox_lem pod other w h = (remove_active_for_pod_lem pod.uid other w.tracker h).1
