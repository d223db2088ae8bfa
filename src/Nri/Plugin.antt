-- ===== src/Nri/Plugin.antt =====
-- pkg/nri/plugin.go: what the plugin does when a pod sandbox runs and when it stops.
pub mod Keeps
pub mod Moves
pub mod Stop
use dra_multi_things.Base.{
  Str, str_eq, ◌==◌, if◌then◌else◌, lit, Bool, true, false, List, [], ◌∷◌, Option, none, some, ◌⊎◌,
  inl, inr,
}
use dra_multi_things.Base.Dict.{Dict}
use dra_multi_things.Nri.Tracker.{
  PendingMove, ActiveMove, RdmaNetnsTracker, add_pending, mark_active, consume_pending_for_claims,
  remove_active_for_pod,
}
use dra_multi_things.Nri.Uuid.{extract_claim_uids}
use dra_multi_things.Rdma.Namespaces.{init_ns, enter_pod_ns, leave_pod_ns, move_to_host}
use dra_multi_things.System.Errors.{Error, wrapf}
use dra_multi_things.System.Netlink.{Netlink}
use dra_multi_things.System.World.{World}

pub record LinuxNamespace : Type 0 where
  pub typ : Str
  pub path : Str

-- `api.PodSandbox`, the fields that the plugin reads. `linux` is none for a nil pointer.
pub record PodSandbox : Type 0 where
  pub uid : Str
  pub annotations : Dict Str Str
  pub linux : Option (List LinuxNamespace)

unfoldable pub network_path : List LinuxNamespace → Str
unfolding lit
network_path [] = []
network_path (ns ∷ rest) =
    let more = network_path rest in if ns.typ == lit "network" then ns.path else more

-- `getNetNSPath`
unfoldable pub get_netns_path : PodSandbox → Str
unfolding network_path
get_netns_path pod = elim pod.linux [ none ↦ [] | some namespaces ↦ network_path namespaces ]

-- The loop that registers the moves again.
unfoldable pub add_back : List PendingMove → RdmaNetnsTracker → RdmaNetnsTracker
add_back [] t = t
add_back (m ∷ moves) t = add_back moves (add_pending m.claim_uid m.ib_dev t)

module _ {N : Netlink} where
  abbrev marked : PendingMove → Str → Str → Option Error × N.State → World N → World N
  marked m pod_uid path (some e, s) w = record w { net = s }
  marked m pod_uid path (none, s) w = record w {
    net = s;
    tracker = mark_active m.claim_uid pod_uid m.ib_dev path w.tracker;
  }

  -- One round of the loop that moves devices: a device that cannot be moved is passed over.
  unfoldable pub move_device : N.NsHandle → Str → Str → PendingMove → World N → World N
  move_device ns pod_uid path m w = elim (N.rdma_link_by_name w.net m.ib_dev) [
    | inl _ ↦ w
    | inr link ↦ marked m pod_uid path (N.rdma_link_set_ns_fd w.net link ns) w
  ]

  unfoldable pub move_devices : N.NsHandle → Str → Str → List PendingMove → World N → World N
  move_devices ns pod_uid path [] w = w
  move_devices ns pod_uid path (m ∷ moves) w =
      move_devices ns pod_uid path moves (move_device ns pod_uid path m w)

  -- The moves of a pod whose claims have some, from the lookup of its namespace on.
  unfoldable pub run_moves : PodSandbox → List PendingMove → World N → Option Error × World N
  unfolding add_back
  run_moves pod [] w = (none, w)
  run_moves pod (m ∷ moves) w =
      let path = get_netns_path pod in
      let back = record w { tracker = add_back (m ∷ moves) w.tracker } in
      if path == [] then (none, back) else elim (N.ns_from_path w.net path) [
        | inl e ↦ (some (wrapf "get pod netns: %w" [] e), back)
        | inr ns ↦ (none, move_devices ns pod.uid path (m ∷ moves) w)
      ]

  -- `RunPodSandbox`
  unfoldable pub run_pod_sandbox : PodSandbox → World N → Option Error × World N
  unfolding run_moves
  run_pod_sandbox pod w = elim (extract_claim_uids pod.annotations) [
    | [] ↦ (none, w)
    | uid ∷ uids ↦
        let (moves, tracker) = consume_pending_for_claims (uid ∷ uids) w.tracker in
        run_moves pod moves (record w { tracker = tracker })
  ]

module _ (N : Netlink) where
  -- The loop of `StopPodSandbox`.
  unfoldable pub return_devices : N.NsHandle → List ActiveMove → N.State → N.State
  return_devices host [] s = s
  return_devices host (m ∷ moves) s = return_devices host moves (move_to_host N host m.ib_dev s)

  unfoldable pub return_moves : Str → List ActiveMove → N.State → N.State
  return_moves path [] s = s
  return_moves path (m ∷ moves) s = elim (N.ns_from_path s init_ns) [
    | inl _ ↦ s
    | inr host ↦
        let (entered, s') = enter_pod_ns N path s in
        leave_pod_ns N entered host (return_devices host (m ∷ moves) s')
  ]

module _ {N : Netlink} where
  -- `StopPodSandbox`, which never returns an error.
  unfoldable pub stop_pod_sandbox : PodSandbox → World N → Option Error × World N
  unfolding return_moves
  stop_pod_sandbox pod w =
      let (moves, tracker) = remove_active_for_pod pod.uid w.tracker in
      (none, record w { net = return_moves N (get_netns_path pod) moves w.net; tracker = tracker })
