-- ===== src/Tests/Pods.antt =====
-- Runs of the tracker and of the plugin: one pending move, and a pod with the claim.
use dra_multi_things.Base.{
  ◌≡◌, ◌≢◌, refl, Str, str_eq, nat_eq, lit, Bool, true, false, List, [], ◌∷◌, ◌++◌, Option, none,
  some, All, NodupStr, contains, if◌then◌else◌, arith,
}
use dra_multi_things.Base.Dict.{lookup, erase}
use dra_multi_things.Base.Strings.{has_prefix}
use dra_multi_things.Nri.Plugin.{
  LinuxNamespace, PodSandbox, get_netns_path, network_path, run_pod_sandbox, stop_pod_sandbox,
}
use dra_multi_things.Nri.Plugin.Keeps.{Kept, run_pod_sandbox-keeps_pending}
use dra_multi_things.Nri.Plugin.Moves.{
  Moved, Lost, MovesAll, run_pod_sandbox-moves, run_pod_sandbox-loses,
}
use dra_multi_things.Nri.Plugin.Stop.{
  KeepsNamespace, stop_pod_sandbox-current, stop_pod_sandbox_lem,
}
use dra_multi_things.Nri.Tracker.{
  RdmaNetnsTracker, new_rdma_netns_tracker, add_pending, consume, consume_pending_for_claims,
  remove_active_for_pod, get_active_for_pod,
}
use dra_multi_things.Nri.Tracker.Invariant.{
  Keyed, IsValid, adds, stops, here, step, Reaches-IsValid, new_rdma_netns_tracker-IsValid,
}
use dra_multi_things.Nri.Tracker.Pending.{gather, consume_pending_for_claims_lem}
use dra_multi_things.Nri.Uuid.{
  is_uuid, runes_fit, rune_fits, is_hex_digit, decode_rune, scan, extract_uuids, add_new,
  claim_uids, extract_claim_uids,
}
use dra_multi_things.Nri.Uuid.Extract.{extract_claim_uids-Distinct, extract_uuids-comma}
use dra_multi_things.System.World.{World}
use dra_multi_things.Tests.Kernel.{kernel}

abbrev uid : Str
uid = lit "12345678-aaaa-bbbb-cccc-123456789abc"

abbrev other_pod : Str
other_pod = lit "pod-2"

abbrev tracker : RdmaNetnsTracker
tracker = record {
  pending = (uid, record { ib_dev = lit "mlx5_0"; claim_uid = uid }) ∷ [];
  active =
      (
        lit "x",
        record { ib_dev = lit "mlx5_1"; pod_uid = lit "pod-1"; netns_path = lit "/run/netns/p" },
      )
      ∷ [];
}

abbrev world : (rdma : Bool) → World (kernel rdma)
world rdma = record {
  net = record { links = []; namespace = 0 };
  os = record { files = []; dirs = []; symlinks = []; refuses = λ _ _. false };
  tracker = tracker;
  cached_mode = none;
}

abbrev pod_with : Option (List LinuxNamespace) → PodSandbox
pod_with linux = record {
  uid = lit "pod-1";
  annotations = (lit "resource.kubernetes.io/main", uid) ∷ [];
  linux = linux;
}

abbrev pod : PodSandbox
pod = pod_with (some (record { typ = lit "network"; path = lit "/run/netns/p" } ∷ []))

pods_differ : other_pod ≢ lit "pod-1"
unfolding lit
pods_differ h = absurd (ground arith)

consume_pending_for_claims_lem_example :
    let out = consume_pending_for_claims (uid ∷ []) tracker in
    (out.0 ≡ gather (uid ∷ []) tracker.pending)
    × ((lookup uid out.1.pending
          ≡ (if contains (uid ∷ []) uid then none else lookup uid tracker.pending))
        × (out.1.active ≡ tracker.active))
consume_pending_for_claims_lem_example =
    consume_pending_for_claims_lem (uid ∷ []) tracker uid (refl, tt)

Reaches-IsValid_example :
    IsValid
      (remove_active_for_pod
        (lit "pod-1")
        (add_pending uid (lit "mlx5_0") new_rdma_netns_tracker)).1
Reaches-IsValid_example =
    Reaches-IsValid (step (adds uid (lit "mlx5_0")) (step (stops (lit "pod-1")) here))
      new_rdma_netns_tracker-IsValid

extract_claim_uids-Distinct_example :
    NodupStr (extract_claim_uids pod.annotations)
    × All (λ u. is_uuid u ≡ true) (extract_claim_uids pod.annotations)
extract_claim_uids-Distinct_example = extract_claim_uids-Distinct pod.annotations

uid-is_uuid : is_uuid uid ≡ true
unfolding lit is_uuid runes_fit rune_fits is_hex_digit decode_rune nat_eq
uid-is_uuid = refl

extract_uuids-comma_example : extract_uuids (uid ++ (b',' ∷ uid)) ≡ uid ∷ extract_uuids uid
extract_uuids-comma_example = extract_uuids-comma uid uid uid-is_uuid

claim_of_pod : contains (extract_claim_uids pod.annotations) uid ≡ true
unfolding lit is_uuid runes_fit rune_fits is_hex_digit decode_rune nat_eq extract_claim_uids
    claim_uids add_new extract_uuids scan has_prefix str_eq
claim_of_pod = refl

tracker-Keyed : Keyed tracker.pending
unfolding lookup
tracker-Keyed k m q = ground arith

run_pod_sandbox-keeps_pending_example :
    Kept uid (world true) (run_pod_sandbox (pod_with none) (world true)).1
unfolding get_netns_path network_path str_eq
run_pod_sandbox-keeps_pending_example =
    run_pod_sandbox-keeps_pending (pod_with none) uid (world true) tracker-Keyed refl

moves_all :
    MovesAll
      (kernel true)
      1
      (consume_pending_for_claims (extract_claim_uids pod.annotations) tracker).0
      (world true).net
unfolding MovesAll consume_pending_for_claims consume lookup erase lit is_uuid runes_fit rune_fits
    is_hex_digit decode_rune nat_eq extract_claim_uids claim_uids add_new extract_uuids scan
    has_prefix str_eq
moves_all = (lit "mlx5_0", (refl, (refl, tt)))

pod-path : get_netns_path pod ≢ []
unfolding get_netns_path network_path str_eq lit
pod-path h = absurd (ground arith)

run_pod_sandbox-moves_example : Moved pod uid (world true) (run_pod_sandbox pod (world true))
unfolding get_netns_path network_path str_eq lit
run_pod_sandbox-moves_example =
    run_pod_sandbox-moves pod uid (world true) 1 tracker-Keyed moves_all refl pod-path claim_of_pod

run_pod_sandbox-loses_example : Lost uid (world false) (run_pod_sandbox pod (world false)).1
unfolding get_netns_path network_path str_eq lit
run_pod_sandbox-loses_example =
    run_pod_sandbox-loses pod uid (world false) 1 (λ s dev. refl) refl pod-path claim_of_pod

keeps_namespace : KeepsNamespace (kernel true) (λ s. s.namespace) 0
unfolding str_eq lit
keeps_namespace = record {
  set_fails = λ s h n. absurd (n refl);
  set_enters = λ s h e. refl;
  set_host = λ s. refl;
  opens_host = λ s h e. ground arith;
  moves_stay = λ s l h. refl;
}

stop_pod_sandbox-current_example :
    ((stop_pod_sandbox pod (world true)).0 ≡ none)
    × ((stop_pod_sandbox pod (world true)).1.net.namespace ≡ 0)
stop_pod_sandbox-current_example =
    stop_pod_sandbox-current (kernel true) keeps_namespace pod (world true) refl

stop_pod_sandbox_lem_example :
    let v = (stop_pod_sandbox pod (world true)).1 in
    (get_active_for_pod pod.uid v.tracker ≡ [])
    × ((get_active_for_pod other_pod v.tracker ≡ get_active_for_pod other_pod tracker)
        × (v.tracker.pending ≡ tracker.pending))
stop_pod_sandbox_lem_example = stop_pod_sandbox_lem pod other_pod (world true) pods_differ
