-- ===== src/Nri/Plugin/Keeps.antt =====
-- A pod sandbox without a usable network namespace (pkg/nri/plugin.go).
use dra_multi_things.Base.{
  ◌≡◌, refl, Str, str_eq, ◌==◌, if◌then◌else◌, Bool, List, [], ◌∷◌, true, false, Option, none, some,
  inl, inr, arith, contains, sum-cases, Option-cases,
}
use dra_multi_things.Base.Dict.{Dict, lookup, erase, lookup-insert, lookup-erase}
use dra_multi_things.Nri.Plugin.{PodSandbox, get_netns_path, add_back, run_moves, run_pod_sandbox}
use dra_multi_things.Nri.Tracker.{
  PendingMove, RdmaNetnsTracker, add_pending, consume, consume_pending_for_claims,
}
use dra_multi_things.Nri.Tracker.Invariant.{Keyed, erase-Keyed}
use dra_multi_things.Nri.Tracker.Pending.{lookup-consume}
use dra_multi_things.Nri.Uuid.{extract_claim_uids}
use dra_multi_things.System.Netlink.{Netlink}
use dra_multi_things.System.World.{World}

-- The first of two values that is there.
abbrev pub or_else {ℓ} : {A : Type ℓ} → Option A → Option A → Option A
or_else none b = b
or_else (some a) b = some a

lookup-add_pending :
    (k uid dev : Str) (t : RdmaNetnsTracker)
    → lookup k (add_pending uid dev t).pending
      ≡ (if uid == k then some (record { ib_dev = dev; claim_uid = uid }) else lookup k t.pending)
unfolding add_pending
lookup-add_pending k uid dev t =
    lookup-insert k uid (record { ib_dev = dev; claim_uid = uid }) t.pending

lookup-add_back :
    (uids : List Str) (pending : Dict Str PendingMove) (k : Str) (t : RdmaNetnsTracker)
    → Keyed pending
    → lookup k (add_back (consume uids pending).0 t).pending ≡ (
        if contains uids k
        then or_else (lookup k pending) (lookup k t.pending)
        else lookup k t.pending)
unfolding consume add_back
lookup-add_back [] pending k t h = refl
lookup-add_back (uid ∷ uids) pending k t h = elim (Option-cases (lookup uid pending)) [
  | inl q ↦ rw (q, consume) (ground (arith, lookup-add_back uids pending k t h))
  | inr (m, q) ↦
      rw (q, consume, add_back)
        (ground (
          arith,
          h uid m q,
          lookup-add_back uids (erase uid pending) k (add_pending m.claim_uid m.ib_dev t)
              (erase-Keyed uid pending h),
          lookup-add_pending k m.claim_uid m.ib_dev t,
          lookup-erase k uid pending,
        ))
]

add_back-active :
    (moves : List PendingMove) (t : RdmaNetnsTracker) → (add_back moves t).active ≡ t.active
unfolding add_back add_pending
add_back-active [] t = refl
add_back-active (m ∷ moves) t = add_back-active moves (add_pending m.claim_uid m.ib_dev t)

-- The network namespace of the pod can be opened.
abbrev pub has_netns : (N : Netlink) → PodSandbox → N.State → Bool
has_netns N pod s =
    if get_netns_path pod == []
    then false
    else elim (N.ns_from_path s (get_netns_path pod)) [ inl _ ↦ false | inr _ ↦ true ]

module _ {N : Netlink} where
  -- What a call of the plugin leaves of the moves and of the kernel.
  abbrev pub Kept : Str → World N → World N → Type 0
  Kept k w v =
      (lookup k v.tracker.pending ≡ lookup k w.tracker.pending)
      × ((v.tracker.active ≡ w.tracker.active) × (v.net ≡ w.net))

  run_moves-keeps :
      (pod : PodSandbox) (moves : List PendingMove) (w : World N)
      → has_netns N pod w.net ≡ false
      → (run_moves pod moves w).1 ≡ record w { tracker = add_back moves w.tracker }
  unfolding run_moves add_back
  run_moves-keeps pod [] w h = refl
  run_moves-keeps pod (m ∷ moves) w h =
      elim (sum-cases (N.ns_from_path w.net (get_netns_path pod))) [
        | inl (e, q) ↦ ground arith
        | inr (ns, q) ↦ ground arith
      ]

  consumed-Kept :
      (uids : List Str) (pod : PodSandbox) (k : Str) (w : World N)
      → Keyed w.tracker.pending
      → has_netns N pod w.net ≡ false
      → let out = consume_pending_for_claims uids w.tracker in
        Kept k w (run_moves pod out.0 (record w { tracker = out.1 })).1
  unfolding consume_pending_for_claims
  consumed-Kept uids pod k w h f =
      let ms = (consume uids w.tracker.pending).0 in
      let t : RdmaNetnsTracker = record w.tracker {
        pending = (consume uids w.tracker.pending).1;
      } in
      rw (run_moves-keeps pod ms (record w { tracker = t }) f) (
        ground (
          arith,
          lookup-add_back uids w.tracker.pending k t h,
          lookup-consume uids w.tracker.pending k,
        ),
        (add_back-active ms t, refl),
      )

  -- If the pod names no network namespace, or it cannot be opened, no move is lost: any claim `k`
  -- has the pending move that it had, and the active moves and the kernel are as before.
  pub run_pod_sandbox-keeps_pending :
      (pod : PodSandbox) (k : Str) (w : World N)
      → Keyed w.tracker.pending
      → has_netns N pod w.net ≡ false
      → Kept k w (run_pod_sandbox pod w).1
  unfolding run_pod_sandbox
  run_pod_sandbox-keeps_pending pod k w h f = claims (extract_claim_uids pod.annotations) refl
    where
      claims :
          (uids : List Str)
          → extract_claim_uids pod.annotations ≡ uids
          → Kept k w (run_pod_sandbox pod w).1
      claims [] q = rw (q, run_pod_sandbox) (refl, (refl, refl))
      claims (uid ∷ uids) q = rw (q, run_pod_sandbox) (consumed-Kept (uid ∷ uids) pod k w h f)
