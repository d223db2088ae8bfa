-- ===== src/Nri/Plugin/Moves.antt =====
-- What becomes of a pending move when the pod of its claim runs (pkg/nri/plugin.go).
use dra_multi_things.Base.{
  ◌≢◌, ap, subst, sym, ◌∙◌, ◌≡◌, refl, Str, str_eq, ◌==◌, if◌then◌else◌, Bool, List, [], ◌∷◌, true,
  false, Option, none, some, inl, inr, arith, contains, sum-cases, Option-cases,
}
use dra_multi_things.Base.Dict.{Dict, lookup, erase, lookup-insert, lookup-erase}
use dra_multi_things.Nri.Plugin.{
  PodSandbox, get_netns_path, move_device, move_devices, run_moves, run_pod_sandbox,
}
use dra_multi_things.Nri.Plugin.Keeps.{or_else}
use dra_multi_things.Nri.Tracker.{
  PendingMove, ActiveMove, RdmaNetnsTracker, mark_active, consume, consume_pending_for_claims,
}
use dra_multi_things.Nri.Tracker.Invariant.{Keyed, erase-Keyed}
use dra_multi_things.Nri.Tracker.Pending.{lookup-consume}
use dra_multi_things.Nri.Uuid.{extract_claim_uids}
use dra_multi_things.System.Errors.{Error}
use dra_multi_things.System.Netlink.{Netlink}
use dra_multi_things.System.World.{World}

-- The active move that a pending one becomes.
abbrev pub activated : Str → Str → Option PendingMove → Option ActiveMove
activated pod_uid path none = none
activated pod_uid path (some m) =
    some (record { ib_dev = m.ib_dev; pod_uid = pod_uid; netns_path = path })

-- The kernel finds every RDMA device, and moves it where it is told to.
abbrev pub finds : (N : Netlink) → N.State → Str → Bool
finds N s dev = elim (N.rdma_link_by_name s dev) [ inl _ ↦ false | inr _ ↦ true ]

-- The kernel finds the device of each move in the state that the moves before it have left, and
-- moves it into the namespace.
unfoldable pub MovesAll : (N : Netlink) → N.NsHandle → List PendingMove → N.State → Type 0
MovesAll N ns [] s = Unit
MovesAll N ns (m ∷ moves) s =
    (l : N.RdmaLink) × ((N.rdma_link_by_name s m.ib_dev ≡ inr l)
      × (((N.rdma_link_set_ns_fd s l ns).0 ≡ none)
          × MovesAll N ns moves (N.rdma_link_set_ns_fd s l ns).1))

module _ {N : Netlink} where
  lookup-move_device :
      (ns : N.NsHandle) (pod_uid path : Str) (m : PendingMove) (k : Str) (w : World N)
      {l : N.RdmaLink}
      → N.rdma_link_by_name w.net m.ib_dev ≡ inr l
      → (N.rdma_link_set_ns_fd w.net l ns).0 ≡ none
      → lookup k (move_device ns pod_uid path m w).tracker.active
        ≡ (if m.claim_uid == k then activated pod_uid path (some m) else lookup k w.tracker.active)
  unfolding move_device mark_active
  lookup-move_device ns pod_uid path m k w q e =
      rw (q, move_device)
        (ground (
          arith,
          lookup-insert k m.claim_uid
              (record { ib_dev = m.ib_dev; pod_uid = pod_uid; netns_path = path }) w.tracker.active,
        ))

  move_device-net :
      (ns : N.NsHandle) (pod_uid path : Str) (m : PendingMove) (w : World N) {l : N.RdmaLink}
      → N.rdma_link_by_name w.net m.ib_dev ≡ inr l
      → (move_device ns pod_uid path m w).net ≡ (N.rdma_link_set_ns_fd w.net l ns).1
  unfolding move_device
  move_device-net ns pod_uid path m w q = rw (q, move_device) (ground arith)

  -- The moves that are consumed are made active.
  abbrev Activated :
      N.NsHandle → Str → Str → List Str → Dict Str PendingMove → Str → World N → Type 0
  Activated ns pod_uid path uids pending k w =
      lookup k (move_devices ns pod_uid path (consume uids pending).0 w).tracker.active ≡ (
        if contains uids k
        then or_else (activated pod_uid path (lookup k pending)) (lookup k w.tracker.active)
        else lookup k w.tracker.active)

  lookup-move_devices :
      (ns : N.NsHandle) (pod_uid path : Str) (uids : List Str) (pending : Dict Str PendingMove)
      (k : Str) (w : World N)
      → Keyed pending
      → MovesAll N ns (consume uids pending).0 w.net
      → Activated ns pod_uid path uids pending k w
  unfolding consume move_devices MovesAll
  lookup-move_devices ns pod_uid path [] pending k w h d = refl
  lookup-move_devices ns pod_uid path (uid ∷ uids) pending k w h d =
      elim (Option-cases (lookup uid pending)) [
        | inl q ↦
            let rest : MovesAll N ns (consume uids pending).0 w.net = rw (q, consume) at d in
            rw (q, consume)
              (ground (arith, lookup-move_devices ns pod_uid path uids pending k w h rest))
        | inr (m, q) ↦
            let here : MovesAll N ns (m ∷ (consume uids (erase uid pending)).0) w.net =
              rw (q, consume) at d in
            let v = move_device ns pod_uid path m w in
            let rest : MovesAll N ns (consume uids (erase uid pending)).0 v.net =
              subst (MovesAll N ns (consume uids (erase uid pending)).0)
                (sym (move_device-net ns pod_uid path m w here.1.0)) here.1.1.1 in
            rw (q, consume, move_devices)
              (ground (
                arith,
                h uid m q,
                lookup-move_devices ns pod_uid path uids (erase uid pending) k v
                    (erase-Keyed uid pending h) rest,
                lookup-move_device ns pod_uid path m k w here.1.0 here.1.1.0,
                lookup-erase k uid pending,
              ))
      ]

  run_moves-moves :
      (pod : PodSandbox) (moves : List PendingMove) (w : World N) (ns : N.NsHandle)
      → N.ns_from_path w.net (get_netns_path pod) ≡ inr ns
      → get_netns_path pod ≢ []
      → run_moves pod moves w ≡ (none, move_devices ns pod.uid (get_netns_path pod) moves w)
  unfolding run_moves move_devices
  run_moves-moves pod [] w ns q h = refl
  run_moves-moves pod (m ∷ moves) w ns q h = ground arith

  move_device-pending :
      (ns : N.NsHandle) (pod_uid path : Str) (m : PendingMove) (w : World N)
      → (move_device ns pod_uid path m w).tracker.pending ≡ w.tracker.pending
  unfolding move_device mark_active
  move_device-pending ns pod_uid path m w = ground arith

  move_devices-pending :
      (ns : N.NsHandle) (pod_uid path : Str) (moves : List PendingMove) (w : World N)
      → (move_devices ns pod_uid path moves w).tracker.pending ≡ w.tracker.pending
  unfolding move_devices
  move_devices-pending ns pod_uid path [] w = refl
  move_devices-pending ns pod_uid path (m ∷ moves) w =
      move_devices-pending ns pod_uid path moves (move_device ns pod_uid path m w)
      ∙ move_device-pending ns pod_uid path m w

  -- What a successful run leaves of the move of a claim: it is no longer pending, and active for
  -- the pod if it was pending.
  abbrev pub Moved : PodSandbox → Str → World N → Option Error × World N → Type 0
  Moved pod k w out =
      (out.0 ≡ none)
      × ((lookup k out.1.tracker.pending ≡ none)
          × (lookup k out.1.tracker.active
              ≡ or_else (activated pod.uid (get_netns_path pod) (lookup k w.tracker.pending))
                  (lookup k w.tracker.active)))

  consumed-Moved :
      (uids : List Str) (pod : PodSandbox) (k : Str) (w : World N) (ns : N.NsHandle)
      → Keyed w.tracker.pending
      → MovesAll N ns (consume_pending_for_claims uids w.tracker).0 w.net
      → N.ns_from_path w.net (get_netns_path pod) ≡ inr ns
      → get_netns_path pod ≢ []
      → contains uids k ≡ true
      → let out = consume_pending_for_claims uids w.tracker in
        Moved pod k w (run_moves pod out.0 (record w { tracker = out.1 }))
  unfolding consume_pending_for_claims
  consumed-Moved uids pod k w ns h d q p c =
      let path = get_netns_path pod in
      let ms = (consume uids w.tracker.pending).0 in
      let t : RdmaNetnsTracker = record w.tracker {
        pending = (consume uids w.tracker.pending).1;
      } in
      let v : World N = record w { tracker = t } in
      rw (run_moves-moves pod ms v ns q p) (
        refl,
        (
          ap (lookup k) (move_devices-pending ns pod.uid path ms v)
              ∙ ground (arith, lookup-consume uids w.tracker.pending k),
          ground (arith, lookup-move_devices ns pod.uid path uids w.tracker.pending k v h d),
        ),
      )

  -- If the pod's network namespace can be opened, and for each pending move of a claim of the pod the
  -- kernel finds the device, in the state that the moves before it have left, and moves it, then the
  -- run returns no error, and for any claim `k` of the pod the pending move, if there is one, has
  -- become an active move of the pod with the same device; `k` has no pending move any more. Pending
  -- moves have to stand under their own claims.
  pub run_pod_sandbox-moves :
      (pod : PodSandbox) (k : Str) (w : World N) (ns : N.NsHandle)
      → Keyed w.tracker.pending
      → MovesAll N ns
          (consume_pending_for_claims (extract_claim_uids pod.annotations) w.tracker).0
          w.net
      → N.ns_from_path w.net (get_netns_path pod) ≡ inr ns
      → get_netns_path pod ≢ []
      → contains (extract_claim_uids pod.annotations) k ≡ true
      → Moved pod k w (run_pod_sandbox pod w)
  unfolding run_pod_sandbox
  run_pod_sandbox-moves pod k w ns h d q p c = claims (extract_claim_uids pod.annotations) refl
    where
      claims :
          (uids : List Str)
          → extract_claim_uids pod.annotations ≡ uids
          → Moved pod k w (run_pod_sandbox pod w)
      claims [] e = absurd (ground arith)
      claims (uid ∷ uids) e =
          rw (e, run_pod_sandbox)
            (consumed-Moved (uid ∷ uids) pod k w ns h (rw e at d) q p (ground arith))

  run_moves-none :
      (pod : PodSandbox) (moves : List PendingMove) (w : World N) (ns : N.NsHandle)
      → ((s : N.State) (dev : Str) → finds N s dev ≡ false)
      → (move_devices ns pod.uid (get_netns_path pod) moves w) ≡ w
  unfolding move_devices move_device
  run_moves-none pod [] w ns f = refl
  run_moves-none pod (m ∷ moves) w ns f = elim (sum-cases (N.rdma_link_by_name w.net m.ib_dev)) [
    | inl (e, q) ↦ rw (q, move_devices, move_device) (run_moves-none pod moves w ns f)
    | inr (l, q) ↦ absurd (ground (arith, f w.net m.ib_dev))
  ]

  -- What a run leaves of a move whose device is not found.
  abbrev pub Lost : Str → World N → World N → Type 0
  Lost k w v =
      (lookup k v.tracker.pending ≡ none) × (lookup k v.tracker.active ≡ lookup k w.tracker.active)

  consumed-Lost :
      (uids : List Str) (pod : PodSandbox) (k : Str) (w : World N) (ns : N.NsHandle)
      → ((s : N.State) (dev : Str) → finds N s dev ≡ false)
      → N.ns_from_path w.net (get_netns_path pod) ≡ inr ns
      → get_netns_path pod ≢ []
      → contains uids k ≡ true
      → let out = consume_pending_for_claims uids w.tracker in
        Lost k w (run_moves pod out.0 (record w { tracker = out.1 })).1
  unfolding consume_pending_for_claims
  consumed-Lost uids pod k w ns f q p c =
      let ms = (consume uids w.tracker.pending).0 in
      let t : RdmaNetnsTracker = record w.tracker {
        pending = (consume uids w.tracker.pending).1;
      } in
      let v : World N = record w { tracker = t } in
      rw (run_moves-moves pod ms v ns q p, run_moves-none pod ms v ns f)
        (ground (arith, lookup-consume uids w.tracker.pending k), refl)

  -- If the pod's network namespace can be opened and the kernel shows no RDMA device, the pending
  -- move of any claim `k` of the pod is gone afterwards, and no active move has taken its place.
  pub run_pod_sandbox-loses :
      (pod : PodSandbox) (k : Str) (w : World N) (ns : N.NsHandle)
      → ((s : N.State) (dev : Str) → finds N s dev ≡ false)
      → N.ns_from_path w.net (get_netns_path pod) ≡ inr ns
      → get_netns_path pod ≢ []
      → contains (extract_claim_uids pod.annotations) k ≡ true
      → Lost k w (run_pod_sandbox pod w).1
  unfolding run_pod_sandbox
  run_pod_sandbox-loses pod k w ns f q p c = claims (extract_claim_uids pod.annotations) refl
    where
      claims :
          (uids : List Str)
          → extract_claim_uids pod.annotations ≡ uids
          → Lost k w (run_pod_sandbox pod w).1
      claims [] e = absurd (ground arith)
      claims (uid ∷ uids) e =
          rw (e, run_pod_sandbox) (consumed-Lost (uid ∷ uids) pod k w ns f q p (ground arith))
