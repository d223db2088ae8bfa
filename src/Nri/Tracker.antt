-- ===== src/Nri/Tracker.antt =====
-- pkg/nri/tracker.go: the pending and the active RDMA netns moves. Every method holds the mutex
-- from its first to its last statement, so that each is one step on the two maps.
pub mod Pending
pub mod Active
pub mod Invariant
use dra_multi_things.Base.{
  ℕ, ◌≡◌, Str, str_eq, ◌==◌, if◌then◌else◌, Bool, true, false, List, [], ◌∷◌, Option, none, some,
  length,
}
use dra_multi_things.Base.Dict.{Dict, lookup, insert, erase}

pub record PendingMove : Type 0 where
  pub ib_dev : Str
  pub claim_uid : Str

pub record ActiveMove : Type 0 where
  pub ib_dev : Str
  pub pod_uid : Str
  pub netns_path : Str

pub record RdmaNetnsTracker : Type 0 where
  pub pending : Dict Str PendingMove
  pub active : Dict Str ActiveMove

-- `NewRDMANetnsTracker`
unfoldable pub new_rdma_netns_tracker : RdmaNetnsTracker
new_rdma_netns_tracker = record { pending = []; active = [] }

unfoldable pub add_pending : Str → Str → RdmaNetnsTracker → RdmaNetnsTracker
add_pending claim_uid ib_dev t = record t {
  pending = insert claim_uid (record { ib_dev = ib_dev; claim_uid = claim_uid }) t.pending;
}

unfoldable pub remove_pending : Str → RdmaNetnsTracker → RdmaNetnsTracker
remove_pending claim_uid t = record t { pending = erase claim_uid t.pending }

-- The loop of `ConsumePendingForClaims`: the moves taken, and the map that is left.
unfoldable pub consume : List Str → Dict Str PendingMove → List PendingMove × Dict Str PendingMove
consume [] pending = ([], pending)
consume (uid ∷ uids) pending = elim (lookup uid pending) [
  | none ↦ consume uids pending
  | some m ↦ let (ms, rest) = consume uids (erase uid pending) in (m ∷ ms, rest)
]

unfoldable pub consume_pending_for_claims :
    List Str → RdmaNetnsTracker → List PendingMove × RdmaNetnsTracker
consume_pending_for_claims uids t =
    let (moves, rest) = consume uids t.pending in (moves, record t { pending = rest })

unfoldable pub mark_active : Str → Str → Str → Str → RdmaNetnsTracker → RdmaNetnsTracker
mark_active claim_uid pod_uid ib_dev netns_path t = record t {
  active =
      insert claim_uid (record { ib_dev = ib_dev; pod_uid = pod_uid; netns_path = netns_path })
        t.active;
}

-- The loop of `GetActiveForPod`.
unfoldable pub for_pod : Str → Dict Str ActiveMove → List ActiveMove
for_pod pod [] = []
for_pod pod ((uid, m) ∷ active) =
    let rest = for_pod pod active in if m.pod_uid == pod then m ∷ rest else rest

unfoldable pub get_active_for_pod : Str → RdmaNetnsTracker → List ActiveMove
get_active_for_pod pod t = for_pod pod t.active

unfoldable pub remove_active : Str → RdmaNetnsTracker → Option ActiveMove × RdmaNetnsTracker
remove_active claim_uid t = elim (lookup claim_uid t.active) [
  | none ↦ (none, t)
  | some m ↦ (some m, record t { active = erase claim_uid t.active })
]

-- The loop of `RemoveActiveForPod`, which deletes from the map that it ranges over.
unfoldable pub remove_for_pod : Str → Dict Str ActiveMove → List ActiveMove × Dict Str ActiveMove
remove_for_pod pod [] = ([], [])
remove_for_pod pod ((uid, m) ∷ active) =
    let (ms, rest) = remove_for_pod pod active in
    if m.pod_uid == pod then (m ∷ ms, rest) else (ms, (uid, m) ∷ rest)

unfoldable pub remove_active_for_pod : Str → RdmaNetnsTracker → List ActiveMove × RdmaNetnsTracker
remove_active_for_pod pod t =
    let (moves, rest) = remove_for_pod pod t.active in (moves, record t { active = rest })

-- The two numbers that `String` prints.
unfoldable pub summary : RdmaNetnsTracker → ℕ × ℕ
summary t = (length t.pending, length t.active)
