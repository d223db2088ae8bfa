-- ===== src/Nri/Tracker/Invariant.antt =====
-- Well-formedness of the two maps of the tracker, and the sequences of calls of its methods
-- (pkg/nri/tracker.go), in whatever order the handlers and the plugin make them.
use dra_multi_things.Base.{◌≡◌, Str, str_eq, List, [], ◌∷◌, some, inl, inr, Option-cases, arith}
use dra_multi_things.Base.Dict.{
  Dict, lookup, insert, erase, NodupKeys, lookup-nil, lookup-insert, lookup-erase, insert-NodupKeys,
  erase-NodupKeys,
}
use dra_multi_things.Nri.Tracker.{
  PendingMove, ActiveMove, RdmaNetnsTracker, new_rdma_netns_tracker, add_pending, remove_pending,
  consume, consume_pending_for_claims, mark_active, remove_active, remove_for_pod,
  remove_active_for_pod,
}
use dra_multi_things.Nri.Tracker.Active.{lookup-remove_for_pod}

-- A move is stored under its own claim.
abbrev pub Keyed : Dict Str PendingMove → Type 0
Keyed pending = (k : Str) (m : PendingMove) → lookup k pending ≡ some m → m.claim_uid ≡ k

-- Each map has one entry for a claim, and a pending move stands under its own claim.
pub record IsValid (t : RdmaNetnsTracker) : Type 0 where
  pub pending_keys : NodupKeys t.pending
  pub active_keys : NodupKeys t.active
  pub keyed : Keyed t.pending

-- One call of a method that changes the tracker.
pub data Step : RdmaNetnsTracker → RdmaNetnsTracker → Type 0 where
  adds : {t : RdmaNetnsTracker} (uid dev : Str) → Step t (add_pending uid dev t)
  removes : {t : RdmaNetnsTracker} (uid : Str) → Step t (remove_pending uid t)
  consumes : {t : RdmaNetnsTracker} (uids : List Str) → Step t (consume_pending_for_claims uids t).1
  marks : {t : RdmaNetnsTracker} (uid pod dev path : Str) → Step t (mark_active uid pod dev path t)
  forgets : {t : RdmaNetnsTracker} (uid : Str) → Step t (remove_active uid t).1
  stops : {t : RdmaNetnsTracker} (pod : Str) → Step t (remove_active_for_pod pod t).1

pub data Reaches : RdmaNetnsTracker → RdmaNetnsTracker → Type 0 where
  here : {t : RdmaNetnsTracker} → Reaches t t
  step : {s t u : RdmaNetnsTracker} → Step s t → Reaches t u → Reaches s u

insert-Keyed :
    (uid dev : Str) (pending : Dict Str PendingMove)
    → Keyed pending
    → Keyed (insert uid (record { ib_dev = dev; claim_uid = uid }) pending)
insert-Keyed uid dev pending h k m q =
    ground (arith, h k m, lookup-insert k uid (record { ib_dev = dev; claim_uid = uid }) pending)

pub erase-Keyed :
    (uid : Str) (pending : Dict Str PendingMove) → Keyed pending → Keyed (erase uid pending)
erase-Keyed uid pending h k m q = ground (arith, h k m, lookup-erase k uid pending)

consume-NodupKeys :
    (uids : List Str) (pending : Dict Str PendingMove)
    → NodupKeys pending
    → NodupKeys (consume uids pending).1
unfolding consume
consume-NodupKeys [] pending u = u
consume-NodupKeys (uid ∷ uids) pending u = elim (Option-cases (lookup uid pending)) [
  | inl q ↦ rw (q, consume, NodupKeys) (consume-NodupKeys uids pending u)
  | inr (m, q) ↦
      rw (q, consume, NodupKeys)
        (consume-NodupKeys uids (erase uid pending) (erase-NodupKeys uid pending u))
]

consume-Keyed :
    (uids : List Str) (pending : Dict Str PendingMove)
    → Keyed pending
    → Keyed (consume uids pending).1
unfolding consume
consume-Keyed [] pending h = h
consume-Keyed (uid ∷ uids) pending h = elim (Option-cases (lookup uid pending)) [
  | inl q ↦ rw (q, consume) (consume-Keyed uids pending h)
  | inr (m, q) ↦
      rw (q, consume) (consume-Keyed uids (erase uid pending) (erase-Keyed uid pending h))
]

remove_for_pod-NodupKeys :
    (pod : Str) (active : Dict Str ActiveMove)
    → NodupKeys active
    → NodupKeys (remove_for_pod pod active).1
unfolding remove_for_pod
remove_for_pod-NodupKeys pod [] u = tt
remove_for_pod-NodupKeys pod ((k, m) ∷ active) u =
    ground (arith, remove_for_pod-NodupKeys pod active u.1, lookup-remove_for_pod pod k active u.1)

Step-IsValid : {t u : RdmaNetnsTracker} → Step t u → IsValid t → IsValid u
unfolding add_pending remove_pending consume_pending_for_claims mark_active remove_active
    remove_active_for_pod
Step-IsValid (adds {t} uid dev) v = record {
  pending_keys = insert-NodupKeys uid _ t.pending v.pending_keys;
  active_keys = v.active_keys;
  keyed = insert-Keyed uid dev t.pending v.keyed;
}
Step-IsValid (removes {t} uid) v = record {
  pending_keys = erase-NodupKeys uid t.pending v.pending_keys;
  active_keys = v.active_keys;
  keyed = erase-Keyed uid t.pending v.keyed;
}
Step-IsValid (consumes {t} uids) v = record {
  pending_keys = consume-NodupKeys uids t.pending v.pending_keys;
  active_keys = v.active_keys;
  keyed = consume-Keyed uids t.pending v.keyed;
}
Step-IsValid (marks {t} uid pod dev path) v = record {
  pending_keys = v.pending_keys;
  active_keys = insert-NodupKeys uid _ t.active v.active_keys;
  keyed = v.keyed;
}
Step-IsValid (forgets {t} uid) v = elim (Option-cases (lookup uid t.active)) [
  | inl q ↦ rw (q, remove_active) v
  | inr (m, q) ↦
      rw (q, remove_active)
        (record {
          pending_keys = v.pending_keys;
          active_keys = erase-NodupKeys uid t.active v.active_keys;
          keyed = v.keyed;
        })
]
Step-IsValid (stops {t} pod) v = record {
  pending_keys = v.pending_keys;
  active_keys = remove_for_pod-NodupKeys pod t.active v.active_keys;
  keyed = v.keyed;
}

pub new_rdma_netns_tracker-IsValid : IsValid new_rdma_netns_tracker
unfolding new_rdma_netns_tracker
new_rdma_netns_tracker-IsValid = record {
  pending_keys = tt;
  active_keys = tt;
  keyed = λ k m q. absurd (ground (arith, lookup-nil {V = PendingMove} k));
}

-- Every sequence of calls of the tracker's methods keeps a valid tracker valid.
pub Reaches-IsValid : {t u : RdmaNetnsTracker} → Reaches t u → IsValid t → IsValid u
Reaches-IsValid here v = v
Reaches-IsValid (step s r) v = Reaches-IsValid r (Step-IsValid s v)
