-- ===== src/Nri/Tracker/Pending.antt =====
-- What `ConsumePendingForClaims` takes and what it leaves (pkg/nri/tracker.go).
use dra_multi_things.Base.{
  true, ◌≡◌, refl, Str, str_eq, if◌then◌else◌, false, List, [], ◌∷◌, none, some, contains, NodupStr,
  arith,
}
use dra_multi_things.Base.Dict.{Dict, lookup, erase, lookup-erase}
use dra_multi_things.Nri.Tracker.{
  PendingMove, RdmaNetnsTracker, consume, consume_pending_for_claims,
}

-- What the map holds for the texts of a list, in the list's order.
abbrev pub gather : List Str → Dict Str PendingMove → List PendingMove
gather [] pending = []
gather (uid ∷ uids) pending = elim (lookup uid pending) [
  | none ↦ gather uids pending
  | some m ↦ m ∷ gather uids pending
]

pub lookup-consume :
    (uids : List Str) (pending : Dict Str PendingMove) (k : Str)
    → lookup k (consume uids pending).1 ≡ (if contains uids k then none else lookup k pending)
unfolding consume
lookup-consume [] pending k = refl
lookup-consume (uid ∷ uids) pending k = ground (
  arith,
  lookup-consume uids pending k,
  lookup-consume uids (erase uid pending) k,
  lookup-erase k uid pending,
)

gather-erase :
    (uids : List Str) (uid : Str) (pending : Dict Str PendingMove)
    → contains uids uid ≡ false
    → gather uids (erase uid pending) ≡ gather uids pending
gather-erase [] uid pending h = refl
gather-erase (x ∷ uids) uid pending h =
    ground (arith, gather-erase uids uid pending, lookup-erase x uid pending)

consume-gather :
    (uids : List Str) (pending : Dict Str PendingMove)
    → NodupStr uids
    → (consume uids pending).0 ≡ gather uids pending
unfolding consume
consume-gather [] pending u = refl
consume-gather (uid ∷ uids) pending u = ground (
  arith,
  consume-gather uids pending u.1,
  consume-gather uids (erase uid pending) u.1,
  gather-erase uids uid pending,
)

-- Consuming the pending moves of distinct claims takes the move of each claim that has one, in the
-- order of the claims; afterwards none of these claims has a pending move, that of any other claim
-- `k` is as before, and so are the active moves.
pub consume_pending_for_claims_lem :
    (uids : List Str) (t : RdmaNetnsTracker) (k : Str)
    → NodupStr uids
    → let out = consume_pending_for_claims uids t in
      (out.0 ≡ gather uids t.pending)
      × ((lookup k out.1.pending ≡ (if contains uids k then none else lookup k t.pending))
          × (out.1.active ≡ t.active))
unfolding consume_pending_for_claims
consume_pending_for_claims_lem uids t k u =
    (consume-gather uids t.pending u, (lookup-consume uids t.pending k, refl))

consume-none :
    (uids : List Str) (pending : Dict Str PendingMove)
    → ((k : Str) → contains uids k ≡ true → lookup k pending ≡ none)
    → consume uids pending ≡ ([], pending)
unfolding consume
consume-none [] pending h = refl
consume-none (uid ∷ uids) pending h =
    rw (h uid (ground arith), consume) (consume-none uids pending (λ k q. h k (ground arith)))

-- A pending move is consumed at most once: consuming again for the same claims takes nothing and
-- changes nothing.
pub consume_pending_for_claims-consume_pending_for_claims :
    (uids : List Str) (t : RdmaNetnsTracker)
    → let out = consume_pending_for_claims uids t in
      consume_pending_for_claims uids out.1 ≡ ([], out.1)
unfolding consume_pending_for_claims
consume_pending_for_claims-consume_pending_for_claims uids t =
    let gone : (k : Str) → contains uids k ≡ true → lookup k (consume uids t.pending).1 ≡ none =
      λ k q. ground (arith, lookup-consume uids t.pending k) in
    rw (consume-none uids (consume uids t.pending).1 gone) refl
