-- ===== src/Rdma/Uverbs/Pending.antt =====
-- The pending move of a claim under `Prepare` and `Unprepare` of the uverbs handler
-- (pkg/handler/rdma/uverbs.go).
use dra_multi_things.Base.{
  sym, Str, [], ◌∷◌, lit, ◌≡◌, refl, ap, ◌∙◌, str_eq, if◌then◌else◌, Bool, true, false, none, inl,
  inr, arith, Option-cases, sum-cases, Bool-cases,
}
use dra_multi_things.Base.Dict.{lookup, erase, lookup-insert, lookup-erase}
use dra_multi_things.Base.FilePath.{filepath_join}
use dra_multi_things.Handler.{PrepareRequest, PrepareResult, UnprepareRequest, meta}
use dra_multi_things.Nri.Tracker.{RdmaNetnsTracker, add_pending, remove_pending, remove_active}
use dra_multi_things.Rdma.Mode.{detect_netns_mode}
use dra_multi_things.Rdma.Namespaces.{init_ns, return_rdma_to_host}
use dra_multi_things.Rdma.Uverbs.{
  moves_device, register_move, release_device, prepare, unprepare, choose_uverbs, exists,
  uverbs_result, resolve_ib_device, ib_dev_dir,
}
use dra_multi_things.System.Errors.{Outcome, ok, err, panic}
use dra_multi_things.System.Netlink.{Netlink}
use dra_multi_things.System.Os.{Os}
use dra_multi_things.System.Triple.{Triple, Post, bind, value_holds}
use dra_multi_things.System.World.{World}

remove_active-pending :
    (uid : Str) (t : RdmaNetnsTracker) → (remove_active uid t).1.pending ≡ t.pending
unfolding remove_active
remove_active-pending uid t = elim (Option-cases (lookup uid t.active)) [
  | inl q ↦ rw (q, remove_active) refl
  | inr (m, q) ↦ rw (q, remove_active) refl
]

module _ {N : Netlink} where
  return_rdma_to_host-tracker :
      (ib path : Str) (w : World N) → (return_rdma_to_host ib path w).tracker ≡ w.tracker
  unfolding return_rdma_to_host
  return_rdma_to_host-tracker ib path w = elim (sum-cases (N.ns_from_path w.net init_ns)) [
    | inl (e, q) ↦ rw (q, return_rdma_to_host) refl
    | inr (h, q) ↦ rw (q, return_rdma_to_host) refl
  ]

  release_device-pending :
      (uid ib : Str) (w : World N)
      → (release_device uid ib w).tracker.pending ≡ erase uid w.tracker.pending
  unfolding release_device remove_pending
  release_device-pending uid ib w =
      ap (λ t. t.pending) (return_rdma_to_host-tracker ib _ _)
      ∙ remove_active-pending uid (remove_pending uid w.tracker)

-- The IB device that an allocation names.
abbrev pub dev_of : UnprepareRequest → Str
dev_of req = meta (lit "ibdev") req.allocation.metadata

module _ {N : Netlink} (tracked : Bool) where
  -- The mode that a call has found is what the next call sees.
  moves_device-moves_device :
      (ib : Str) (w v : World N)
      → v.cached_mode ≡ (moves_device tracked ib w).1.cached_mode
      → moves_device tracked ib v ≡ ((moves_device tracked ib w).0, v)
  unfolding moves_device detect_netns_mode
  moves_device-moves_device ib w v h = elim (Option-cases w.cached_mode) [
    | inl q ↦ ground arith
    | inr (m, q) ↦ ground arith
  ]

  moves_device-tracker :
      (ib : Str) (w : World N) → (moves_device tracked ib w).1.tracker ≡ w.tracker
  unfolding moves_device detect_netns_mode
  moves_device-tracker ib w = ground arith

  register_move-moves :
      (uid ib : Str) (w : World N)
      → (moves_device tracked ib w).0 ≡ true
      → (register_move tracked uid ib w).tracker ≡ add_pending uid ib w.tracker
  unfolding register_move
  register_move-moves uid ib w b = ground (arith, moves_device-tracker ib w)

  register_move-stays :
      (uid ib : Str) (w : World N)
      → (moves_device tracked ib w).0 ≡ false
      → (register_move tracked uid ib w).tracker ≡ w.tracker
  unfolding register_move
  register_move-stays uid ib w b = ground (arith, moves_device-tracker ib w)

  register_move-mode :
      (uid ib : Str) (w : World N)
      → (register_move tracked uid ib w).cached_mode ≡ (moves_device tracked ib w).1.cached_mode
  unfolding register_move
  register_move-mode uid ib w = ground arith

  unprepare_world :
      (req : UnprepareRequest) (v : World N) (b : Bool)
      → moves_device tracked (dev_of req) v ≡ (b, v)
      → (unprepare tracked req v).1
        ≡ (if b then release_device req.allocation.claim_uid (dev_of req) v else v)
  unfolding unprepare
  unprepare_world req v b e =
      ap (λ o. if o.0 then release_device req.allocation.claim_uid (dev_of req) o.1 else o.1) e

  -- `Unprepare` in a world whose tracker and mode are those that `register_move` left.
  pub unprepare-register_move :
      (req : UnprepareRequest) (k : Str) (w v : World N)
      → v.tracker ≡ (register_move tracked req.allocation.claim_uid (dev_of req) w).tracker
      → v.cached_mode ≡ (register_move tracked req.allocation.claim_uid (dev_of req) w).cached_mode
      → lookup req.allocation.claim_uid w.tracker.pending ≡ none
      → lookup k (unprepare tracked req v).1.tracker.pending ≡ lookup k w.tracker.pending
  unfolding unprepare add_pending
  unprepare-register_move req k w v t m h =
      let uid = req.allocation.claim_uid in
      let ib = dev_of req in
      let again = moves_device-moves_device ib w v (m ∙ register_move-mode uid ib w) in
      elim (Bool-cases (moves_device tracked ib w).0) [
        | inl b ↦
            let out = unprepare_world req v true (again ∙ ap (λ x. (x, v)) b) in
            ap (λ x. lookup k x.tracker.pending) out
            ∙ ap (lookup k) (release_device-pending uid ib v)
            ∙ ap (λ x. lookup k (erase uid x.pending)) (t ∙ register_move-moves uid ib w b)
            ∙ ground (
              arith,
              lookup-erase k uid (add_pending uid ib w.tracker).pending,
              lookup-insert k uid (record { ib_dev = ib; claim_uid = uid }) w.tracker.pending,
            )
        | inr b ↦
            let out = unprepare_world req v false (again ∙ ap (λ x. (x, v)) b) in
            ap (λ x. lookup k x.tracker.pending) out
            ∙ ap (λ x. lookup k x.pending) (t ∙ register_move-stays uid ib w b)
      ]

module _ {N : Netlink} (w : World N) where
  keep-Post :
      {A : Type 0} (o : Outcome A) (v : World N) → v ≡ w → Post (λ _ u. u ≡ w) (λ u. u ≡ w) Unit o v
  keep-Post (ok a) v h = h
  keep-Post (err e) v h = h
  keep-Post panic v h = tt

  -- A step that only reads.
  keep_rule :
      {A : Type 0} (m : World N → Outcome A × World N)
      → ((v : World N) → (m v).1 ≡ v)
      → Triple (λ v. v ≡ w) m (λ _ v. v ≡ w) (λ v. v ≡ w) Unit
  keep_rule m h = record { holds = λ v q. keep-Post (m v).0 (m v).1 (h v ∙ q) }

  choose_uverbs-same : (a : Str) (v : World N) → (choose_uverbs a v).1 ≡ v
  unfolding choose_uverbs
  choose_uverbs-same a v = ground arith

  exists-same : (path : Str) (v : World N) → (exists path v).1 ≡ v
  exists-same path v = ground arith

  -- What `Prepare` leaves for a result: the claim and the device by which `Unprepare` releases.
  pub record Registered (tracked : Bool) (uid : Str) (r : PrepareResult) (v : World N)
      : Type 0 where
    pub left : v ≡ register_move tracked uid (meta (lit "ibdev") r.allocation.metadata) w
    pub claimed : r.allocation.claim_uid ≡ uid

  uverbs_result-dev :
      (os : Os) (uid dev : Str)
      → meta (lit "ibdev") (uverbs_result os uid dev).allocation.metadata ≡ resolve_ib_device os dev
  unfolding uverbs_result lookup lit
  uverbs_result-dev os uid dev = ground arith

  uverbs_result-claim :
      (os : Os) (uid dev : Str) → (uverbs_result os uid dev).allocation.claim_uid ≡ uid
  unfolding uverbs_result
  uverbs_result-claim os uid dev = refl

  pub prepare_rule :
      (tracked : Bool) (req : PrepareRequest)
      → Triple
          (λ v. v ≡ w)
          (prepare tracked req)
          (Registered tracked req.claim_uid)
          (λ v. v ≡ w)
          Unit
  unfolding prepare
  prepare_rule tracked req =
      bind
        (keep_rule (choose_uverbs req.allocated_device) (choose_uverbs-same req.allocated_device))
        λ dev.
          let path = filepath_join (ib_dev_dir ∷ dev ∷ []) in
          bind (keep_rule (exists path) (exists-same path)) λ _. record {
            holds = λ v q. record {
              left =
                  ap (register_move tracked req.claim_uid (resolve_ib_device v.os dev)) q
                  ∙ ap (λ ib. register_move tracked req.claim_uid ib w)
                      (sym (uverbs_result-dev v.os req.claim_uid dev));
              claimed = uverbs_result-claim v.os req.claim_uid dev;
            };
          }

module _ {N : Netlink} (tracked : Bool) where
  -- `Unprepare` after `Prepare`, with whatever else may have happened to the kernel and the files.
  pub unprepare-Registered :
      (uid k : Str) (r : PrepareResult) (w v u : World N)
      → Registered w tracked uid r v
      → u.tracker ≡ v.tracker
      → u.cached_mode ≡ v.cached_mode
      → lookup uid w.tracker.pending ≡ none
      → lookup k
          (unprepare tracked
            (record { claim_uid = uid; allocation = r.allocation })
            u).1.tracker.pending
        ≡ lookup k w.tracker.pending
  unprepare-Registered uid k r w v u g t m h =
      let req : UnprepareRequest = record { claim_uid = uid; allocation = r.allocation } in
      let moved = g.left ∙ ap (λ x. register_move tracked x (dev_of req) w) (sym g.claimed) in
      unprepare-register_move tracked req k w u (t ∙ ap (λ x. x.tracker) moved)
        (m ∙ ap (λ x. x.cached_mode) moved) (ap (λ x. lookup x w.tracker.pending) g.claimed ∙ h)

  -- If a claim has no pending move, then after `Prepare` with a result and `Unprepare` of its
  -- allocation the pending move of any claim `k` is the one that it had before.
  pub unprepare-prepare_uverbs :
      (req : PrepareRequest) (k : Str) (w : World N) {r : PrepareResult}
      → lookup req.claim_uid w.tracker.pending ≡ none
      → (prepare tracked req w).0 ≡ ok r
      → lookup k
          (unprepare tracked
            (record { claim_uid = req.claim_uid; allocation = r.allocation })
            (prepare tracked req w).1).1.tracker.pending
        ≡ lookup k w.tracker.pending
  unprepare-prepare_uverbs req k w {r} h q =
      let v = (prepare tracked req w).1 in
      unprepare-Registered req.claim_uid k r w v v
        (value_holds (prepare_rule w tracked req) w refl q) refl refl h
