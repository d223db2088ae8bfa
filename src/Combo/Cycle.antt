-- ===== src/Combo/Cycle.antt =====
-- `Unprepare` after `Prepare` of the RoCE handler (pkg/handler/combo/roce.go), with the uverbs and
-- the dummy handler, as cmd/dra-driver/main.go makes it.
use dra_multi_things.Base.{
  ◌≡◌, ◌≢◌, refl, ap, sym, ◌∙◌, Str, str_eq, lit, List, Bool, [], none, inl, inr, arith, sum-cases,
}
use dra_multi_things.Base.Dict.{lookup}
use dra_multi_things.Combo.{
  rdma_request, netdev_request, rolled_back, finish, prepare, unprepare, roce_handler, roce_result,
  netdev_allocation, rdma_allocation,
}
use dra_multi_things.Combo.Rollback.{Framed, dummy-Frames}
use dra_multi_things.Handler.{PrepareRequest, PrepareResult, UnprepareRequest, meta}
use dra_multi_things.Netdev.Dummy.{dummy_handler}
use dra_multi_things.Netdev.Dummy
use dra_multi_things.Netdev.Rollback.{Prepared}
use dra_multi_things.Netdev.RoundTrip.{
  unprepare_created-restores, prepare-Prepared, dummy, names_of,
}
use dra_multi_things.Netdev.Undo.{Made}
use dra_multi_things.Rdma.Uverbs.{uverbs_handler, register_move}
use dra_multi_things.Rdma.Uverbs
use dra_multi_things.Rdma.Uverbs.Pending.{Registered, unprepare-register_move, dev_of}
use dra_multi_things.Rdma.Uverbs.Pending
use dra_multi_things.System.Errors.{Error, Outcome, ok, err, panic}
use dra_multi_things.System.Netlink.{Netlink, Link, attrs, IsLawful, DeletesCleanly}
use dra_multi_things.System.Triple.{
  Triple, Post, bind, wrap_rule, require_rule, assuming, value_holds, error_rule,
}
use dra_multi_things.System.World.{World}

-- What `Unprepare` reads of the allocation.
ibdev-roce_result :
    (uid claim : Str) (rdma net : PrepareResult)
    → meta
        (lit "ibdev")
        (rdma_allocation (record {
          claim_uid = claim;
          allocation = (roce_result uid rdma net).allocation;
        })).metadata
      ≡ meta (lit "ibdev") rdma.allocation.metadata
unfolding rdma_allocation roce_result lookup lit str_eq
ibdev-roce_result uid claim rdma net = refl

created-roce_result :
    (uid claim : Str) (rdma net : PrepareResult)
    → meta
        (lit "createdInterface")
        (netdev_allocation (record {
          claim_uid = claim;
          allocation = (roce_result uid rdma net).allocation;
        })).metadata
      ≡ meta (lit "createdInterface") net.allocation.metadata
unfolding netdev_allocation roce_result lookup lit str_eq
created-roce_result uid claim rdma net = refl

module _ {N : Netlink} where
  -- Deleting a link leaves the tracker and the cached mode alone.
  delete-Framed : (req : UnprepareRequest) (v : World N) → Framed v (Dummy.unprepare req v).1
  unfolding Dummy.unprepare
  delete-Framed req v =
      let name = meta (lit "createdInterface") req.allocation.metadata in
      elim (sum-cases (N.link_by_name v.net name)) [
        | inl (e, q) ↦ ground arith
        | inr (l, q) ↦ ground arith
      ]

module _ {N : Netlink} {group : N.State → Str → List Str} (L : IsLawful N group)
    (D : DeletesCleanly N) (tracked : Bool) (req : PrepareRequest) (w : World N) where
  -- What the two handlers left for the result, and the world between them.
  record Assembled (r : PrepareResult) (v : World N) : Type 0 where
    rdma : PrepareResult
    net : PrepareResult
    between : World N
    result : r ≡ roce_result req.claim_uid rdma net
    registered : Registered w tracked req.claim_uid rdma between
    framed : Framed between v
    link : Link
    made : Made N group between.net link v.net
    recorded : meta (lit "createdInterface") net.allocation.metadata ≡ (attrs link).name
    not_empty : (attrs link).name ≢ []

  failed-Post :
      (e : Error) (o : Outcome (Unit {0})) (v : World N)
      → Post Assembled
          (λ _. Unit)
          Unit
          (rolled_back (uverbs_handler {N = N} tracked) dummy_handler e o)
          v
  failed-Post e (ok _) v = tt
  failed-Post e (err f) v = tt
  failed-Post e panic v = tt

  finish-Post :
      (nreq : PrepareRequest) (r : PrepareResult) (v : World N) (o : Outcome PrepareResult)
      (u : World N)
      → Registered w tracked req.claim_uid r v
      → Post (λ _ x. Framed v x) (λ x. Framed v x) Unit o u
      → ((net : PrepareResult)
          → o ≡ ok net
          → Prepared N group
              (lit "dummy")
              "createdInterface"
              (names_of dummy nreq.claim_uid)
              nreq
              v.net
              net
              u.net)
      → Post Assembled
          (λ _. Unit)
          Unit
          (finish (uverbs_handler tracked) dummy_handler req r o u).0
          (finish (uverbs_handler tracked) dummy_handler req r o u).1
  unfolding finish
  finish-Post nreq r v (ok net) u g f p =
      let q = p net refl in
      record {
        rdma = r;
        net = net;
        between = v;
        result = refl;
        registered = g;
        framed = f;
        link = q.link;
        made = q.made;
        recorded = q.recorded;
        not_empty = q.not_empty;
      }
  finish-Post nreq r v (err e) u g f p = failed-Post e _ _
  finish-Post nreq r v panic u g f p = tt

  roce_rule :
      Triple
        (λ v. v ≡ w)
        (prepare (uverbs_handler tracked) dummy_handler req)
        Assembled
        (λ _. Unit)
        Unit
  unfolding prepare uverbs_handler rdma_request
  roce_rule = bind (error_rule (require_rule req.config.combo _) (λ v _. tt)) λ cfg. assuming λ _.
      bind
        (wrap_rule "rdma prepare failed: %w" []
          (error_rule (Pending.prepare_rule w tracked (rdma_request req cfg)) (λ v _. tt)))
        λ r. record {
          holds = λ v g.
              let nreq = netdev_request req cfg in
              finish-Post nreq r v (dummy_handler.prepare nreq v).0 (dummy_handler.prepare nreq v).1
                g ((dummy-Frames.framed v nreq).holds v (refl, refl))
                (λ net q. prepare-Prepared N L D dummy nreq v q);
        }

  abbrev request : PrepareResult → UnprepareRequest
  request r = record { claim_uid = req.claim_uid; allocation = r.allocation }

  abbrev net_request : PrepareResult → UnprepareRequest
  net_request r = record { claim_uid = req.claim_uid; allocation = netdev_allocation (request r) }

  abbrev rdma_release : PrepareResult → UnprepareRequest
  rdma_release r = record { claim_uid = req.claim_uid; allocation = rdma_allocation (request r) }

  -- The link goes first.
  net-released :
      (r : PrepareResult) (v : World N)
      → Assembled r v
      → (Dummy.unprepare (net_request r) v).0 ≡ ok tt
  unfolding Dummy.unprepare
  net-released r v a =
      (unprepare_created-restores N L D "createdInterface" "failed to delete dummy interface %s: %w"
        a.between.net a.link (net_request r) v a.made a.not_empty
        (rw a.result (created-roce_result req.claim_uid req.claim_uid a.rdma a.net ∙ a.recorded))).0

  claim-rdma_release : (r : PrepareResult) → (rdma_release r).allocation.claim_uid ≡ req.claim_uid
  unfolding rdma_allocation
  claim-rdma_release r = refl

  dev-rdma_release :
      (r : PrepareResult) (v : World N) (a : Assembled r v)
      → dev_of (rdma_release r) ≡ meta (lit "ibdev") a.rdma.allocation.metadata
  dev-rdma_release r v a = rw a.result (ibdev-roce_result req.claim_uid req.claim_uid a.rdma a.net)

  -- The world behind the netdev handler has the tracker that the uverbs handler left.
  left :
      (r : PrepareResult) (v : World N) (a : Assembled r v)
      → a.between
        ≡ register_move tracked (rdma_release r).allocation.claim_uid (dev_of (rdma_release r)) w
  left r v a =
      a.registered.left
      ∙ ap (λ x. register_move tracked req.claim_uid x w) (sym (dev-rdma_release r v a))
      ∙ ap (λ x. register_move tracked x (dev_of (rdma_release r)) w) (sym (claim-rdma_release r))

  rdma-released :
      (r : PrepareResult) (v : World N) (k : Str)
      → Assembled r v
      → lookup req.claim_uid w.tracker.pending ≡ none
      → lookup k
          (Uverbs.unprepare tracked
            (rdma_release r)
            (Dummy.unprepare (net_request r) v).1).1.tracker.pending
        ≡ lookup k w.tracker.pending
  rdma-released r v k a h =
      let after = delete-Framed (net_request r) v in
      unprepare-register_move tracked (rdma_release r) k w (Dummy.unprepare (net_request r) v).1
        (after.0 ∙ a.framed.0 ∙ ap (λ x. x.tracker) (left r v a))
        (after.1 ∙ a.framed.1 ∙ ap (λ x. x.cached_mode) (left r v a))
        (ap (λ x. lookup x w.tracker.pending) (claim-rdma_release r) ∙ h)

  -- `Unprepare` after `Prepare`: the two halves.
  unprepare_halves :
      (r : PrepareResult) (v : World N)
      → Assembled r v
      → unprepare (uverbs_handler tracked) dummy_handler (request r) v ≡ (
        ok tt,
        (Uverbs.unprepare tracked (rdma_release r) (Dummy.unprepare (net_request r) v).1).1,
      )
  unfolding unprepare uverbs_handler dummy_handler Uverbs.unprepare
  unprepare_halves r v a = rw (net-released r v a, unprepare) refl

  -- If the claim has no pending move and Prepare of the RoCE handler, over the uverbs and the dummy
  -- handler, returns a result, then Unprepare of its allocation in the world that it left returns no
  -- error, and the pending move of any claim is as it was before Prepare. This holds in a lawful
  -- kernel that refuses no deletion.
  pub unprepare-prepare_roce :
      (k : Str) {r : PrepareResult}
      → lookup req.claim_uid w.tracker.pending ≡ none
      → ((roce_handler (uverbs_handler tracked) dummy_handler).prepare req w).0 ≡ ok r
      → let out =
          (roce_handler (uverbs_handler tracked) dummy_handler).unprepare
            (record { claim_uid = req.claim_uid; allocation = r.allocation })
            ((roce_handler (uverbs_handler tracked) dummy_handler).prepare req w).1 in
        (out.0 ≡ ok tt) × (lookup k out.1.tracker.pending ≡ lookup k w.tracker.pending)
  unfolding roce_handler
  unprepare-prepare_roce k {r} h q =
      let v = (prepare (uverbs_handler tracked) dummy_handler req w).1 in
      let a : Assembled r v = value_holds roce_rule w refl q in
      let halves = unprepare_halves r v a in
      (
        ap (λ x. x.0) halves,
        ap (λ x. lookup k x.1.tracker.pending) halves ∙ rdma-released r v k a h,
      )
