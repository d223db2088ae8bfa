-- ===== src/Combo/Rollback.antt =====
-- A RoCE preparation that fails (pkg/handler/combo/roce.go), with the uverbs handler.
use dra_multi_things.Base.{
  ◌≡◌, refl, ap, Str, str_eq, lit, leb, length, ◌++◌, Bool, false, [], Option, none, some, ◌⊎◌, inl,
  inr,
}
use dra_multi_things.Base.Dict.{lookup}
use dra_multi_things.Combo.{
  rdma_request, netdev_request, rolled_back, finish, prepare, roce_handler,
}
use dra_multi_things.Handler.{PrepareRequest, PrepareResult, DeviceHandler}
use dra_multi_things.Netdev.Create.{new_attrs}
use dra_multi_things.Netdev.Dummy.{dummy_handler}
use dra_multi_things.Netdev.Dummy
use dra_multi_things.Rdma.Uverbs.{uverbs_handler}
use dra_multi_things.Rdma.Uverbs
use dra_multi_things.Rdma.Uverbs.Pending.{Registered, unprepare-Registered}
use dra_multi_things.Rdma.Uverbs.Pending
use dra_multi_things.System.Errors.{Error, Outcome, ok, err, panic}
use dra_multi_things.System.Monad.{from_sum, done, call, link_by_name, link_del}
use dra_multi_things.System.Netlink.{Netlink, Link}
use dra_multi_things.System.Triple.{
  Triple, Post, bind, wrap_rule, on_error_rule, require_rule, slice_to_rule, assuming, pure_rule,
  relax, error_rule, error_holds,
}
use dra_multi_things.System.World.{World}

module _ {N : Netlink} where
  -- The tracker and the cached mode are those of another world.
  abbrev pub Framed : World N → World N → Type 0
  Framed w v = (v.tracker ≡ w.tracker) × (v.cached_mode ≡ w.cached_mode)

  -- A handler whose `Prepare` leaves the tracker and the cached mode alone.
  pub record Frames (d : DeviceHandler (World N)) : Type 0 where
    pub framed :
        (w : World N) (req : PrepareRequest)
        → Triple (λ v. Framed w v) (d.prepare req) (λ _ v. Framed w v) (λ v. Framed w v) Unit

module _ {N : Netlink} (w : World N) where
  done-Post :
      (X : Type 0) (e : Option Error) (v : World N)
      → Framed w v
      → Post (λ _ u. Framed w u) (λ u. Framed w u) X (done e) v
  done-Post X none v h = h
  done-Post X (some e) v h = h

  sum-Post :
      {A : Type 0} (X : Type 0) (r : Error ⊎ A) (v : World N)
      → Framed w v
      → Post (λ _ u. Framed w u) (λ u. Framed w u) X (from_sum r v).0 (from_sum r v).1
  sum-Post X (inl e) v h = h
  sum-Post X (inr a) v h = h

  call_rule :
      {X : Type 0} (f : N.State → Option Error × N.State)
      → Triple (λ v. Framed w v) (call {N = N} f) (λ _ v. Framed w v) (λ v. Framed w v) X
  call_rule {X} f = record {
    holds = λ v h. done-Post X (f v.net).0 (record v { net = (f v.net).1 }) h;
  }

  find_rule :
      {X : Type 0} (n : Str)
      → Triple (λ v. Framed w v) (link_by_name {N = N} n) (λ _ v. Framed w v) (λ v. Framed w v) X
  find_rule {X} n = record { holds = λ v h. sum-Post X (N.link_by_name v.net n) v h }

  dummy_rule :
      (req : PrepareRequest)
      → Triple
          (λ v. Framed w v)
          (Dummy.prepare req)
          (λ _ v. Framed w v)
          (λ v. Framed w v)
          (leb 8 (length req.claim_uid) ≡ false)
  unfolding Dummy.prepare
  dummy_rule req = bind (require_rule req.config.netdev _) λ cfg. assuming λ _.
      bind (slice_to_rule 8 req.claim_uid) λ uid. assuming λ _.
        let l = Link.dummy (new_attrs (lit "dm" ++ uid) cfg) in
        bind (wrap_rule _ _ (call_rule (λ s. N.link_add s l))) λ _.
          bind (on_error_rule (link_del l) (wrap_rule _ _ (find_rule (lit "dm" ++ uid))) (λ v h. h))
            λ k.
              bind
                (on_error_rule (link_del k) (wrap_rule _ _ (call_rule (λ s. N.link_set_up s k)))
                  (λ v h. h))
                λ _. pure_rule _ λ v h. h

module _ {N : Netlink} where
  pub dummy-Frames : Frames {N = N} dummy_handler
  unfolding dummy_handler
  dummy-Frames = record { framed = λ w req. relax (dummy_rule w req) }

module _ {N : Netlink} (tracked : Bool) (d : DeviceHandler (World N)) (w : World N) (k : Str) where
  -- The pending move of `k` is as before.
  abbrev Restored : World N → Type 0
  Restored v = lookup k v.tracker.pending ≡ lookup k w.tracker.pending

  rolled_back-Post :
      (e : Error) (o : Outcome (Unit {0})) (v : World N)
      → Restored v
      → Post (λ _ _. Unit) Restored Unit (rolled_back (uverbs_handler tracked) d e o) v
  rolled_back-Post e (ok _) v h = h
  rolled_back-Post e (err f) v h = h
  rolled_back-Post e panic v h = tt

  finish-Post :
      (req : PrepareRequest) (r : PrepareResult) (v : World N) (o : Outcome PrepareResult)
      (u : World N)
      → lookup req.claim_uid w.tracker.pending ≡ none
      → Registered w tracked req.claim_uid r v
      → Post (λ _ x. Framed v x) (λ x. Framed v x) Unit o u
      → Post
          (λ _ _. Unit)
          Restored
          Unit
          (finish (uverbs_handler tracked) d req r o u).0
          (finish (uverbs_handler tracked) d req r o u).1
  unfolding finish uverbs_handler
  finish-Post req r v (ok net) u h g f = tt
  finish-Post req r v (err e) u h g f =
      rolled_back-Post e _ _ (unprepare-Registered tracked req.claim_uid k r w v u g f.0 f.1 h)
  finish-Post req r v panic u h g f = tt

  uverbs-Restored :
      (req : PrepareRequest)
      → Triple
          (λ v. v ≡ w)
          (Uverbs.prepare tracked req)
          (Registered w tracked req.claim_uid)
          Restored
          Unit
  uverbs-Restored req =
      error_rule (Pending.prepare_rule w tracked req) λ v q. ap (λ x. lookup k x.tracker.pending) q

  roce_rule :
      (req : PrepareRequest)
      → Frames d
      → lookup req.claim_uid w.tracker.pending ≡ none
      → Triple (λ v. v ≡ w) (prepare (uverbs_handler tracked) d req) (λ _ _. Unit) Restored Unit
  unfolding prepare uverbs_handler rdma_request
  roce_rule req f h =
      bind
        (error_rule (require_rule req.config.combo _)
          (λ v q. ap (λ x. lookup k x.tracker.pending) q))
        λ cfg. assuming λ _.
          bind (wrap_rule "rdma prepare failed: %w" [] (uverbs-Restored (rdma_request req cfg)))
            λ r. record {
              holds = λ v g.
                  finish-Post req r v (d.prepare (netdev_request req cfg) v).0
                    (d.prepare (netdev_request req cfg) v).1 h g
                    ((f.framed v (netdev_request req cfg)).holds v (refl, refl));
            }

-- If `Prepare` of the RoCE handler, over the uverbs handler and a netdev handler that leaves the
-- tracker alone, returns an error, the pending move of any claim `k` is as before, provided that
-- the claim itself had none.
pub roce-rolls_back :
    {N : Netlink} (tracked : Bool) (d : DeviceHandler (World N)) (req : PrepareRequest) (k : Str)
    (w : World N) {e : Error}
    → Frames d
    → lookup req.claim_uid w.tracker.pending ≡ none
    → ((roce_handler (uverbs_handler tracked) d).prepare req w).0 ≡ err e
    → lookup k ((roce_handler (uverbs_handler tracked) d).prepare req w).1.tracker.pending
      ≡ lookup k w.tracker.pending
unfolding roce_handler
roce-rolls_back tracked d req k w f h q = error_holds (roce_rule tracked d w k req f h) w refl q
