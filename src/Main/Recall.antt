-- ===== src/Main/Recall.antt =====
-- Preparing a RoCE claim twice with the handlers of the driver (cmd/dra-driver/main.go,
-- pkg/driver/driver.go, pkg/handler/combo/roce.go).
use dra_multi_things.Base.{
  ap, ◌≡◌, refl, sym, ◌∙◌, Str, str_eq, lit, List, [], ◌∷◌, some, none, arith,
}
use dra_multi_things.Base.Dict.{lookup, lookup-insert_self}
use dra_multi_things.Combo.{
  roce_handler, roce_result, finish, rolled_back, rdma_request, netdev_request,
}
use dra_multi_things.Combo
use dra_multi_things.Driver.Claim.{ResourceClaim, parse_config}
use dra_multi_things.Driver.Server.{
  Device, devices, cached_result, result_from_alloc, prepare_claim, after_spec, after_prepare,
  prepare_one,
}
use dra_multi_things.Driver.Server.Alike.{prepare_one-tracked}
use dra_multi_things.Driver.Store.{Driver, DriverState, cdi_device_id}
use dra_multi_things.Handler.{
  DeviceHandler, PrepareRequest, PrepareResult, get_kind, device_type_combo,
}
use dra_multi_things.Handler.Registry.{get}
use dra_multi_things.Main.{build_handler_registry}
use dra_multi_things.Main.Every.{every_combo, prepare_claim-Origin}
use dra_multi_things.System.Errors.{Error, Outcome, ok, err, panic}
use dra_multi_things.System.Monad.{require, wrap}
use dra_multi_things.System.Netlink.{Netlink}
use dra_multi_things.System.Triple.{Triple, Post, value_holds, bind, any_rule}
use dra_multi_things.System.World.{World}

-- One device without a name, and its CDI identifier.
abbrev pub nameless : Str → List Device
nameless driver_name =
    record {
      pool_name = lit "default";
      device_name = [];
      cdi_device_ids = cdi_device_id driver_name (lit "combo") [] ∷ [];
    }
    ∷ []

-- The allocation that the result has is answered by that.
record Forgets {N : Netlink} (h : DeviceHandler (World N)) : Type 0 where
  forgotten :
      (driver_name : Str) (req : PrepareRequest) (w : World N) (r : PrepareResult)
      → (h.prepare req w).0 ≡ ok r
      → cached_result driver_name r.allocation ≡ devices (nameless driver_name)

cached_result-roce_result :
    (driver_name uid : Str) (rdma net : PrepareResult)
    → cached_result driver_name (roce_result uid rdma net).allocation
      ≡ devices (nameless driver_name)
unfolding cached_result result_from_alloc roce_result lookup lit device_type_combo
cached_result-roce_result driver_name uid rdma net = ground arith

module _ {N : Netlink} (u d : DeviceHandler (World N)) (req : PrepareRequest) where
  -- The result is the merged one.
  abbrev Merged : PrepareResult → World N → Type 0
  Merged r w =
      (rdma : PrepareResult) × ((net : PrepareResult) × (r ≡ roce_result req.claim_uid rdma net))

  undone-Post :
      (e : Error) (o : Outcome (Unit {0})) (w : World N)
      → Post Merged (λ _. Unit) Unit (rolled_back u d e o) w
  undone-Post e (ok _) w = tt
  undone-Post e (err f) w = tt
  undone-Post e panic w = tt

  finish-Merged :
      (r : PrepareResult) (o : Outcome PrepareResult) (w : World N)
      → Post Merged (λ _. Unit) Unit (finish u d req r o w).0 (finish u d req r o w).1
  unfolding finish
  finish-Merged r (ok net) w = (r, (net, refl))
  finish-Merged r (err e) w = undone-Post e _ _
  finish-Merged r panic w = tt

  roce_rule : Triple (λ _. Unit) (Combo.prepare u d req) Merged (λ _. Unit) Unit
  unfolding Combo.prepare
  roce_rule = bind (any_rule (require req.config.combo _)) λ cfg.
      bind (any_rule (wrap "rdma prepare failed: %w" [] (u.prepare (rdma_request req cfg))))
        λ r. record { holds = λ w _. finish-Merged r _ _ }

module _ {N : Netlink} where
  roce-Forgets : (u d : DeviceHandler (World N)) → Forgets (roce_handler u d)
  unfolding roce_handler
  roce-Forgets u d = record {
    forgotten = λ driver_name req w r h.
        let (rdma, (net, same)) = value_holds (roce_rule u d req) w tt h in
        rw same (cached_result-roce_result driver_name req.claim_uid rdma net);
  }

module _ {N : Netlink} (dr : Driver N) (rc : ResourceClaim) where
  prepare_claim-forgotten :
      (w : World N) (r : PrepareResult)
      → dr.registry ≡ build_handler_registry
      → (parse_config dr.driver_name (some rc)).typ ≡ lit "combo"
      → (prepare_claim dr rc w).0 ≡ ok r
      → cached_result dr.driver_name r.allocation ≡ devices (nameless dr.driver_name)
  prepare_claim-forgotten w r e t h =
      let o = prepare_claim-Origin dr rc w r h in
      let cfg = parse_config dr.driver_name (some rc) in
      let found : get (lit "combo") (get_kind cfg) build_handler_registry ≡ some o.from =
        ap (λ x. get x (get_kind cfg) build_handler_registry) (sym t)
        ∙ ap (get cfg.typ (get_kind cfg)) (sym e)
        ∙ o.registered in
      (every_combo Forgets (get_kind cfg) (roce-Forgets _ _) found).forgotten dr.driver_name _ w r
        o.returned

  -- The claim's allocation is the one of a result.
  abbrev Stores : Outcome PrepareResult → DriverState N → Type 0
  Stores o d =
      (r : PrepareResult) × ((o ≡ ok r) × (lookup rc.uid d.allocations ≡ some r.allocation))

  after_spec-stores :
      (r : PrepareResult) (o : Outcome Str) (d : DriverState N) {ds : List Device}
      → (after_spec dr rc.uid r o d).0 ≡ ok (devices ds)
      → lookup rc.uid (after_spec dr rc.uid r o d).1.allocations ≡ some r.allocation
  unfolding after_spec
  after_spec-stores r (ok id) d h = lookup-insert_self rc.uid r.allocation d.allocations
  after_spec-stores r (err e) d h = absurd (ground arith)
  after_spec-stores r panic d h = absurd (ground arith)

  after_prepare-Stores :
      (o : Outcome PrepareResult) (d : DriverState N) {ds : List Device}
      → (after_prepare dr rc.uid o d).0 ≡ ok (devices ds)
      → Stores o (after_prepare dr rc.uid o d).1
  unfolding after_prepare
  after_prepare-Stores (ok r) d h = (r, (refl, after_spec-stores r _ _ h))
  after_prepare-Stores (err e) d h = absurd (ground arith)
  after_prepare-Stores panic d h = absurd (ground arith)

  prepare_one-Stores :
      (d : DriverState N) {ds : List Device}
      → lookup rc.uid d.allocations ≡ none
      → (prepare_one dr rc d).0 ≡ ok (devices ds)
      → Stores (prepare_claim dr rc d.world).0 (prepare_one dr rc d).1
  unfolding prepare_one
  prepare_one-Stores d q h =
      rw (q, prepare_one)
        (after_prepare-Stores (prepare_claim dr rc d.world).0 _ (rw (q, prepare_one) at h))

  -- With the handlers of the driver, if a claim that the driver does not track gets devices, and its
  -- configuration is for the RoCE handler, then preparing it again changes nothing, but answers with
  -- one device without a name, in the pool `default`, with the CDI identifier of type `combo` that
  -- has no device name behind it, whatever devices the first answer named.
  pub prepare_one-repeat_roce :
      (d : DriverState N) {ds : List Device}
      → dr.registry ≡ build_handler_registry
      → (parse_config dr.driver_name (some rc)).typ ≡ lit "combo"
      → lookup rc.uid d.allocations ≡ none
      → (prepare_one dr rc d).0 ≡ ok (devices ds)
      → prepare_one dr rc (prepare_one dr rc d).1
        ≡ (ok (devices (nameless dr.driver_name)), (prepare_one dr rc d).1)
  prepare_one-repeat_roce d e t q h =
      let (r, (returned, tracked)) = prepare_one-Stores d q h in
      prepare_one-tracked dr rc (prepare_one dr rc d).1 r.allocation tracked
      ∙ ap (λ x. (ok x, (prepare_one dr rc d).1)) (prepare_claim-forgotten d.world r e t returned)
