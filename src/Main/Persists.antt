-- ===== src/Main/Persists.antt =====
-- What the handlers of the driver return, as the content of a sidecar file (pkg/handler,
-- cmd/dra-driver/main.go).
use dra_multi_things.Base.{◌≡◌, refl, sym, ap, ◌∙◌, Str, str_eq, List, lit, [], true, some, arith}
use dra_multi_things.Base.Dict.{lookup}
use dra_multi_things.Combo.{
  roce_handler, roce_result, finish, rolled_back, rdma_request, netdev_request,
}
use dra_multi_things.Combo
use dra_multi_things.Driver.Claim.{ResourceClaim, parse_config}
use dra_multi_things.Driver.Server.{prepare_claim}
use dra_multi_things.Driver.Store.{Driver}
use dra_multi_things.Handler.{DeviceHandler, PrepareRequest, PrepareResult, Restorable, get_kind}
use dra_multi_things.Handler.Registry.{get}
use dra_multi_things.Main.{build_handler_registry}
use dra_multi_things.Main.Every.{every_handler, prepare_claim-Origin}
use dra_multi_things.Main.Repeat.{uverbs_rule}
use dra_multi_things.Netdev.HostDevice.{host_device_handler}
use dra_multi_things.Netdev.Physical.{host_device_rule, sriov_rule}
use dra_multi_things.Netdev.RoundTrip.{Creator, handler, prepare-Prepared}
use dra_multi_things.Netdev.Sriov.{sriov_vf_handler}
use dra_multi_things.Rdma.Uverbs.{uverbs_handler}
use dra_multi_things.System.Errors.{Error, Outcome, ok, err, panic}
use dra_multi_things.System.Monad.{require, wrap}
use dra_multi_things.System.Netlink.{Netlink, IsLawful, DeletesCleanly}
use dra_multi_things.System.Triple.{Triple, Post, value_holds, bind, any_rule}
use dra_multi_things.System.World.{World}

-- Each result of the handler can be written and read back for the claim.
record Persists {N : Netlink} (h : DeviceHandler (World N)) : Type 0 where
  restorable :
      (req : PrepareRequest) (w : World N) (r : PrepareResult)
      → (h.prepare req w).0 ≡ ok r
      → Restorable req.claim_uid r

roce_result-Restorable :
    (uid : Str) (rdma net : PrepareResult) → Restorable uid (roce_result uid rdma net)
unfolding roce_result lookup lit
roce_result-Restorable uid rdma net = (refl, ground arith)

module _ {N : Netlink} where
  host_device-Persists : Persists {N = N} host_device_handler
  unfolding host_device_handler
  host_device-Persists = record {
    restorable = λ req w r h. (value_holds (host_device_rule req) w tt h).1;
  }

  sriov-Persists : Persists {N = N} sriov_vf_handler
  unfolding sriov_vf_handler
  sriov-Persists = record { restorable = λ req w r h. (value_holds (sriov_rule req) w tt h).1 }

  uverbs-Persists : Persists {N = N} (uverbs_handler true)
  unfolding uverbs_handler
  uverbs-Persists = record {
    restorable = λ req w r h. (value_holds (uverbs_rule true req) w tt h).1;
  }

  module _ (u d : DeviceHandler (World N)) (req : PrepareRequest) where
    undone-Post :
        (e : Error) (o : Outcome (Unit {0})) (w : World N)
        → Post (λ r _. Restorable req.claim_uid r) (λ _. Unit) Unit (rolled_back u d e o) w
    undone-Post e (ok _) w = tt
    undone-Post e (err f) w = tt
    undone-Post e panic w = tt

    finish-Restorable :
        (r : PrepareResult) (o : Outcome PrepareResult) (w : World N)
        → Post
            (λ r _. Restorable req.claim_uid r)
            (λ _. Unit)
            Unit
            (finish u d req r o w).0
            (finish u d req r o w).1
    unfolding finish
    finish-Restorable r (ok net) w = roce_result-Restorable req.claim_uid r net
    finish-Restorable r (err e) w = undone-Post e _ _
    finish-Restorable r panic w = tt

    roce_rule :
        Triple
          (λ _. Unit)
          (Combo.prepare u d req)
          (λ r _. Restorable req.claim_uid r)
          (λ _. Unit)
          Unit
    unfolding Combo.prepare
    roce_rule = bind (any_rule (require req.config.combo _)) λ cfg.
        bind (any_rule (wrap "rdma prepare failed: %w" [] (u.prepare (rdma_request req cfg))))
          λ r. record { holds = λ w _. finish-Restorable r _ _ }

  roce-Persists : (u d : DeviceHandler (World N)) → Persists (roce_handler u d)
  unfolding roce_handler
  roce-Persists u d = record { restorable = λ req w r h. value_holds (roce_rule u d req) w tt h }

module _ (N : Netlink) {group : N.State → Str → List Str} (L : IsLawful N group)
    (D : DeletesCleanly N) where
  creator-Persists : (c : Creator) → Persists {N = N} (handler c)
  creator-Persists c = record {
    restorable = λ req w r h. (prepare-Prepared N L D c req w h).restorable;
  }

  registry-Persists :
      (typ kind : Str) {h : DeviceHandler (World N)}
      → get typ kind (build_handler_registry {N = N}) ≡ some h
      → Persists h
  registry-Persists typ kind =
      every_handler Persists creator-Persists host_device-Persists sriov-Persists uverbs-Persists
        typ kind (roce-Persists _ _)

  module _ (dr : Driver N) (e : dr.registry ≡ build_handler_registry) (rc : ResourceClaim) where
    -- So can every result of `prepareClaim`.
    pub prepare_claim-Restorable :
        (w : World N) (r : PrepareResult) → (prepare_claim dr rc w).0 ≡ ok r → Restorable rc.uid r
    prepare_claim-Restorable w r h =
        let o = prepare_claim-Origin dr rc w r h in
        let cfg = parse_config dr.driver_name (some rc) in
        (registry-Persists cfg.typ (get_kind cfg)
            (ap (get cfg.typ (get_kind cfg)) (sym e) ∙ o.registered)).restorable
          _ w r o.returned
