-- ===== src/Main/Repeat.antt =====
-- Preparing a claim twice with the handlers of the driver (cmd/dra-driver/main.go,
-- pkg/driver/driver.go).
use dra_multi_things.Base.{
  ap, ◌≡◌, ◌≢◌, refl, sym, ◌∙◌, Str, str_eq, lit, Bool, true, List, [], ◌∷◌, some, arith,
}
use dra_multi_things.Base.Dict.{lookup}
use dra_multi_things.Base.FilePath.{filepath_join}
use dra_multi_things.Driver.Claim.{ResourceClaim, parse_config}
use dra_multi_things.Driver.Server.{Device, devices, prepare_claim, prepare_one}
use dra_multi_things.Driver.Server.Idempotent.{prepare_one-prepare_one}
use dra_multi_things.Driver.Store.{Driver, DriverState}
use dra_multi_things.Handler.{
  DeviceHandler, PrepareRequest, PrepareResult, Recorded, Restorable, get_kind,
}
use dra_multi_things.Handler.Registry.{get}
use dra_multi_things.Main.{build_handler_registry}
use dra_multi_things.Main.Every.{every_but_roce, prepare_claim-Origin}
use dra_multi_things.Netdev.HostDevice.{host_device_handler}
use dra_multi_things.Netdev.Physical.{host_device_rule, sriov_rule}
use dra_multi_things.Netdev.RoundTrip.{Creator, handler, prepare-Prepared}
use dra_multi_things.Netdev.Sriov.{sriov_vf_handler}
use dra_multi_things.Rdma.Uverbs.{uverbs_handler, uverbs_result, choose_uverbs, exists, ib_dev_dir}
use dra_multi_things.Rdma.Uverbs
use dra_multi_things.System.Errors.{ok}
use dra_multi_things.System.Netlink.{Netlink, IsLawful, DeletesCleanly}
use dra_multi_things.System.Os.{Os}
use dra_multi_things.System.Triple.{Triple, value_holds, bind, any_rule}
use dra_multi_things.System.World.{World}

-- Each result of the handler is recorded by its allocation.
pub record Records {N : Netlink} (h : DeviceHandler (World N)) : Type 0 where
  pub recorded :
      (req : PrepareRequest) (w : World N) (r : PrepareResult)
      → (h.prepare req w).0 ≡ ok r
      → Recorded r

uverbs_result-Recorded : (os : Os) (uid dev : Str) → Recorded (uverbs_result os uid dev)
unfolding uverbs_result lookup lit
uverbs_result-Recorded os uid dev = (refl, (refl, ground arith))

uverbs_result-Restorable : (os : Os) (uid dev : Str) → Restorable uid (uverbs_result os uid dev)
unfolding uverbs_result lookup lit
uverbs_result-Restorable os uid dev = (refl, ground arith)

module _ {N : Netlink} where
  host_device-Records : Records {N = N} host_device_handler
  unfolding host_device_handler
  host_device-Records = record {
    recorded = λ req w r h. (value_holds (host_device_rule req) w tt h).0;
  }

  sriov-Records : Records {N = N} sriov_vf_handler
  unfolding sriov_vf_handler
  sriov-Records = record { recorded = λ req w r h. (value_holds (sriov_rule req) w tt h).0 }

  pub uverbs_rule :
      (tracked : Bool) (req : PrepareRequest)
      → Triple
          (λ _. Unit)
          (Uverbs.prepare {N = N} tracked req)
          (λ r _. Recorded r × Restorable req.claim_uid r)
          (λ _. Unit)
          Unit
  unfolding Uverbs.prepare
  uverbs_rule tracked req = bind (any_rule (choose_uverbs req.allocated_device)) λ dev.
      bind (any_rule (exists (filepath_join (ib_dev_dir ∷ dev ∷ [])))) λ _. record {
        holds = λ w _. (
          uverbs_result-Recorded w.os req.claim_uid dev,
          uverbs_result-Restorable w.os req.claim_uid dev,
        );
      }

  uverbs-Records : (tracked : Bool) → Records {N = N} (uverbs_handler tracked)
  unfolding uverbs_handler
  uverbs-Records tracked = record {
    recorded = λ req w r h. (value_holds (uverbs_rule tracked req) w tt h).0;
  }

module _ (N : Netlink) {group : N.State → Str → List Str} (L : IsLawful N group)
    (D : DeletesCleanly N) where
  creator-Records : (c : Creator) → Records {N = N} (handler c)
  creator-Records c = record { recorded = λ req w r h. (prepare-Prepared N L D c req w h).recalled }

  -- Every handler of the registry but RoCE records what it returns.
  registry-Records :
      (typ kind : Str) {h : DeviceHandler (World N)}
      → typ ≢ lit "combo"
      → get typ kind (build_handler_registry {N = N}) ≡ some h
      → Records h
  registry-Records =
      every_but_roce Records creator-Records host_device-Records sriov-Records (uverbs-Records true)

  pub prepare_claim-Recorded :
      (dr : Driver N) (rc : ResourceClaim) (w : World N) (r : PrepareResult)
      → dr.registry ≡ build_handler_registry
      → (parse_config dr.driver_name (some rc)).typ ≢ lit "combo"
      → (prepare_claim dr rc w).0 ≡ ok r
      → Recorded r
  prepare_claim-Recorded dr rc w r e n h =
      let o = prepare_claim-Origin dr rc w r h in
      let cfg = parse_config dr.driver_name (some rc) in
      (registry-Records cfg.typ (get_kind cfg) n
          (ap (get cfg.typ (get_kind cfg)) (sym e) ∙ o.registered)).recorded
        _ w r o.returned

  -- With the handlers of the driver, preparing a claim again gives the devices that it has, and
  -- changes nothing, unless its configuration is for the RoCE handler.
  pub prepare_one-repeat :
      (dr : Driver N) (rc : ResourceClaim) (d : DriverState N) {ds : List Device}
      → dr.registry ≡ build_handler_registry
      → (parse_config dr.driver_name (some rc)).typ ≢ lit "combo"
      → (prepare_one dr rc d).0 ≡ ok (devices ds)
      → prepare_one dr rc (prepare_one dr rc d).1 ≡ (ok (devices ds), (prepare_one dr rc d).1)
  prepare_one-repeat dr rc d e n h =
      prepare_one-prepare_one dr rc d (λ r. prepare_claim-Recorded dr rc d.world r e n) h
