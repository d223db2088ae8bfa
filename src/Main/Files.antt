-- ===== src/Main/Files.antt =====
-- The files of the system under `Prepare` and `Unprepare` of the handlers that the driver registers
-- (pkg/handler, cmd/dra-driver/main.go).
use dra_multi_things.Base.{
  String, [], ◌≡◌, refl, sym, ap, ◌∙◌, Str, str_eq, lit, some, none, Option, inl, inr, Option-cases,
  true, arith,
}
use dra_multi_things.Combo.{roce_handler, then_rdma, finish, rdma_request, netdev_request}
use dra_multi_things.Combo
use dra_multi_things.Driver.Claim.{ResourceClaim, parse_config}
use dra_multi_things.Driver.Server.{prepare_claim, unprepare_allocation}
use dra_multi_things.Driver.Store.{Driver}
use dra_multi_things.Handler.{
  DeviceHandler, ComboConfig, meta, PrepareRequest, PrepareResult, AllocationInfo, UnprepareRequest,
  get_kind,
}
use dra_multi_things.Handler.Registry.{get, must_get}
use dra_multi_things.Main.{build_handler_registry}
use dra_multi_things.Main.Every.{every_handler, request_of}
use dra_multi_things.Netdev.Create.{add_and_up, unprepare_created, delete_if_found}
use dra_multi_things.Netdev.Dummy.{dummy_handler}
use dra_multi_things.Netdev.Dummy
use dra_multi_things.Netdev.HostDevice.{host_device_handler}
use dra_multi_things.Netdev.HostDevice
use dra_multi_things.Netdev.Ipoib.{ipoib_handler}
use dra_multi_things.Netdev.Ipoib
use dra_multi_things.Netdev.Ipvlan.{ipvlan_handler}
use dra_multi_things.Netdev.Ipvlan
use dra_multi_things.Netdev.Macvlan.{macvlan_handler}
use dra_multi_things.Netdev.Macvlan
use dra_multi_things.Netdev.RoundTrip.{Creator, dummy, macvlan, ipvlan, veth, ipoib, handler}
use dra_multi_things.Netdev.Sriov.{sriov_vf_handler, choose_vf}
use dra_multi_things.Netdev.Sriov
use dra_multi_things.Netdev.Veth.{veth_handler}
use dra_multi_things.Netdev.Veth
use dra_multi_things.Rdma.Mode.{detect_netns_mode}
use dra_multi_things.Rdma.Namespaces.{return_rdma_to_host, enter_pod_ns, leave_pod_ns, move_to_host}
use dra_multi_things.Rdma.Uverbs.{
  uverbs_handler, choose_uverbs, register_move, release_device, exists,
}
use dra_multi_things.Rdma.Uverbs
use dra_multi_things.System.Errors.{Outcome, ok, err, panic}
use dra_multi_things.System.Monad.{wrap, ◌>>=◌}
use dra_multi_things.System.Netlink.{Netlink}
use dra_multi_things.System.World.{World}

-- `Prepare` and `Unprepare` leave the files as they are.
record ReadsOnly {N : Netlink} (h : DeviceHandler (World N)) : Type 0 where
  unchanged : (req : PrepareRequest) (w : World N) → (h.prepare req w).1.os ≡ w.os
  undone : (req : UnprepareRequest) (w : World N) → (h.unprepare req w).1.os ≡ w.os

module _ {N : Netlink} where
  unprepare_created-os :
      (key format : String) (req : UnprepareRequest) (w : World N)
      → (unprepare_created key format req w).1.os ≡ w.os
  unfolding unprepare_created delete_if_found
  unprepare_created-os key format req w = ground arith

  dummy-ReadsOnly : ReadsOnly {N = N} dummy_handler
  unfolding dummy_handler Dummy.prepare Dummy.unprepare
  dummy-ReadsOnly = record {
    unchanged = λ req w. ground arith;
    undone = unprepare_created-os "createdInterface" "failed to delete dummy interface %s: %w";
  }

  macvlan-ReadsOnly : ReadsOnly {N = N} macvlan_handler
  unfolding macvlan_handler Macvlan.prepare add_and_up Macvlan.unprepare
  macvlan-ReadsOnly = record {
    unchanged = λ req w. ground arith;
    undone = unprepare_created-os "createdInterface" "failed to delete macvlan interface %s: %w";
  }

  ipvlan-ReadsOnly : ReadsOnly {N = N} ipvlan_handler
  unfolding ipvlan_handler Ipvlan.prepare add_and_up Ipvlan.unprepare
  ipvlan-ReadsOnly = record {
    unchanged = λ req w. ground arith;
    undone = unprepare_created-os "createdInterface" "failed to delete ipvlan interface %s: %w";
  }

  veth-ReadsOnly : ReadsOnly {N = N} veth_handler
  unfolding veth_handler Veth.prepare Veth.unprepare
  veth-ReadsOnly = record {
    unchanged = λ req w. ground arith;
    undone = unprepare_created-os "hostEnd" "failed to delete veth pair (host=%s): %w";
  }

  ipoib-ReadsOnly : ReadsOnly {N = N} ipoib_handler
  unfolding ipoib_handler Ipoib.prepare Ipoib.create add_and_up Ipoib.unprepare
  ipoib-ReadsOnly = record {
    unchanged = λ req w. ground arith;
    undone = unprepare_created-os "createdInterface" "failed to delete ipoib interface %s: %w";
  }

  host_device-ReadsOnly : ReadsOnly {N = N} host_device_handler
  unfolding host_device_handler HostDevice.prepare HostDevice.unprepare
  host_device-ReadsOnly = record {
    unchanged = λ req w. ground arith;
    undone = λ req w. ground arith;
  }

  sriov-ReadsOnly : ReadsOnly {N = N} sriov_vf_handler
  unfolding sriov_vf_handler Sriov.prepare choose_vf Sriov.unprepare
  sriov-ReadsOnly = record { unchanged = λ req w. ground arith; undone = λ req w. ground arith }

  detect_netns_mode-os : (w : World N) → (detect_netns_mode w).1.os ≡ w.os
  unfolding detect_netns_mode
  detect_netns_mode-os w = ground arith

  release_device-os : (uid ib_dev : Str) (w : World N) → (release_device uid ib_dev w).os ≡ w.os
  unfolding release_device return_rdma_to_host enter_pod_ns leave_pod_ns move_to_host
  release_device-os uid ib_dev w = ground arith

  uverbs_undo : (req : UnprepareRequest) (w : World N) → (Uverbs.unprepare true req w).1.os ≡ w.os
  unfolding Uverbs.unprepare
  uverbs_undo req w =
      let ib_dev = meta (lit "ibdev") req.allocation.metadata in
      let mode = (detect_netns_mode w).1 in
      ground (arith, detect_netns_mode-os w, release_device-os req.allocation.claim_uid ib_dev mode)

  uverbs-ReadsOnly : ReadsOnly {N = N} (uverbs_handler true)
  unfolding uverbs_handler Uverbs.prepare register_move detect_netns_mode choose_uverbs
  uverbs-ReadsOnly = record { unchanged = λ req w. ground arith; undone = uverbs_undo }

  roce_finish :
      (req : PrepareRequest) (r : PrepareResult) (o : Outcome PrepareResult) (w : World N)
      → (finish (uverbs_handler true) dummy_handler req r o w).1.os ≡ w.os
  unfolding finish uverbs_handler
  roce_finish req r (ok net) w = refl
  roce_finish req r (err e) w = uverbs_undo _ w
  roce_finish req r panic w = refl

  roce_rest :
      (req : PrepareRequest) (cfg : ComboConfig) (o : Outcome PrepareResult) (w : World N)
      → ((wrap "rdma prepare failed: %w" [] (λ v. (o, v)) >>= λ rdma v.
            let (r, v') = dummy_handler.prepare (netdev_request req cfg) v in
            finish (uverbs_handler true) dummy_handler req rdma r v')
          w).1.os
        ≡ w.os
  roce_rest req cfg (ok r) w =
      roce_finish req r _ _ ∙ dummy-ReadsOnly.unchanged (netdev_request req cfg) w
  roce_rest req cfg (err e) w = refl
  roce_rest req cfg panic w = refl

  roce_from :
      (req : PrepareRequest) (o : Option ComboConfig) (w : World N)
      → (Combo.prepare
          (uverbs_handler {N = N} true)
          dummy_handler
          (record req { config = record req.config { combo = o } })
          w).1.os
        ≡ w.os
  unfolding Combo.prepare rdma_request netdev_request
  roce_from req none w = refl
  roce_from req (some cfg) w =
      let r = record req { config = record req.config { combo = some cfg } } in
      let first = (uverbs_handler {N = N} true).prepare (rdma_request r cfg) w in
      roce_rest r cfg first.0 first.1 ∙ uverbs-ReadsOnly.unchanged (rdma_request r cfg) w

  then_rdma-os :
      (req : UnprepareRequest) (o : Outcome (Unit {0})) (w : World N)
      → (then_rdma (uverbs_handler true) dummy_handler req o w).1.os ≡ w.os
  then_rdma-os req (ok _) w = uverbs-ReadsOnly.undone _ w
  then_rdma-os req (err e) w = uverbs-ReadsOnly.undone _ w
  then_rdma-os req panic w = refl

  roce_undo :
      (req : UnprepareRequest) (w : World N)
      → (Combo.unprepare (uverbs_handler true) dummy_handler req w).1.os ≡ w.os
  unfolding Combo.unprepare
  roce_undo req w = then_rdma-os req _ _ ∙ dummy-ReadsOnly.undone _ w

  roce-ReadsOnly : ReadsOnly {N = N} (roce_handler (uverbs_handler true) dummy_handler)
  unfolding roce_handler
  roce-ReadsOnly = record {
    unchanged = λ req w. roce_from req req.config.combo w;
    undone = roce_undo;
  }

  creator-ReadsOnly : (c : Creator) → ReadsOnly {N = N} (handler c)
  creator-ReadsOnly dummy = dummy-ReadsOnly
  creator-ReadsOnly macvlan = macvlan-ReadsOnly
  creator-ReadsOnly ipvlan = ipvlan-ReadsOnly
  creator-ReadsOnly veth = veth-ReadsOnly
  creator-ReadsOnly ipoib = ipoib-ReadsOnly

  registry-ReadsOnly :
      (typ kind : Str) {h : DeviceHandler (World N)}
      → get typ kind (build_handler_registry {N = N}) ≡ some h
      → ReadsOnly h
  registry-ReadsOnly typ kind =
      every_handler ReadsOnly creator-ReadsOnly host_device-ReadsOnly sriov-ReadsOnly
        uverbs-ReadsOnly typ kind roce-ReadsOnly

  pub prepare_claim-os :
      (dr : Driver N) (rc : ResourceClaim) (w : World N)
      → dr.registry ≡ build_handler_registry
      → (prepare_claim dr rc w).1.os ≡ w.os
  unfolding prepare_claim must_get
  prepare_claim-os dr rc w e =
      let cfg = parse_config dr.driver_name (some rc) in
      elim (Option-cases (get cfg.typ (get_kind cfg) dr.registry)) [
        | inl q ↦ rw (q, prepare_claim, must_get) refl
        | inr (x, q) ↦ elim (Option-cases (x.validate cfg)) [
          | inl v ↦
              rw (q, v, prepare_claim, must_get)
                ((registry-ReadsOnly cfg.typ (get_kind cfg)
                    (ap (get cfg.typ (get_kind cfg)) (sym e) ∙ q)).unchanged
                  (request_of dr rc) w)
          | inr (f, v) ↦ rw (q, v, prepare_claim, must_get) refl
        ]
      ]

  pub unprepare_allocation-os :
      (dr : Driver N) (a : AllocationInfo) (w : World N)
      → dr.registry ≡ build_handler_registry
      → (unprepare_allocation dr a w).1.os ≡ w.os
  unfolding unprepare_allocation
  unprepare_allocation-os dr a w e = elim (Option-cases (get a.typ a.kind dr.registry)) [
    | inl q ↦ rw (q, unprepare_allocation) refl
    | inr (x, q) ↦
        rw (q, unprepare_allocation)
          ((registry-ReadsOnly a.typ a.kind (ap (get a.typ a.kind) (sym e) ∙ q)).undone _ w)
  ]
