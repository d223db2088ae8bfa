-- ===== src/Main/Behaviour.antt =====
-- Panics of the handlers in the registry of the driver (cmd/dra-driver/main.go).
use dra_multi_things.Base.{
  String, ◌≡◌, ◌≢◌, refl, Str, str_eq, leb, length, Bool, true, [], some, arith,
}
use dra_multi_things.Combo.{
  roce_handler, collect, finish, rdma_request, netdev_request, netdev_allocation, rdma_allocation,
}
use dra_multi_things.Combo
use dra_multi_things.Handler.{DeviceHandler, PrepareRequest, PrepareResult, UnprepareRequest}
use dra_multi_things.Handler.Registry.{get}
use dra_multi_things.Main.{build_handler_registry}
use dra_multi_things.Main.Every.{every_handler}
use dra_multi_things.Netdev.Create.{add_and_up, delete_if_found, unprepare_created}
use dra_multi_things.Netdev.Dummy.{dummy_handler}
use dra_multi_things.Netdev.Dummy
use dra_multi_things.Netdev.HostDevice.{host_device_handler}
use dra_multi_things.Netdev.HostDevice
use dra_multi_things.Netdev.Ipoib.{ipoib_handler}
use dra_multi_things.Netdev.Ipoib
use dra_multi_things.Netdev.Ipvlan.{ipvlan_handler}
use dra_multi_things.Netdev.Ipvlan
use dra_multi_things.Netdev.Macvlan.{macvlan_handler}
use dra_multi_things.Netdev.Macvlan
use dra_multi_things.Netdev.Physical.{host_device_rule, sriov_rule}
use dra_multi_things.Netdev.RoundTrip.{Creator, dummy, macvlan, ipvlan, veth, ipoib, handler}
use dra_multi_things.Netdev.Sriov.{sriov_vf_handler}
use dra_multi_things.Netdev.Sriov
use dra_multi_things.Netdev.Veth.{veth_handler}
use dra_multi_things.Netdev.Veth
use dra_multi_things.Rdma.Uverbs.{uverbs_handler, choose_uverbs}
use dra_multi_things.Rdma.Uverbs
use dra_multi_things.System.Errors.{Outcome, ok, err, panic}
use dra_multi_things.System.Netlink.{Netlink}
use dra_multi_things.System.Triple.{
  Triple, Post, weaken, bind, require_rule, assuming, wrap_rule, panic_holds,
}
use dra_multi_things.System.World.{World}

module _ {N : Netlink} where
  -- A step that does not panic.
  abbrev pub Quiet : {A : Type 0} → (World N → Outcome A × World N) → Type 0
  Quiet m = Triple (λ _. Unit) m (λ _ _. Unit) (λ _. Unit) ⊥

  -- `Prepare` of a claim whose UID has the eight bytes that the handlers use, and `Unprepare`, end
  -- with a value or an error.
  pub record Behaves (h : DeviceHandler (World N)) : Type 0 where
    pub returns :
        (req : PrepareRequest) → leb 8 (length req.claim_uid) ≡ true → Quiet (h.prepare req)
    pub undoes : (req : UnprepareRequest) → Quiet (h.unprepare req)

  quiet-Post :
      {A : Type 0} (o : Outcome A) (w : World N) → o ≢ panic → Post (λ _ _. Unit) (λ _. Unit) ⊥ o w
  quiet-Post (ok a) w h = tt
  quiet-Post (err e) w h = tt
  quiet-Post panic w h = h refl

  quiet :
      {A : Type 0} (m : World N → Outcome A × World N) → ((w : World N) → (m w).0 ≢ panic) → Quiet m
  quiet m h = record { holds = λ w p. quiet-Post (m w).0 (m w).1 (h w) }

  unprepare_created-Quiet :
      (key format : String) (req : UnprepareRequest)
      → Quiet (unprepare_created {N = N} key format req)
  unfolding unprepare_created delete_if_found
  unprepare_created-Quiet key format req = quiet _ λ w h. absurd (ground arith)

  physical_host_device : Behaves host_device_handler
  unfolding host_device_handler HostDevice.unprepare
  physical_host_device = record {
    returns = λ req long. weaken (host_device_rule req);
    undoes = λ req. quiet _ λ w h. absurd (ground arith);
  }

  physical_sriov : Behaves sriov_vf_handler
  unfolding sriov_vf_handler Sriov.unprepare
  physical_sriov = record {
    returns = λ req long. weaken (sriov_rule req);
    undoes = λ req. quiet _ λ w h. absurd (ground arith);
  }

  uverbs_Behaves : (tracked : Bool) → Behaves (uverbs_handler tracked)
  unfolding uverbs_handler Uverbs.prepare Uverbs.unprepare choose_uverbs
  uverbs_Behaves tracked = record {
    returns = λ req long. quiet _ λ w h. absurd (ground arith);
    undoes = λ req. quiet _ λ w h. absurd (ground arith);
  }

  pub loud :
      {A : Type 0} (m : World N → Outcome A × World N) (w : World N) → Quiet m → (m w).0 ≢ panic
  loud m w t h = panic_holds t w tt h

  roce_finish-quiet :
      (u d : DeviceHandler (World N)) (req : PrepareRequest) (r : PrepareResult)
      (o : Outcome PrepareResult) (w : World N)
      → Behaves u
      → o ≢ panic
      → (finish u d req r o w).0 ≢ panic
  unfolding finish
  roce_finish-quiet u d req r (ok net) w b q h = absurd (ground arith)
  roce_finish-quiet u d req r (err e) w b q h =
      let back : UnprepareRequest = record {
        claim_uid = req.claim_uid;
        allocation = r.allocation;
      } in
      absurd (ground (arith, loud (u.unprepare back) w (b.undoes back)))
  roce_finish-quiet u d req r panic w b q h = q refl

  roce_undo-quiet :
      (u d : DeviceHandler (World N)) (req : UnprepareRequest) (w : World N)
      → Behaves u
      → Behaves d
      → (Combo.unprepare u d req w).0 ≢ panic
  unfolding Combo.unprepare collect
  roce_undo-quiet u d req w b c h =
      let net : UnprepareRequest = record {
        claim_uid = req.claim_uid;
        allocation = netdev_allocation req;
      } in
      let rdma : UnprepareRequest = record {
        claim_uid = req.claim_uid;
        allocation = rdma_allocation req;
      } in
      absurd (
        ground (
          arith,
          loud (d.unprepare net) w (c.undoes net),
          loud (u.unprepare rdma) (d.unprepare net w).1 (b.undoes rdma),
        ))

  roce_Behaves :
      (u d : DeviceHandler (World N)) → Behaves u → Behaves d → Behaves (roce_handler u d)
  unfolding roce_handler Combo.prepare rdma_request netdev_request
  roce_Behaves u d b c = record {
    returns = λ req long. bind (require_rule req.config.combo _) λ cfg. assuming λ _.
        bind (wrap_rule "rdma prepare failed: %w" [] (b.returns (rdma_request req cfg) long)) λ r.
          quiet _ λ w.
            roce_finish-quiet u d req r (d.prepare (netdev_request req cfg) w).0
              (d.prepare (netdev_request req cfg) w).1 b
              (loud (d.prepare (netdev_request req cfg)) w
                (c.returns (netdev_request req cfg) long));
    undoes = λ req. quiet _ λ w. roce_undo-quiet u d req w b c;
  }

  -- The five handlers that create a link.
  dummy-Behaves : Behaves dummy_handler
  unfolding dummy_handler Dummy.prepare Dummy.unprepare
  dummy-Behaves = record {
    returns = λ req long. quiet _ λ w h. absurd (ground arith);
    undoes = unprepare_created-Quiet "createdInterface" "failed to delete dummy interface %s: %w";
  }

  macvlan-Behaves : Behaves macvlan_handler
  unfolding macvlan_handler Macvlan.prepare add_and_up Macvlan.unprepare
  macvlan-Behaves = record {
    returns = λ req long. quiet _ λ w h. absurd (ground arith);
    undoes = unprepare_created-Quiet "createdInterface" "failed to delete macvlan interface %s: %w";
  }

  ipvlan-Behaves : Behaves ipvlan_handler
  unfolding ipvlan_handler Ipvlan.prepare add_and_up Ipvlan.unprepare
  ipvlan-Behaves = record {
    returns = λ req long. quiet _ λ w h. absurd (ground arith);
    undoes = unprepare_created-Quiet "createdInterface" "failed to delete ipvlan interface %s: %w";
  }

  veth-Behaves : Behaves veth_handler
  unfolding veth_handler Veth.prepare Veth.unprepare
  veth-Behaves = record {
    returns = λ req long. quiet _ λ w h. absurd (ground arith);
    undoes = unprepare_created-Quiet "hostEnd" "failed to delete veth pair (host=%s): %w";
  }

  ipoib-Behaves : Behaves ipoib_handler
  unfolding ipoib_handler Ipoib.prepare Ipoib.create add_and_up Ipoib.unprepare
  ipoib-Behaves = record {
    returns = λ req long. quiet _ λ w h. absurd (ground arith);
    undoes = unprepare_created-Quiet "createdInterface" "failed to delete ipoib interface %s: %w";
  }

  creator-Behaves : (c : Creator) → Behaves (handler {N = N} c)
  creator-Behaves dummy = dummy-Behaves
  creator-Behaves macvlan = macvlan-Behaves
  creator-Behaves ipvlan = ipvlan-Behaves
  creator-Behaves veth = veth-Behaves
  creator-Behaves ipoib = ipoib-Behaves

  -- No handler of the registry panics, whatever the kernel answers: `Prepare` of a claim whose UID
  -- has at least eight bytes and `Unprepare` end with a value or an error.
  pub build_handler_registry-Behaves :
      (typ kind : Str) {h : DeviceHandler (World N)}
      → get typ kind (build_handler_registry {N = N}) ≡ some h
      → Behaves h
  build_handler_registry-Behaves typ kind =
      every_handler Behaves creator-Behaves physical_host_device physical_sriov
        (uverbs_Behaves true) typ kind
        (roce_Behaves _ _ (uverbs_Behaves true) (creator-Behaves dummy))
