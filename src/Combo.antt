-- ===== src/Combo.antt =====
-- pkg/handler/combo/roce.go: `RoCEHandler`, an RDMA device and a network interface in one claim.
pub mod Rollback
pub mod Cycle
use dra_multi_things.Base.{Str, str_eq, lit, [], ◌∷◌, ◌++◌, Option, none, some}
use dra_multi_things.Handler.{
  PrepareRequest, PrepareResult, UnprepareRequest, DeviceConfig, ComboConfig, DeviceHandler,
  ContainerEdits, AllocationInfo, device_type_netdev, device_type_rdma, device_type_combo, meta,
}
use dra_multi_things.System.Errors.{Error, errorf, wrapf, both, Outcome, ok, err, panic}
use dra_multi_things.System.Monad.{M, ◌>>=◌, require, wrap}

-- `mergeCDIEdits`
unfoldable pub merge_cdi_edits : ContainerEdits → ContainerEdits → ContainerEdits
merge_cdi_edits a b = record {
  device_nodes = a.device_nodes ++ b.device_nodes;
  mounts = a.mounts ++ b.mounts;
  net_devices = a.net_devices ++ b.net_devices;
  env = a.env ++ b.env;
}

unfoldable pub validate : DeviceConfig → Option Error
validate cfg = elim cfg.combo [
  | none ↦ some (errorf "combo config is required for roce" [])
  | some c ↦ none
]

unfoldable pub rdma_request : PrepareRequest → ComboConfig → PrepareRequest
rdma_request req cfg = record req {
  config = record { typ = device_type_rdma; netdev = none; rdma = some cfg.rdma; combo = none };
}

-- The scheduler's device is the RDMA device, so none is passed on here.
unfoldable pub netdev_request : PrepareRequest → ComboConfig → PrepareRequest
netdev_request req cfg = record req {
  allocated_device = [];
  config = record { typ = device_type_netdev; netdev = some cfg.netdev; rdma = none; combo = none };
}

unfoldable pub roce_result : Str → PrepareResult → PrepareResult → PrepareResult
unfolding lit merge_cdi_edits
roce_result claim_uid rdma net = record {
  pool_name = rdma.pool_name;
  device_name = rdma.device_name;
  cdi_edits = merge_cdi_edits rdma.cdi_edits net.cdi_edits;
  allocation = record {
    typ = device_type_combo;
    kind = lit "roce";
    claim_uid = claim_uid;
    device_name = [];
    metadata =
        (lit "rdma_device", rdma.device_name)
        ∷ (lit "net_interface", net.device_name)
        ∷ (lit "rdma_uverbs_device", meta (lit "uverbsDevice") rdma.allocation.metadata)
        ∷ (lit "rdma_ibdev", meta (lit "ibdev") rdma.allocation.metadata)
        ∷ (lit "net_created", meta (lit "createdInterface") net.allocation.metadata)
        ∷ (lit "net_host_end", meta (lit "hostEnd") net.allocation.metadata)
        ∷ [];
  };
}

-- The allocations that `Unprepare` makes up for the two handlers from its own metadata.
unfoldable pub netdev_allocation : UnprepareRequest → AllocationInfo
unfolding lit
netdev_allocation req = record {
  typ = device_type_netdev;
  kind = lit "dummy";
  claim_uid = req.claim_uid;
  device_name = [];
  metadata =
      (lit "createdInterface", meta (lit "net_created") req.allocation.metadata)
      ∷ (lit "hostEnd", meta (lit "net_host_end") req.allocation.metadata)
      ∷ [];
}

unfoldable pub rdma_allocation : UnprepareRequest → AllocationInfo
unfolding lit
rdma_allocation req = record {
  typ = device_type_rdma;
  kind = lit "uverbs";
  claim_uid = req.claim_uid;
  device_name = [];
  metadata =
      (lit "uverbsDevice", meta (lit "rdma_uverbs_device") req.allocation.metadata)
      ∷ (lit "ibdev", meta (lit "rdma_ibdev") req.allocation.metadata)
      ∷ [];
}

-- The test on the errors collected by `Unprepare`.
unfoldable pub collect : Outcome (Unit {0}) → Outcome (Unit {0}) → Outcome (Unit {0})
collect (ok _) (ok _) = ok tt
collect (err e) (ok _) =
    err (wrapf "roce unprepare errors: %v" [] (wrapf "netdev unprepare: %w" [] e))
collect (ok _) (err f) =
    err (wrapf "roce unprepare errors: %v" [] (wrapf "rdma unprepare: %w" [] f))
collect (err e) (err f) = err (
    both "roce unprepare errors: %v" (wrapf "netdev unprepare: %w" [] e)
      (wrapf "rdma unprepare: %w" [] f))
collect panic _ = panic
collect _ panic = panic

module _ {S : Type 0} (rdma_handler netdev_handler : DeviceHandler S) where
  abbrev pub rolled_back : Error → Outcome (Unit {0}) → Outcome PrepareResult
  rolled_back e panic = panic
  rolled_back e (ok _) = err (wrapf "netdev prepare failed: %w" [] e)
  rolled_back e (err _) = err (wrapf "netdev prepare failed: %w" [] e)

  -- After the network interface: the merged result, or the rollback of the RDMA device.
  unfoldable pub finish :
      PrepareRequest → PrepareResult → Outcome PrepareResult → S → Outcome PrepareResult × S
  finish req rdma (ok net) w = (ok (roce_result req.claim_uid rdma net), w)
  finish req rdma (err e) w =
      let (r, w') =
        rdma_handler.unprepare (record { claim_uid = req.claim_uid; allocation = rdma.allocation })
          w in
      (rolled_back e r, w')
  finish req rdma panic w = (panic, w)

  unfoldable pub prepare : PrepareRequest → M S PrepareResult
  unfolding finish
  prepare req = do
    cfg ← require req.config.combo (errorf "combo config is required for roce" [])
    rdma ← wrap "rdma prepare failed: %w" [] (rdma_handler.prepare (rdma_request req cfg))
    λ w. let (r, w') = netdev_handler.prepare (netdev_request req cfg) w in finish req rdma r w'

  -- The RDMA device is released whether or not the interface was. A panic ends the call.
  abbrev pub then_rdma : UnprepareRequest → Outcome (Unit {0}) → S → Outcome (Unit {0}) × S
  then_rdma req panic w = (panic, w)
  then_rdma req (ok u) w =
      let (r, w') =
        rdma_handler.unprepare
          (record { claim_uid = req.claim_uid; allocation = rdma_allocation req }) w in
      (collect (ok u) r, w')
  then_rdma req (err e) w =
      let (r, w') =
        rdma_handler.unprepare
          (record { claim_uid = req.claim_uid; allocation = rdma_allocation req }) w in
      (collect (err e) r, w')

  unfoldable pub unprepare : UnprepareRequest → M S (Unit {0})
  unfolding collect
  unprepare req w =
      let (r, w') =
        netdev_handler.unprepare
          (record { claim_uid = req.claim_uid; allocation = netdev_allocation req }) w in
      then_rdma req r w'

  unfoldable pub roce_handler : DeviceHandler S
  unfolding lit
  roce_handler = record {
    typ = device_type_combo;
    kinds = lit "roce" ∷ [];
    prepare = prepare;
    unprepare = unprepare;
    validate = validate;
  }
