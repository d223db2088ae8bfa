-- ===== src/Driver/Server.antt =====
-- pkg/driver/driver.go: `PrepareResourceClaims` and `UnprepareResourceClaims`.
pub mod Idempotent
pub mod Forget
pub mod Answers
pub mod Prepared
pub mod Refinement
pub mod Alike
pub mod Restart
pub mod Mirrored
pub mod History
use dra_multi_things.Base.{Str, str_eq, ◌==◌, if◌then◌else◌, lit, List, [], ◌∷◌, Option, none, some}
use dra_multi_things.Base.Dict.{Dict, lookup, insert, erase}
use dra_multi_things.Driver.Claim.{ResourceClaim, parse_config, get_allocated_device}
use dra_multi_things.Driver.Store.{
  Driver, DriverState, restore_allocations, create_cdi_spec, delete_cdi_spec, cdi_device_id,
}
use dra_multi_things.Handler.{
  DeviceHandler, PrepareRequest, PrepareResult, AllocationInfo, get_kind,
}
use dra_multi_things.Handler.Registry.{get, must_get}
use dra_multi_things.System.Errors.{Error, errorf, wrapf, Outcome, ok, err, panic}
use dra_multi_things.System.Monad.{M, pure, fail, from_sum, ◌>>=◌, ◌>>◌}
use dra_multi_things.System.Netlink.{Netlink}
use dra_multi_things.System.World.{World}

-- `kubeletplugin.Device` and `kubeletplugin.PrepareResult`, the fields that the driver sets.
pub record Device : Type 0 where
  pub pool_name : Str
  pub device_name : Str
  pub cdi_device_ids : List Str

pub data ClaimResult : Type 0 where
  devices : List Device → ClaimResult
  failed : Error → ClaimResult

abbrev valid_or_fail : {S : Type 0} → Option Error → M S (Unit {0})
valid_or_fail none = pure tt
valid_or_fail (some e) = fail (wrapf "config validation failed: %w" [] e)

abbrev pub pool_of : Option Str → Str
unfolding lit
pool_of none = lit "default"
pool_of (some p) = p

-- `prepareResultFromAlloc`
unfoldable pub result_from_alloc : AllocationInfo → Str → ClaimResult
unfolding lit
result_from_alloc alloc cdi_device_id = devices (
    record {
      pool_name = pool_of (lookup (lit "poolName") alloc.metadata);
      device_name = alloc.device_name;
      cdi_device_ids = cdi_device_id ∷ [];
    }
    ∷ [])

-- The result for a claim whose allocation is already known.
unfoldable pub cached_result : Str → AllocationInfo → ClaimResult
unfolding result_from_alloc
cached_result driver_name a = result_from_alloc a (cdi_device_id driver_name a.typ a.device_name)

-- The result for a claim that was prepared now.
unfoldable pub fresh_result : PrepareResult → Str → ClaimResult
fresh_result result id = devices (
    record {
      pool_name = result.pool_name;
      device_name = result.device_name;
      cdi_device_ids = id ∷ [];
    }
    ∷ [])

module _ {N : Netlink} (dr : Driver N) where
  -- `prepareClaim`
  unfoldable pub prepare_claim : ResourceClaim → M (World N) PrepareResult
  prepare_claim rc = do
    let config = parse_config dr.driver_name (some rc)
    h ← from_sum (must_get config.typ (get_kind config) dr.registry)
    valid_or_fail (h.validate config)
    h.prepare (record {
      claim_uid = rc.uid;
      namespace = rc.namespace;
      claim_name = rc.name;
      allocated_device = get_allocated_device dr.driver_name (some rc);
      config = config;
    })

  -- `unprepareAllocation`
  unfoldable pub unprepare_allocation : AllocationInfo → M (World N) (Unit {0})
  unprepare_allocation alloc = elim (get alloc.typ alloc.kind dr.registry) [
    | none ↦
        fail
          (errorf "no handler for type=%s kind=%s during unprepare" (alloc.typ ∷ alloc.kind ∷ []))
    | some h ↦ h.unprepare (record { claim_uid = alloc.claim_uid; allocation = alloc })
  ]

  -- The error of `createCDISpec`, after the rollback whose error is dropped.
  abbrev rolled_back : Error → Outcome (Unit {0}) → Outcome ClaimResult
  rolled_back e (ok _) = ok (failed e)
  rolled_back e (err _) = ok (failed e)
  rolled_back e panic = panic

  unfoldable pub after_spec :
      Str → PrepareResult → Outcome Str → DriverState N → Outcome ClaimResult × DriverState N
  after_spec uid result (ok id) d = (
    ok (fresh_result result id),
    record d { allocations = insert uid result.allocation d.allocations },
  )
  after_spec uid result (err e) d =
      let (r, w) = unprepare_allocation result.allocation d.world in
      (rolled_back e r, record d { world = w })
  after_spec uid result panic d = (panic, d)

  unfoldable pub after_prepare :
      Str → Outcome PrepareResult → DriverState N → Outcome ClaimResult × DriverState N
  unfolding after_spec
  after_prepare uid (ok result) d =
      let (r, w) = create_cdi_spec dr uid result d.world in
      after_spec uid result r (record d { world = w })
  after_prepare uid (err e) d = (ok (failed e), d)
  after_prepare uid panic d = (panic, d)

  -- One round of the loop of `PrepareResourceClaims`.
  unfoldable pub prepare_one : ResourceClaim → M (DriverState N) ClaimResult
  unfolding after_prepare
  prepare_one rc d = elim (lookup rc.uid d.allocations) [
    | some existing ↦ (ok (cached_result dr.driver_name existing), d)
    | none ↦
        let (r, w) = prepare_claim rc d.world in after_prepare rc.uid r (record d { world = w })
  ]

  unfoldable pub prepare_all :
      List ResourceClaim → Dict Str ClaimResult → M (DriverState N) (Dict Str ClaimResult)
  prepare_all [] results = pure results
  prepare_all (rc ∷ claims) results =
      prepare_one rc >>= λ r. prepare_all claims (insert rc.uid r results)

  -- `PrepareResourceClaims`; its own error is always nil.
  unfoldable pub prepare_resource_claims :
      List ResourceClaim → M (DriverState N) (Dict Str ClaimResult)
  unfolding prepare_all
  prepare_resource_claims claims d = prepare_all claims [] (restore_allocations dr.driver_name d)

  abbrev pub deleted :
      Str → Outcome (Unit {0}) → DriverState N → Outcome (Option Error) × DriverState N
  deleted uid (ok _) d = (ok none, record d { allocations = erase uid d.allocations })
  deleted uid (err e) d = (err e, d)
  deleted uid panic d = (panic, d)

  -- The end of a round of `UnprepareResourceClaims`.
  unfoldable pub after_unprepare :
      Str → Outcome (Unit {0}) → DriverState N → Outcome (Option Error) × DriverState N
  after_unprepare uid (ok _) d =
      let (r, w) = delete_cdi_spec dr.driver_name uid d.world in
      deleted uid r (record d { world = w })
  after_unprepare uid (err e) d = (ok (some e), d)
  after_unprepare uid panic d = (panic, d)

  -- One round of the loop of `UnprepareResourceClaims`, for the UID of a claim.
  unfoldable pub unprepare_one : Str → M (DriverState N) (Option Error)
  unfolding after_unprepare
  unprepare_one uid d = elim (lookup uid d.allocations) [
    | none ↦ (ok none, d)
    | some alloc ↦
        let (r, w) = unprepare_allocation alloc d.world in
        after_unprepare uid r (record d { world = w })
  ]

  unfoldable pub unprepare_all :
      List Str → Dict Str (Option Error) → M (DriverState N) (Dict Str (Option Error))
  unprepare_all [] results = pure results
  unprepare_all (uid ∷ uids) results =
      unprepare_one uid >>= λ r. unprepare_all uids (insert uid r results)

  -- `UnprepareResourceClaims`
  unfoldable pub unprepare_resource_claims : List Str → M (DriverState N) (Dict Str (Option Error))
  unfolding unprepare_all
  unprepare_resource_claims uids d = unprepare_all uids [] (restore_allocations dr.driver_name d)
