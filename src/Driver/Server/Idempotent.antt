-- ===== src/Driver/Server/Idempotent.antt =====
-- Preparing a claim that is already prepared, and a preparation that fails (pkg/driver/driver.go).
use dra_multi_things.Base.{
  ◌≡◌, refl, ap, sym, ◌∙◌, Str, str_eq, List, [], some, ◌⊎◌, inl, inr, Option-cases, arith,
}
use dra_multi_things.Base.Dict.{lookup, lookup-insert_self}
use dra_multi_things.Driver.Claim.{ResourceClaim}
use dra_multi_things.Driver.Server.{
  Device, devices, failed, result_from_alloc, cached_result, fresh_result, prepare_claim,
  after_spec, after_prepare, prepare_one,
}
use dra_multi_things.Driver.Store.{
  Driver, DriverState, create_cdi_spec, save_allocation, logged, file_step, write_spec, cdi_dir,
  cdi_device_id,
}
use dra_multi_things.Handler.{Recorded, PrepareResult, AllocationInfo}
use dra_multi_things.System.Errors.{Error, Outcome, ok, err, panic}
use dra_multi_things.System.Monad.{wrap, slice_to}
use dra_multi_things.System.Netlink.{Netlink}
use dra_multi_things.System.Os.{mkdir_all}
use dra_multi_things.System.Triple.{Triple, Post, bind, any_rule, value_holds}
use dra_multi_things.System.World.{World}

pub Outcome-cases {ℓ} :
    {A : Type ℓ} (o : Outcome A)
    → ((a : A) × (o ≡ ok a)) ⊎ ((((e : Error) × (o ≡ err e))) ⊎ (o ≡ panic))
Outcome-cases (ok a) = inl (a, refl)
Outcome-cases (err e) = inr (inl (e, refl))
Outcome-cases panic = inr (inr refl)

-- From a result that its allocation records, the cached answer is the fresh one.
cached-fresh :
    (name : Str) (r : PrepareResult)
    → Recorded r
    → cached_result name r.allocation
      ≡ fresh_result r (cdi_device_id name r.allocation.typ r.device_name)
unfolding cached_result fresh_result result_from_alloc
cached-fresh name r c = rw (c.0, c.1.0, c.1.1) refl

module _ {N : Netlink} (dr : Driver N) where
  logged-Post :
      (id : Str) (r : Outcome (Unit {0})) (w : World N)
      → Post (λ x _. x ≡ id) (λ _. Unit) Unit (logged id r) w
  logged-Post id (ok _) w = refl
  logged-Post id (err e) w = refl
  logged-Post id panic w = tt

  create_cdi_spec_rule :
      (uid : Str) (r : PrepareResult)
      → Triple
          (λ w. Unit)
          (create_cdi_spec dr uid r)
          (λ id w. id ≡ cdi_device_id dr.driver_name r.allocation.typ r.device_name)
          (λ w. Unit)
          Unit
  unfolding create_cdi_spec
  create_cdi_spec_rule uid r =
      let id = cdi_device_id dr.driver_name r.allocation.typ r.device_name in
      bind
        (any_rule (
          wrap "failed to create CDI directory: %w" []
            (file_step (λ os. (mkdir_all os cdi_dir, os)))))
        λ _. bind (any_rule (slice_to 8 uid)) λ uid8. bind (any_rule (write_spec dr uid8 r)) λ _.
          record {
            holds = λ w p.
                logged-Post id (save_allocation dr.driver_name uid r.allocation w).0
                  (save_allocation dr.driver_name uid r.allocation w).1;
          }

  -- The identifier of the CDI device that `createCDISpec` returns.
  create_cdi_spec-id :
      (uid : Str) (r : PrepareResult) (w : World N) {id : Str}
      → (create_cdi_spec dr uid r w).0 ≡ ok id
      → id ≡ cdi_device_id dr.driver_name r.allocation.typ r.device_name
  create_cdi_spec-id uid r w h = value_holds (create_cdi_spec_rule uid r) w tt h

  after_spec-failed :
      (uid : Str) (r : PrepareResult) (o : Outcome Str) (d : DriverState N) {e : Error}
      → (after_spec dr uid r o d).0 ≡ ok (failed e)
      → (after_spec dr uid r o d).1.allocations ≡ d.allocations
  unfolding after_spec fresh_result
  after_spec-failed uid r (ok id) d h = absurd (ground arith)
  after_spec-failed uid r (err e) d h = refl
  after_spec-failed uid r panic d h = refl

  after_prepare-failed :
      (uid : Str) (o : Outcome PrepareResult) (d : DriverState N) {e : Error}
      → (after_prepare dr uid o d).0 ≡ ok (failed e)
      → (after_prepare dr uid o d).1.allocations ≡ d.allocations
  unfolding after_prepare
  after_prepare-failed uid (ok r) d h = after_spec-failed uid r _ _ h
  after_prepare-failed uid (err e) d h = refl
  after_prepare-failed uid panic d h = refl

  -- If preparing a claim fails, the driver tracks the allocations that it tracked before.
  pub prepare_one-failed :
      (rc : ResourceClaim) (d : DriverState N) {e : Error}
      → (prepare_one dr rc d).0 ≡ ok (failed e)
      → (prepare_one dr rc d).1.allocations ≡ d.allocations
  unfolding prepare_one
  prepare_one-failed rc d {e} h = elim (Option-cases (lookup rc.uid d.allocations)) [
    | inl q ↦
        rw (q, prepare_one)
          (after_prepare-failed rc.uid (prepare_claim dr rc d.world).0 _ (rw (q, prepare_one) at h))
    | inr (a, q) ↦ rw (q, prepare_one) refl
  ]

  -- What the round leaves if the claim gets devices: an allocation whose cached answer is that.
  abbrev pub Tracks : Str → List Device → DriverState N → Type 0
  Tracks uid ds d =
      (a : AllocationInfo) × ((lookup uid d.allocations ≡ some a)
        × (cached_result dr.driver_name a ≡ devices ds))

  after_spec-Tracks :
      (uid : Str) (r : PrepareResult) (o : Outcome Str) (d : DriverState N) {ds : List Device}
      → ((id : Str) → o ≡ ok id → id ≡ cdi_device_id dr.driver_name r.allocation.typ r.device_name)
      → Recorded r
      → (after_spec dr uid r o d).0 ≡ ok (devices ds)
      → Tracks uid ds (after_spec dr uid r o d).1
  unfolding after_spec
  after_spec-Tracks uid r (ok id) d g c h = (
    r.allocation,
    (
      lookup-insert_self uid r.allocation d.allocations,
      cached-fresh dr.driver_name r c ∙ ap (fresh_result r) (sym (g id refl)) ∙ ground arith,
    ),
  )
  after_spec-Tracks uid r (err e) d g c h = absurd (ground arith)
  after_spec-Tracks uid r panic d g c h = absurd (ground arith)

  after_prepare-Tracks :
      (uid : Str) (o : Outcome PrepareResult) (d : DriverState N) {ds : List Device}
      → ((r : PrepareResult) → o ≡ ok r → Recorded r)
      → (after_prepare dr uid o d).0 ≡ ok (devices ds)
      → Tracks uid ds (after_prepare dr uid o d).1
  unfolding after_prepare
  after_prepare-Tracks uid (ok r) d c h =
      after_spec-Tracks uid r (create_cdi_spec dr uid r d.world).0 _
        (λ id q. create_cdi_spec-id uid r d.world q) (c r refl) h
  after_prepare-Tracks uid (err e) d c h = absurd (ground arith)
  after_prepare-Tracks uid panic d c h = absurd (ground arith)

  pub prepare_one-Tracks :
      (rc : ResourceClaim) (d : DriverState N) {ds : List Device}
      → ((r : PrepareResult) → (prepare_claim dr rc d.world).0 ≡ ok r → Recorded r)
      → (prepare_one dr rc d).0 ≡ ok (devices ds)
      → Tracks rc.uid ds (prepare_one dr rc d).1
  unfolding prepare_one
  prepare_one-Tracks rc d c h = elim (Option-cases (lookup rc.uid d.allocations)) [
    | inl q ↦
        rw (q, prepare_one)
          (after_prepare-Tracks rc.uid (prepare_claim dr rc d.world).0 _ c
            (rw (q, prepare_one) at h))
    | inr (a, q) ↦ rw (q, prepare_one) (a, (q, ground arith))
  ]

  -- Preparing a claim again gives the devices that it has, and changes nothing: neither what the
  -- driver tracks nor the kernel, the files and the tracker. The handler's results for the claim
  -- have to be recorded by their allocations.
  pub prepare_one-prepare_one :
      (rc : ResourceClaim) (d : DriverState N) {ds : List Device}
      → ((r : PrepareResult) → (prepare_claim dr rc d.world).0 ≡ ok r → Recorded r)
      → (prepare_one dr rc d).0 ≡ ok (devices ds)
      → prepare_one dr rc (prepare_one dr rc d).1 ≡ (ok (devices ds), (prepare_one dr rc d).1)
  unfolding prepare_one
  prepare_one-prepare_one rc d {ds} c h =
      let (a, (found, same)) = prepare_one-Tracks rc d c h in ground (arith, found, same)
