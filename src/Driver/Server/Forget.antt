-- ===== src/Driver/Server/Forget.antt =====
-- What `UnprepareResourceClaims` forgets of a claim (pkg/driver/driver.go).
use dra_multi_things.Base.{
  ◌≡◌, refl, Str, str_eq, ◌==◌, if◌then◌else◌, none, some, inl, inr, Option-cases, arith,
}
use dra_multi_things.Base.Dict.{Dict, lookup, lookup-erase}
use dra_multi_things.Driver.Server.{unprepare_allocation, unprepare_one, after_unprepare, deleted}
use dra_multi_things.Driver.Store.{Driver, DriverState, delete_cdi_spec}
use dra_multi_things.Handler.{AllocationInfo}
use dra_multi_things.System.Errors.{Error, Outcome, ok, err, panic}
use dra_multi_things.System.Netlink.{Netlink}

module _ {N : Netlink} (dr : Driver N) where
  -- Only the claim is forgotten.
  abbrev Forgotten : Str → Dict Str AllocationInfo → Dict Str AllocationInfo → Type 0
  Forgotten uid old new = (k : Str) → lookup k new ≡ (if uid == k then none else lookup k old)

  deleted-Forgotten :
      (uid : Str) (o : Outcome (Unit {0})) (d : DriverState N)
      → (deleted dr uid o d).0 ≡ ok none
      → Forgotten uid d.allocations (deleted dr uid o d).1.allocations
  deleted-Forgotten uid (ok _) d h k = lookup-erase k uid d.allocations
  deleted-Forgotten uid (err e) d h k = absurd (ground arith)
  deleted-Forgotten uid panic d h k = absurd (ground arith)

  deleted-failed :
      (uid : Str) (o : Outcome (Unit {0})) (d : DriverState N) {e : Error}
      → (deleted dr uid o d).0 ≡ ok (some e)
      → (deleted dr uid o d).1.allocations ≡ d.allocations
  deleted-failed uid (ok _) d h = absurd (ground arith)
  deleted-failed uid (err e) d h = refl
  deleted-failed uid panic d h = refl

  after_unprepare-Forgotten :
      (uid : Str) (o : Outcome (Unit {0})) (d : DriverState N)
      → (after_unprepare dr uid o d).0 ≡ ok none
      → Forgotten uid d.allocations (after_unprepare dr uid o d).1.allocations
  unfolding after_unprepare
  after_unprepare-Forgotten uid (ok _) d h =
      deleted-Forgotten uid (delete_cdi_spec dr.driver_name uid d.world).0 _ h
  after_unprepare-Forgotten uid (err e) d h = absurd (ground arith)
  after_unprepare-Forgotten uid panic d h = absurd (ground arith)

  after_unprepare-failed :
      (uid : Str) (o : Outcome (Unit {0})) (d : DriverState N) {e : Error}
      → (after_unprepare dr uid o d).0 ≡ ok (some e)
      → (after_unprepare dr uid o d).1.allocations ≡ d.allocations
  unfolding after_unprepare
  after_unprepare-failed uid (ok _) d h =
      deleted-failed uid (delete_cdi_spec dr.driver_name uid d.world).0 _ h
  after_unprepare-failed uid (err e) d h = refl
  after_unprepare-failed uid panic d h = refl

  unprepare_one-Forgotten :
      (uid : Str) (d : DriverState N)
      → (unprepare_one dr uid d).0 ≡ ok none
      → Forgotten uid d.allocations (unprepare_one dr uid d).1.allocations
  unfolding unprepare_one
  unprepare_one-Forgotten uid d h = elim (Option-cases (lookup uid d.allocations)) [
    | inl q ↦ rw (q, unprepare_one) (λ k. ground arith)
    | inr (a, q) ↦
        rw (q, unprepare_one)
          (after_unprepare-Forgotten uid (unprepare_allocation dr a d.world).0 _
            (rw (q, unprepare_one) at h))
  ]

  -- If unpreparing a claim succeeds, the driver tracks the allocations of all other claims as
  -- before, and none for this claim; unpreparing it once more succeeds and changes nothing.
  pub unprepare_one-unprepare_one :
      (uid k : Str) (d : DriverState N)
      → (unprepare_one dr uid d).0 ≡ ok none
      → let v = (unprepare_one dr uid d).1 in
        (lookup k v.allocations ≡ (if uid == k then none else lookup k d.allocations))
        × (unprepare_one dr uid v ≡ (ok none, v))
  unfolding unprepare_one
  unprepare_one-unprepare_one uid k d h =
      (unprepare_one-Forgotten uid d h k, ground (arith, unprepare_one-Forgotten uid d h uid))

  -- If unpreparing a claim fails, no allocation is forgotten, so that it can be tried again.
  pub unprepare_one-failed :
      (uid : Str) (d : DriverState N) {e : Error}
      → (unprepare_one dr uid d).0 ≡ ok (some e)
      → (unprepare_one dr uid d).1.allocations ≡ d.allocations
  unfolding unprepare_one
  unprepare_one-failed uid d h = elim (Option-cases (lookup uid d.allocations)) [
    | inl q ↦ rw (q, unprepare_one) refl
    | inr (a, q) ↦
        rw (q, unprepare_one)
          (after_unprepare-failed uid (unprepare_allocation dr a d.world).0 _
            (rw (q, unprepare_one) at h))
  ]
