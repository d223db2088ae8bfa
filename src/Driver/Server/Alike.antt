-- ===== src/Driver/Server/Alike.antt =====
-- Rounds on claims that the driver tracks, whatever else it tracks (pkg/driver/driver.go).
use dra_multi_things.Base.{Option, ◌≡◌, refl, Str, str_eq, some}
use dra_multi_things.Base.Dict.{Dict, lookup}
use dra_multi_things.Driver.Claim.{ResourceClaim}
use dra_multi_things.Driver.Server.{
  cached_result, prepare_one, unprepare_one, unprepare_allocation, after_unprepare, deleted,
}
use dra_multi_things.Driver.Store.{Driver, DriverState, delete_cdi_spec}
use dra_multi_things.Handler.{AllocationInfo}
use dra_multi_things.System.Errors.{Error, Outcome, ok, err, panic}
use dra_multi_things.System.Netlink.{Netlink}
use dra_multi_things.System.World.{World}

module _ {N : Netlink} (dr : Driver N) where
  -- The round of a claim that the driver tracks.
  pub prepare_one-tracked :
      (rc : ResourceClaim) (d : DriverState N) (a : AllocationInfo)
      → lookup rc.uid d.allocations ≡ some a
      → prepare_one dr rc d ≡ (ok (cached_result dr.driver_name a), d)
  unfolding prepare_one
  prepare_one-tracked rc d a q = rw (q, prepare_one) refl

  -- The same answer, and the same world.
  abbrev pub Alike :
      Outcome (Option Error) × DriverState N → Outcome (Option Error) × DriverState N → Type 0
  Alike x y = (x.0 ≡ y.0) × (x.1.world ≡ y.1.world)

  deleted-Alike :
      (uid : Str) (o : Outcome (Unit {0})) (A B : Dict Str AllocationInfo) (w : World N)
      → Alike
          (deleted dr uid o (record { allocations = A; world = w }))
          (deleted dr uid o (record { allocations = B; world = w }))
  deleted-Alike uid (ok _) A B w = (refl, refl)
  deleted-Alike uid (err e) A B w = (refl, refl)
  deleted-Alike uid panic A B w = (refl, refl)

  after_unprepare-Alike :
      (uid : Str) (o : Outcome (Unit {0})) (A B : Dict Str AllocationInfo) (w : World N)
      → Alike
          (after_unprepare dr uid o (record { allocations = A; world = w }))
          (after_unprepare dr uid o (record { allocations = B; world = w }))
  unfolding after_unprepare
  after_unprepare-Alike uid (ok _) A B w =
      deleted-Alike uid (delete_cdi_spec dr.driver_name uid w).0 A B _
  after_unprepare-Alike uid (err e) A B w = (refl, refl)
  after_unprepare-Alike uid panic A B w = (refl, refl)

  -- Unpreparing a claim does the same, whatever else the driver tracks.
  pub unprepare_one-Alike :
      (uid : Str) (a : AllocationInfo) (c d : DriverState N)
      → lookup uid c.allocations ≡ some a
      → lookup uid d.allocations ≡ some a
      → d.world ≡ c.world
      → Alike (unprepare_one dr uid d) (unprepare_one dr uid c)
  unfolding unprepare_one
  unprepare_one-Alike uid a c d p q e =
      rw (p, q, e, unprepare_one)
        (after_unprepare-Alike uid (unprepare_allocation dr a c.world).0 _ _ _)
