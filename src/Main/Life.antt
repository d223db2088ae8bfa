-- ===== src/Main/Life.antt =====
-- Any life of the driver with its own handlers, with the process starting again at any time
-- (pkg/driver/driver.go, cmd/dra-driver/main.go).
use dra_multi_things.Base.{
  ◌≡◌, refl, subst, sym, Str, str_eq, List, take, length, leb, true, false, [], ◌∷◌, none, All,
  Option, arith,
}
use dra_multi_things.Base.Dict.{Dict, lookup, lookup-nil}
use dra_multi_things.Driver.Claim.{ResourceClaim}
use dra_multi_things.Driver.Codec.RoundTrip.{IsPortable}
use dra_multi_things.Driver.Server.{
  prepare_claim, ClaimResult, prepare_one, prepare_all, prepare_resource_claims, unprepare_one,
  unprepare_all, unprepare_resource_claims,
}
use dra_multi_things.Driver.Server.History.{serve}
use dra_multi_things.Driver.Server.Mirrored.{Mirrored, prepare_one-Mirrored, unprepare_one-Mirrored}
use dra_multi_things.Driver.Server.Prepared.{Call, prepare, unprepare}
use dra_multi_things.Driver.Store.{Driver, DriverState, new, restore_allocations, is_state_file}
use dra_multi_things.Driver.Store.Mirror.{Mirrors, same-Mirrors}
use dra_multi_things.Driver.Store.Paths.{NoSeparator}
use dra_multi_things.Driver.Store.Sidecar.{started}
use dra_multi_things.Driver.Store.Transparent.{restore_allocations-same, started-Mirrors}
use dra_multi_things.Handler.{AllocationInfo, PrepareResult}
use dra_multi_things.Main.{build_handler_registry}
use dra_multi_things.Main.Files.{prepare_claim-os, unprepare_allocation-os}
use dra_multi_things.Main.Persists.{prepare_claim-Restorable}
use dra_multi_things.System.Errors.{Error, Outcome, ok, err, panic}
use dra_multi_things.System.Monad.{M, then_do}
use dra_multi_things.System.Netlink.{Netlink, IsLawful, DeletesCleanly}
use dra_multi_things.System.Os
use dra_multi_things.System.World.{World}

module _ {N : Netlink} (dr : Driver N) (U : Str → Type 0) where
  -- Claims with `U`, whose handlers, if they return an allocation when their turn comes, fill it
  -- with texts that are valid UTF-8.
  abbrev pub AdmitsAll : List ResourceClaim → DriverState N → Type 0
  AdmitsAll [] d = Unit
  AdmitsAll (rc ∷ claims) d =
      U rc.uid
      × (((r : PrepareResult) → (prepare_claim dr rc d.world).0 ≡ ok r → IsPortable r.allocation)
          × AdmitsAll claims (prepare_one dr rc d).1)

  -- The claims of a call, which the driver takes up once it has read its files.
  abbrev pub Admits : Call → DriverState N → Type 0
  Admits (prepare claims) d = AdmitsAll claims (restore_allocations dr.driver_name d)
  Admits (unprepare uids) d = All U uids

  -- A life of the driver: calls, the process that ends and starts again, and what others do to
  -- anything but the files.
  pub data Life (first : DriverState N) : DriverState N → Type 0 where
    start : Life first first
    served :
        {d : DriverState N} (c : Call) → Admits c d → Life first d → Life first (serve dr c d).1
    restarted : {d : DriverState N} → Life first d → Life first (started dr d.world)
    elsewhere :
        {d : DriverState N} (w : World N)
        → w.os ≡ d.world.os
        → Life first d
        → Life first (record d { world = w })

module _ (N : Netlink) {group : N.State → Str → List Str} (L : IsLawful N group)
    (D : DeletesCleanly N) (dr : Driver N) (e : dr.registry ≡ build_handler_registry)
    (U : Str → Type 0) (long : (x : Str) → U x → (leb 8 (length x) ≡ true) × NoSeparator (take 8 x))
    (apart : (x y : Str) → U x → U y → take 8 x ≡ take 8 y → x ≡ y) where
  abbrev Good : DriverState N → Type 0
  Good = Mirrored dr U long apart

  then-Good :
      {A B : Type 0} (f : A → M (DriverState N) B) (o : Outcome A) (d : DriverState N)
      → Good d
      → ((a : A) → Good (f a d).1)
      → Good (then_do f o d).1
  then-Good f (ok a) d g h = h a
  then-Good f (err x) d g h = g
  then-Good f panic d g h = g

  prepare_all-Good :
      (claims : List ResourceClaim) (results : Dict Str ClaimResult) (d : DriverState N)
      → AdmitsAll dr U claims d
      → Good d
      → Good (prepare_all dr claims results d).1
  unfolding prepare_all
  prepare_all-Good [] results d u g = g
  prepare_all-Good (rc ∷ claims) results d (u, (t, us)) g =
      let after =
        prepare_one-Mirrored dr U long apart rc d u (prepare_claim-os dr rc d.world e)
          (λ r x. (prepare_claim-Restorable N L D dr e rc d.world r x, t r x)) g in
      then-Good _ (prepare_one dr rc d).0 (prepare_one dr rc d).1 after
        (λ a. prepare_all-Good claims _ (prepare_one dr rc d).1 us after)

  unprepare_all-Good :
      (uids : List Str) (results : Dict Str (Option Error)) (d : DriverState N)
      → All U uids
      → Good d
      → Good (unprepare_all dr uids results d).1
  unfolding unprepare_all
  unprepare_all-Good [] results d u g = g
  unprepare_all-Good (uid ∷ uids) results d (u, us) g =
      let after =
        unprepare_one-Mirrored dr U long apart uid d u (λ a. unprepare_allocation-os dr a d.world e)
          g in
      then-Good _ (unprepare_one dr uid d).0 (unprepare_one dr uid d).1 after
        (λ a. unprepare_all-Good uids _ (unprepare_one dr uid d).1 us after)

  restored-Good : (d : DriverState N) → Good d → Good (restore_allocations dr.driver_name d)
  unfolding restore_allocations
  restored-Good d g =
      same-Mirrors dr.driver_name U long apart d.allocations
        (restore_allocations dr.driver_name d).allocations d.world.os
        (restore_allocations-same dr U long apart d.allocations d.world g d refl (λ k n. n)) g

  serve-Good : (c : Call) (d : DriverState N) → Admits dr U c d → Good d → Good (serve dr c d).1
  unfolding serve prepare_resource_claims unprepare_resource_claims
  serve-Good (prepare claims) d u g =
      prepare_all-Good claims [] (restore_allocations dr.driver_name d) u (restored-Good d g)
  serve-Good (unprepare uids) d u g =
      unprepare_all-Good uids [] (restore_allocations dr.driver_name d) u (restored-Good d g)

  started-Good : (d : DriverState N) → Good d → Good (started dr d.world)
  unfolding restore_allocations new
  started-Good d g =
      same-Mirrors dr.driver_name U long apart d.allocations (started dr d.world).allocations
        d.world.os (started-Mirrors dr U long apart d.allocations d.world g) g

  Life-Good : (first last : DriverState N) → Good first → Life dr U first last → Good last
  Life-Good first last g start = g
  Life-Good first last g (served {d} c u life) = serve-Good c d u (Life-Good first d g life)
  Life-Good first last g (restarted {d} life) = started-Good d (Life-Good first d g life)
  Life-Good first last g (elsewhere {d} w same life) =
      subst (Mirrors dr.driver_name U long apart d.allocations) (sym same)
        (Life-Good first d g life)

  new-Good :
      (w : World N)
      → ((c : Os.Call) (p : Str) → w.os.refuses c p ≡ false)
      → ((p : Str) → is_state_file dr.driver_name p ≡ true → lookup p w.os.files ≡ none)
      → Good (new w)
  unfolding new
  new-Good w obeys empty = record {
    obeys = obeys;
    held = λ v b l. absurd (ground (arith, lookup-nil {V = AllocationInfo} v));
    only = λ p c i l. absurd (ground (arith, empty p i));
  }

  -- Whatever happens in a life of the driver, a driver that starts with the world as it is then
  -- tracks the same allocation for any claim, or none if there is none. A life is any sequence of
  -- calls to prepare or unprepare claims, of starts of the process, and of changes by others to
  -- anything but the files. It begins with no sidecar file, on a system that refuses no call on
  -- files. This holds with the handlers of the driver, in a lawful kernel that refuses no deletion,
  -- if the claims of the calls have UIDs of at least eight bytes, the first eight of them without a
  -- slash or a dot, and no two of them the same first eight bytes, and if every text of an
  -- allocation that a handler returns for them is valid UTF-8.
  pub Life-restarts :
      (w : World N) (last : DriverState N)
      → ((c : Os.Call) (p : Str) → w.os.refuses c p ≡ false)
      → ((p : Str) → is_state_file dr.driver_name p ≡ true → lookup p w.os.files ≡ none)
      → Life dr U (new w) last
      → (k : Str) → lookup k (started dr last.world).allocations ≡ lookup k last.allocations
  Life-restarts w last obeys empty life =
      started-Mirrors dr U long apart last.allocations last.world
        (Life-Good (new w) last (new-Good w obeys empty) life)
