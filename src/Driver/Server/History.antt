-- ===== src/Driver/Server/History.antt =====
-- A life of the driver, and the set of prepared claims that its answers determine
-- (pkg/driver/driver.go).
use dra_multi_things.Base.{◌≡◌, refl, sym, ◌∙◌, Str, str_eq, List, [], ◌∷◌, Option, arith}
use dra_multi_things.Base.Dict.{lookup-nil}
use dra_multi_things.Driver.Server.{ClaimResult, prepare_resource_claims, unprepare_resource_claims}
use dra_multi_things.Driver.Server.Prepared.{
  ClaimSet, Answers, prepared, released, after_answers, in_files, Event, replay, with_found, IsFair,
  AllFair, Call, prepare, unprepare,
}
use dra_multi_things.Driver.Server.Refinement.{
  tracked, restore_allocations-tracks, prepare_all-refines, unprepare_all-refines,
  prepare_all-Grows, unprepare_all-Grows,
}
use dra_multi_things.Driver.Store.{Driver, DriverState, glob_files, restore_allocations}
use dra_multi_things.System.Errors.{Error, Outcome, ok, err, panic}
use dra_multi_things.System.Netlink.{Netlink}
use dra_multi_things.System.World.{World}

module _ {N : Netlink} (dr : Driver N) where
  abbrev map_ok : {A B : Type 0} → (A → B) → Outcome A → Outcome B
  map_ok f (ok a) = ok (f a)
  map_ok f (err e) = err e
  map_ok f panic = panic

  -- A call and its answers.
  unfoldable pub serve : Call → DriverState N → Outcome Answers × DriverState N
  serve (prepare claims) d =
      let (r, d') = prepare_resource_claims dr claims d in (map_ok prepared r, d')
  serve (unprepare uids) d =
      let (r, d') = unprepare_resource_claims dr uids d in (map_ok released r, d')

  abbrev pub event_of : DriverState N → Answers → Event
  event_of d a = record {
    found = in_files dr.driver_name d.world.os (glob_files d.world.os);
    answers = a;
  }

  -- A life of the driver: calls that are answered, the latest one first, and what others do to the
  -- kernel, the files and the tracker between them.
  pub data History (first : DriverState N) : List Event → DriverState N → Type 0 where
    start : History first [] first
    answered :
        {events : List Event} {d : DriverState N} (c : Call) (a : Answers)
        → History first events d
        → (serve c d).0 ≡ ok a
        → History first (event_of d a ∷ events) (serve c d).1
    elsewhere :
        {events : List Event} {d : DriverState N} (w : World N)
        → History first events d
        → History first events (record d { world = w })

  map_ok-inv :
      {A B : Type 0} (f : A → B) (o : Outcome A) (b : B)
      → map_ok f o ≡ ok b
      → (a : A) × (o ≡ ok a) × (b ≡ f a)
  map_ok-inv f (ok a) b h = (a, refl, cc)
  map_ok-inv f (err e) b h = absurd (ground arith)
  map_ok-inv f panic b h = absurd (ground arith)

  -- The state in which the claims of a call are taken up.
  abbrev restored : DriverState N → DriverState N
  restored d = restore_allocations dr.driver_name d

  restored-with_found :
      (a : Answers) (d : DriverState N) (s : ClaimSet)
      → ((k : Str) → tracked d k ≡ s k)
      → (k : Str) → tracked (restored d) k ≡ with_found (event_of d a) s k
  restored-with_found a d s i k = ground (arith, restore_allocations-tracks dr d k, i k)

  serve-replay :
      (c : Call) (a : Answers) (d : DriverState N) (s : ClaimSet)
      → (serve c d).0 ≡ ok a
      → ((k : Str) → tracked d k ≡ s k)
      → (k : Str) → tracked (serve c d).1 k ≡ after_answers a (with_found (event_of d a) s) k
  unfolding serve prepare_resource_claims unprepare_resource_claims
  serve-replay (prepare claims) a d s h i k =
      let (results, q, e) = map_ok-inv prepared (prepare_resource_claims dr claims d).0 a h in
      rw e (
        prepare_all-refines dr claims [] (restored d) (with_found (event_of d a) s)
          {results = results}
          (λ j. ground (arith, lookup-nil {V = ClaimResult} j, restored-with_found a d s i j)) q k)
  serve-replay (unprepare uids) a d s h i k =
      let (results, q, e) = map_ok-inv released (unprepare_resource_claims dr uids d).0 a h in
      rw e (
        unprepare_all-refines dr uids [] (restored d) (with_found (event_of d a) s)
          {results = results}
          (λ j. ground (arith, lookup-nil {V = Option Error} j, restored-with_found a d s i j)) q k)

  serve-IsFair :
      (c : Call) (a : Answers) (d : DriverState N) (s t : ClaimSet)
      → (serve c d).0 ≡ ok a
      → ((k : Str) → tracked d k ≡ s k)
      → ((k : Str) → tracked (serve c d).1 k ≡ t k)
      → IsFair a (with_found (event_of d a) s) t
  unfolding serve prepare_resource_claims unprepare_resource_claims
  serve-IsFair (prepare claims) a d s t h i j =
      let (results, q, e) = map_ok-inv prepared (prepare_resource_claims dr claims d).0 a h in
      rw e (λ k u.
        sym (j k)
        ∙ prepare_all-Grows dr claims [] (restored d) {results = results} q k
            (restored-with_found a d s i k ∙ u))
  serve-IsFair (unprepare uids) a d s t h i j =
      let (results, q, e) = map_ok-inv released (unprepare_resource_claims dr uids d).0 a h in
      rw e (λ k u.
        sym (restored-with_found a d s i k)
        ∙ unprepare_all-Grows dr uids [] (restored d) {results = results} q k (j k ∙ u))

  -- Over any life of the driver, with whatever others do to the kernel and the files between the
  -- calls, the claims that the driver tracks are those that the answers make up: the claims that it
  -- tracked at first and those found in its files, with the ones that were answered with devices and
  -- without the ones that were released. No call to prepare takes a claim out of this set, and none
  -- to unprepare adds one.
  pub History-replay :
      (first last : DriverState N) (events : List Event)
      → History first events last
      → ((k : Str) → tracked last k ≡ replay events (tracked first) k)
        × AllFair events (tracked first)
  History-replay first last events start = ((λ k. refl), tt)
  History-replay first last events (answered {events = earlier} {d} c a history h) =
      let (same, fair) = History-replay first d earlier history in
      let next = serve-replay c a d (replay earlier (tracked first)) h same in
      (
        next,
        (
          serve-IsFair c a d (replay earlier (tracked first))
              (after_answers a (with_found (event_of d a) (replay earlier (tracked first)))) h same
              next,
          fair,
        ),
      )
  History-replay first last events (elsewhere {events = earlier} {d} w history) =
      History-replay first d earlier history
