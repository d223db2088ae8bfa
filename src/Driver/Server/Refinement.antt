-- ===== src/Driver/Server/Refinement.antt =====
-- The driver as a set of prepared claims (pkg/driver/driver.go).
use dra_multi_things.Base.{
  ◌≡◌, refl, ap, ◌∙◌, Str, str_eq, ◌==◌, true, false, ◌||◌, List, [], ◌∷◌, Option, none, some, ◌⊎◌,
  inl, inr, arith, Option-cases, Bool-cases, if◌then◌else◌,
}
use dra_multi_things.Base.Dict.{Dict, lookup, insert, lookup-insert}
use dra_multi_things.Driver.Claim.{ResourceClaim}
use dra_multi_things.Driver.Codec.{decode_allocation}
use dra_multi_things.Driver.Server.{
  ClaimResult, devices, failed, prepare_one, prepare_all, unprepare_one, unprepare_all, after_spec,
  after_prepare, prepare_claim, cached_result, fresh_result, result_from_alloc,
}
use dra_multi_things.Driver.Server.Answers.{is_some}
use dra_multi_things.Driver.Server.Forget.{unprepare_one-unprepare_one, unprepare_one-failed}
use dra_multi_things.Driver.Server.Idempotent.{Outcome-cases, prepare_one-failed}
use dra_multi_things.Driver.Server.Prepared.{
  ClaimSet, if_devices, if_released, holds_claim, in_files, Grows,
}
use dra_multi_things.Driver.Store.{
  Driver, DriverState, glob_files, is_state_file, restore_file, restore_files, restore_allocations,
  create_cdi_spec,
}
use dra_multi_things.Handler.{AllocationInfo, PrepareResult}
use dra_multi_things.System.Errors.{Error, Outcome, ok, err, panic}
use dra_multi_things.System.Netlink.{Netlink}
use dra_multi_things.System.Os.{Os, Content, read_file}

-- The claims that the driver tracks.
abbrev pub tracked_in : Dict Str AllocationInfo → ClaimSet
tracked_in allocations k = is_some (lookup k allocations)

abbrev pub tracked : {N : Netlink} → DriverState N → ClaimSet
tracked d k = tracked_in d.allocations k

restore_file-tracks :
    (x : Error ⊎ Content) (acc : Dict Str AllocationInfo) (k : Str)
    → tracked_in (restore_file x acc) k ≡ (holds_claim x k || tracked_in acc k)
unfolding restore_file
restore_file-tracks (inl e) acc k = refl
restore_file-tracks (inr c) acc k = elim (Option-cases (decode_allocation c)) [
  | inl q ↦ rw (q, restore_file) refl
  | inr (a, q) ↦ rw (q, restore_file) (ground (arith, lookup-insert k a.claim_uid a acc))
]

restore_files-tracks :
    (name : Str) (os : Os) (files : Dict Str Content) (acc : Dict Str AllocationInfo) (k : Str)
    → tracked_in (restore_files name os files acc) k
      ≡ (in_files name os files k || tracked_in acc k)
unfolding restore_files
restore_files-tracks name os [] acc k = refl
restore_files-tracks name os ((p, c) ∷ files) acc k = elim (Bool-cases (is_state_file name p)) [
  | inl e ↦ rw e (
      ground (
        arith,
        restore_files-tracks name os files (restore_file (read_file os p) acc) k,
        restore_file-tracks (read_file os p) acc k,
      ))
  | inr e ↦ rw e (ground (arith, restore_files-tracks name os files acc k))
]

module _ {N : Netlink} (dr : Driver N) where
  pub restore_allocations-tracks :
      (d : DriverState N) (k : Str)
      → tracked (restore_allocations dr.driver_name d) k
        ≡ (in_files dr.driver_name d.world.os (glob_files d.world.os) k || tracked d k)
  unfolding restore_allocations
  restore_allocations-tracks d k =
      restore_files-tracks dr.driver_name d.world.os (glob_files d.world.os) d.allocations k

  -- What a round leaves of the set, where the claim has the answer `c`.
  abbrev Leaves : Str → ClaimResult → DriverState N → DriverState N → Type 0
  Leaves uid c d d' =
      (k : Str) → tracked d' k ≡ (if uid == k then if_devices (some c) false else tracked d k)

  after_spec-Leaves :
      (uid : Str) (r : PrepareResult) (o : Outcome Str) (d : DriverState N) (c : ClaimResult)
      → lookup uid d.allocations ≡ none
      → (after_spec dr uid r o d).0 ≡ ok c
      → Leaves uid c d (after_spec dr uid r o d).1
  unfolding after_spec fresh_result
  after_spec-Leaves uid r (ok id) d (devices ds) n h k =
      ground (arith, lookup-insert k uid r.allocation d.allocations)
  after_spec-Leaves uid r (ok id) d (failed e) n h k = absurd (ground arith)
  after_spec-Leaves uid r (err e) d (devices ds) n h k = absurd (ground arith)
  after_spec-Leaves uid r (err e) d (failed f) n h k = ground arith
  after_spec-Leaves uid r panic d c n h k = absurd (ground arith)

  after_prepare-Leaves :
      (uid : Str) (o : Outcome PrepareResult) (d : DriverState N) (c : ClaimResult)
      → lookup uid d.allocations ≡ none
      → (after_prepare dr uid o d).0 ≡ ok c
      → Leaves uid c d (after_prepare dr uid o d).1
  unfolding after_prepare
  after_prepare-Leaves uid (ok r) d c n h k =
      after_spec-Leaves uid r (create_cdi_spec dr uid r d.world).0 _ c n h k
  after_prepare-Leaves uid (err e) d (devices ds) n h k = absurd (ground arith)
  after_prepare-Leaves uid (err e) d (failed f) n h k = ground arith
  after_prepare-Leaves uid panic d c n h k = absurd (ground arith)

  -- The answer for a claim that is prepared already.
  cached-Leaves :
      (uid : Str) (a : AllocationInfo) (d : DriverState N) (c : ClaimResult)
      → lookup uid d.allocations ≡ some a
      → ◌≡◌ {A = Outcome ClaimResult} (ok (cached_result dr.driver_name a)) (ok c)
      → Leaves uid c d d
  unfolding cached_result result_from_alloc
  cached-Leaves uid a d (devices ds) q h k = ground arith
  cached-Leaves uid a d (failed e) q h k = absurd (ground arith)

  prepare_one-Leaves :
      (rc : ResourceClaim) (d : DriverState N) (c : ClaimResult)
      → (prepare_one dr rc d).0 ≡ ok c
      → Leaves rc.uid c d (prepare_one dr rc d).1
  unfolding prepare_one
  prepare_one-Leaves rc d c h k = elim (Option-cases (lookup rc.uid d.allocations)) [
    | inl q ↦
        rw (q, prepare_one)
          (after_prepare-Leaves rc.uid (prepare_claim dr rc d.world).0 _ c q
            (rw (q, prepare_one) at h) k)
    | inr (a, q) ↦ rw (q, prepare_one) (cached-Leaves rc.uid a d c q (rw (q, prepare_one) at h) k)
  ]

  -- A claim whose release fails is one that is prepared.
  unprepare_one-tracked :
      (uid : Str) (d : DriverState N) (e : Error)
      → (unprepare_one dr uid d).0 ≡ ok (some e)
      → tracked d uid ≡ true
  unfolding unprepare_one
  unprepare_one-tracked uid d e h = elim (Option-cases (lookup uid d.allocations)) [
    | inl q ↦ absurd (ground arith)
    | inr (a, q) ↦ rw q refl
  ]

  unprepare_one-Leaves :
      (uid : Str) (d : DriverState N) (e : Option Error)
      → (unprepare_one dr uid d).0 ≡ ok e
      → (k : Str)
      → tracked (unprepare_one dr uid d).1 k
        ≡ (if uid == k then if_released (some e) false else tracked d k)
  unprepare_one-Leaves uid d none h k = ground (arith, (unprepare_one-unprepare_one dr uid k d h).0)
  unprepare_one-Leaves uid d (some e) h k = ground (
    arith,
    ap (λ m. tracked_in m k) (unprepare_one-failed dr uid d {e = e} h),
    unprepare_one-tracked uid d e h,
  )

  pub prepare_all-refines :
      (claims : List ResourceClaim) (old : Dict Str ClaimResult) (d : DriverState N) (s : ClaimSet)
      {results : Dict Str ClaimResult}
      → ((k : Str) → tracked d k ≡ if_devices (lookup k old) (s k))
      → (prepare_all dr claims old d).0 ≡ ok results
      → (k : Str) → tracked (prepare_all dr claims old d).1 k ≡ if_devices (lookup k results) (s k)
  unfolding prepare_all
  prepare_all-refines [] old d s i h k = i k ∙ ground arith
  prepare_all-refines (rc ∷ claims) old d s {results} i h k =
      elim (Outcome-cases (prepare_one dr rc d).0) [
        | inl (r, q) ↦
            rw (q, prepare_all)
              (prepare_all-refines claims (insert rc.uid r old) (prepare_one dr rc d).1 s
                {results = results}
                (λ j.
                  ground (arith, i j, prepare_one-Leaves rc d r q j, lookup-insert j rc.uid r old))
                (rw (q, prepare_all) at h) k)
        | inr (inl (e, q)) ↦ absurd (ground arith)
        | inr (inr q) ↦ absurd (ground arith)
      ]

  pub unprepare_all-refines :
      (uids : List Str) (old : Dict Str (Option Error)) (d : DriverState N) (s : ClaimSet)
      {results : Dict Str (Option Error)}
      → ((k : Str) → tracked d k ≡ if_released (lookup k old) (s k))
      → (unprepare_all dr uids old d).0 ≡ ok results
      → (k : Str) → tracked (unprepare_all dr uids old d).1 k ≡ if_released (lookup k results) (s k)
  unfolding unprepare_all
  unprepare_all-refines [] old d s i h k = i k ∙ ground arith
  unprepare_all-refines (uid ∷ uids) old d s {results} i h k =
      elim (Outcome-cases (unprepare_one dr uid d).0) [
        | inl (r, q) ↦
            rw (q, unprepare_all)
              (unprepare_all-refines uids (insert uid r old) (unprepare_one dr uid d).1 s
                {results = results}
                (λ j.
                  ground (arith, i j, unprepare_one-Leaves uid d r q j, lookup-insert j uid r old))
                (rw (q, unprepare_all) at h) k)
        | inr (inl (e, q)) ↦ absurd (ground arith)
        | inr (inr q) ↦ absurd (ground arith)
      ]

  prepare_one-Grows :
      (rc : ResourceClaim) (d : DriverState N) (c : ClaimResult)
      → (prepare_one dr rc d).0 ≡ ok c
      → Grows (tracked d) (tracked (prepare_one dr rc d).1)
  prepare_one-Grows rc d (devices ds) h k t =
      ground (arith, prepare_one-Leaves rc d (devices ds) h k)
  prepare_one-Grows rc d (failed e) h k t =
      ground (arith, ap (λ m. tracked_in m k) (prepare_one-failed dr rc d {e = e} h))

  pub prepare_all-Grows :
      (claims : List ResourceClaim) (old : Dict Str ClaimResult) (d : DriverState N)
      {results : Dict Str ClaimResult}
      → (prepare_all dr claims old d).0 ≡ ok results
      → Grows (tracked d) (tracked (prepare_all dr claims old d).1)
  unfolding prepare_all
  prepare_all-Grows [] old d h k t = t
  prepare_all-Grows (rc ∷ claims) old d {results} h k t =
      elim (Outcome-cases (prepare_one dr rc d).0) [
        | inl (r, q) ↦
            rw (q, prepare_all)
              (prepare_all-Grows claims (insert rc.uid r old) (prepare_one dr rc d).1
                {results = results} (rw (q, prepare_all) at h) k (prepare_one-Grows rc d r q k t))
        | inr (inl (e, q)) ↦ absurd (ground arith)
        | inr (inr q) ↦ absurd (ground arith)
      ]

  unprepare_one-Grows :
      (uid : Str) (d : DriverState N) (e : Option Error)
      → (unprepare_one dr uid d).0 ≡ ok e
      → Grows (tracked (unprepare_one dr uid d).1) (tracked d)
  unprepare_one-Grows uid d none h k t =
      ground (arith, (unprepare_one-unprepare_one dr uid k d h).0)
  unprepare_one-Grows uid d (some e) h k t =
      ground (arith, ap (λ m. tracked_in m k) (unprepare_one-failed dr uid d {e = e} h))

  pub unprepare_all-Grows :
      (uids : List Str) (old : Dict Str (Option Error)) (d : DriverState N)
      {results : Dict Str (Option Error)}
      → (unprepare_all dr uids old d).0 ≡ ok results
      → Grows (tracked (unprepare_all dr uids old d).1) (tracked d)
  unfolding unprepare_all
  unprepare_all-Grows [] old d h k t = t
  unprepare_all-Grows (uid ∷ uids) old d {results} h k t =
      elim (Outcome-cases (unprepare_one dr uid d).0) [
        | inl (r, q) ↦ unprepare_one-Grows uid d r q k (
            unprepare_all-Grows uids (insert uid r old) (unprepare_one dr uid d).1
              {results = results} (rw (q, unprepare_all) at h) k (rw (q, unprepare_all) at t))
        | inr (inl (e, q)) ↦ absurd (ground arith)
        | inr (inr q) ↦ absurd (ground arith)
      ]
