-- ===== src/Main/Calls.antt =====
-- The answers of `PrepareResourceClaims` and `UnprepareResourceClaims` (pkg/driver/driver.go) with
-- the handlers of the driver.
use dra_multi_things.Base.{
  ◌≡◌, ◌≢◌, refl, ap, sym, ◌∙◌, Str, str_eq, leb, length, All, true, List, [], ◌∷◌, contains,
  Option, none, some, inl, inr, arith, Option-cases,
}
use dra_multi_things.Base.Dict.{Dict, insert, lookup, lookup-nil}
use dra_multi_things.Driver.Claim.{ResourceClaim, parse_config, get_allocated_device}
use dra_multi_things.Driver.Server.{
  ClaimResult, failed, prepare_claim, unprepare_allocation, after_spec, after_prepare, prepare_one,
  prepare_all, prepare_resource_claims, after_unprepare, unprepare_one, unprepare_all,
  unprepare_resource_claims,
}
use dra_multi_things.Driver.Server.Answers.{
  is_some, uids_of, prepare_all-answers, unprepare_all-answers,
}
use dra_multi_things.Driver.Server.Idempotent.{Outcome-cases}
use dra_multi_things.Driver.Store.{
  Driver, DriverState, create_cdi_spec, save_allocation, write_spec, delete_cdi_spec,
  restore_allocations,
}
use dra_multi_things.Handler.{
  DeviceHandler, PrepareRequest, PrepareResult, UnprepareRequest, AllocationInfo, get_kind,
}
use dra_multi_things.Handler.Registry.{get, must_get}
use dra_multi_things.Main.{build_handler_registry}
use dra_multi_things.Main.Behaviour.{Behaves, build_handler_registry-Behaves, loud}
use dra_multi_things.System.Errors.{Error, Outcome, ok, err, panic}
use dra_multi_things.System.Netlink.{Netlink}
use dra_multi_things.System.World.{World}

-- The UID has the eight bytes that file and interface names take.
abbrev pub Long : Str → Type 0
Long uid = leb 8 (length uid) ≡ true

module _ {N : Netlink} (dr : Driver N)
    (B : (typ kind : Str) (h : DeviceHandler (World N))
      → get typ kind dr.registry ≡ some h
      → Behaves h) where
  prepare_claim-returns :
      (rc : ResourceClaim) (w : World N) → Long rc.uid → (prepare_claim dr rc w).0 ≢ panic
  unfolding prepare_claim must_get
  prepare_claim-returns rc w long h =
      let cfg = parse_config dr.driver_name (some rc) in
      let req : PrepareRequest = record {
        claim_uid = rc.uid;
        namespace = rc.namespace;
        claim_name = rc.name;
        allocated_device = get_allocated_device dr.driver_name (some rc);
        config = cfg;
      } in
      elim (Option-cases (get cfg.typ (get_kind cfg) dr.registry)) [
        | inl q ↦ absurd (ground arith)
        | inr (x, q) ↦ absurd (
            ground
              (arith, loud (x.prepare req) w ((B cfg.typ (get_kind cfg) x q).returns req long)))
      ]

  unprepare_allocation-returns :
      (a : AllocationInfo) (w : World N) → (unprepare_allocation dr a w).0 ≢ panic
  unfolding unprepare_allocation
  unprepare_allocation-returns a w h =
      let req : UnprepareRequest = record { claim_uid = a.claim_uid; allocation = a } in
      elim (Option-cases (get a.typ a.kind dr.registry)) [
        | inl q ↦ absurd (ground arith)
        | inr (x, q) ↦
            absurd (ground (arith, loud (x.unprepare req) w ((B a.typ a.kind x q).undoes req)))
      ]

  create_cdi_spec-returns :
      (uid : Str) (r : PrepareResult) (w : World N)
      → Long uid
      → (create_cdi_spec dr uid r w).0 ≢ panic
  unfolding create_cdi_spec save_allocation write_spec
  create_cdi_spec-returns uid r w long h = absurd (ground arith)

  after_spec-ok :
      (uid : Str) (r : PrepareResult) (o : Outcome Str) (d : DriverState N)
      → o ≢ panic
      → (c : ClaimResult) × ((after_spec dr uid r o d).0 ≡ ok c)
  unfolding after_spec
  after_spec-ok uid r (ok id) d q = (_, refl)
  after_spec-ok uid r (err e) d q =
      elim (Outcome-cases (unprepare_allocation dr r.allocation d.world).0) [
        | inl (u, h) ↦ (failed e, ground arith)
        | inr (inl (f, h)) ↦ (failed e, ground arith)
        | inr (inr h) ↦ absurd (unprepare_allocation-returns r.allocation d.world h)
      ]
  after_spec-ok uid r panic d q = absurd (q refl)

  after_prepare-ok :
      (uid : Str) (o : Outcome PrepareResult) (d : DriverState N)
      → Long uid
      → o ≢ panic
      → (c : ClaimResult) × ((after_prepare dr uid o d).0 ≡ ok c)
  unfolding after_prepare
  after_prepare-ok uid (ok r) d long q =
      after_spec-ok uid r _ _ (create_cdi_spec-returns uid r d.world long)
  after_prepare-ok uid (err e) d long q = (_, refl)
  after_prepare-ok uid panic d long q = absurd (q refl)

  prepare_one-ok :
      (rc : ResourceClaim) (d : DriverState N)
      → Long rc.uid
      → (c : ClaimResult) × ((prepare_one dr rc d).0 ≡ ok c)
  unfolding prepare_one
  prepare_one-ok rc d long = elim (Option-cases (lookup rc.uid d.allocations)) [
    | inl q ↦
        rw (q, prepare_one)
          (after_prepare-ok rc.uid (prepare_claim dr rc d.world).0 _ long
            (prepare_claim-returns rc d.world long))
    | inr (a, q) ↦ rw (q, prepare_one) (_, refl)
  ]

  prepare_all-ok :
      (claims : List ResourceClaim) (old : Dict Str ClaimResult) (d : DriverState N)
      → All Long (uids_of claims)
      → (results : Dict Str ClaimResult) × ((prepare_all dr claims old d).0 ≡ ok results)
  unfolding prepare_all
  prepare_all-ok [] old d long = (old, refl)
  prepare_all-ok (rc ∷ claims) old d long =
      let (c, q) = prepare_one-ok rc d long.0 in
      rw (q, prepare_all)
        (prepare_all-ok claims (insert rc.uid c old) (prepare_one dr rc d).1 long.1)

  after_unprepare-ok :
      (uid : Str) (o : Outcome (Unit {0})) (d : DriverState N)
      → Long uid
      → o ≢ panic
      → (e : Option Error) × ((after_unprepare dr uid o d).0 ≡ ok e)
  unfolding after_unprepare delete_cdi_spec
  after_unprepare-ok uid (ok u) d long q = (none, ground arith)
  after_unprepare-ok uid (err e) d long q = (some e, refl)
  after_unprepare-ok uid panic d long q = absurd (q refl)

  unprepare_one-ok :
      (uid : Str) (d : DriverState N)
      → Long uid
      → (e : Option Error) × ((unprepare_one dr uid d).0 ≡ ok e)
  unfolding unprepare_one
  unprepare_one-ok uid d long = elim (Option-cases (lookup uid d.allocations)) [
    | inl q ↦ rw (q, unprepare_one) (none, refl)
    | inr (a, q) ↦
        rw (q, unprepare_one)
          (after_unprepare-ok uid (unprepare_allocation dr a d.world).0 _ long
            (unprepare_allocation-returns a d.world))
  ]

  unprepare_all-ok :
      (uids : List Str) (old : Dict Str (Option Error)) (d : DriverState N)
      → All Long uids
      → (results : Dict Str (Option Error)) × ((unprepare_all dr uids old d).0 ≡ ok results)
  unfolding unprepare_all
  unprepare_all-ok [] old d long = (old, refl)
  unprepare_all-ok (uid ∷ uids) old d long =
      let (e, q) = unprepare_one-ok uid d long.0 in
      rw (q, unprepare_all)
        (unprepare_all-ok uids (insert uid e old) (unprepare_one dr uid d).1 long.1)

module _ {N : Netlink} (dr : Driver N) where
  registry-Behaves :
      dr.registry ≡ build_handler_registry
      → (typ kind : Str) (h : DeviceHandler (World N)) → get typ kind dr.registry ≡ some h
      → Behaves h
  registry-Behaves e typ kind h q =
      build_handler_registry-Behaves typ kind (ap (get typ kind) (sym e) ∙ q)

  -- `PrepareResourceClaims` with the handlers of the driver returns for any claims whose UIDs have
  -- at least eight bytes, whatever the files and the kernel hold and whichever calls fail, and
  -- exactly the UIDs of these claims have an answer.
  pub prepare_resource_claims-answers :
      (claims : List ResourceClaim) (k : Str) (d : DriverState N)
      → dr.registry ≡ build_handler_registry
      → All Long (uids_of claims)
      → (results : Dict Str ClaimResult) × (((prepare_resource_claims dr claims d).0 ≡ ok results)
          × (is_some (lookup k results) ≡ contains (uids_of claims) k))
  unfolding prepare_resource_claims
  prepare_resource_claims-answers claims k d e long =
      let start = restore_allocations dr.driver_name d in
      let (results, q) = prepare_all-ok dr (registry-Behaves e) claims [] start long in
      (
        results,
        (
          q,
          ground (
            arith,
            prepare_all-answers dr claims [] start {results = results} k q,
            lookup-nil {V = ClaimResult} k,
          ),
        ),
      )

  -- `UnprepareResourceClaims` with the handlers of the driver returns for any UIDs of at least
  -- eight bytes, whatever the files and the kernel hold and whichever calls fail, and exactly these
  -- UIDs have an answer.
  pub unprepare_resource_claims-answers :
      (uids : List Str) (k : Str) (d : DriverState N)
      → dr.registry ≡ build_handler_registry
      → All Long uids
      → (results : Dict Str (Option Error)) × (((unprepare_resource_claims dr uids d).0
            ≡ ok results)
          × (is_some (lookup k results) ≡ contains uids k))
  unfolding unprepare_resource_claims
  unprepare_resource_claims-answers uids k d e long =
      let start = restore_allocations dr.driver_name d in
      let (results, q) = unprepare_all-ok dr (registry-Behaves e) uids [] start long in
      (
        results,
        (
          q,
          ground (
            arith,
            unprepare_all-answers dr uids [] start {results = results} k q,
            lookup-nil {V = Option Error} k,
          ),
        ),
      )
