-- ===== src/Main/Cycle.antt =====
-- A claim that is prepared and unprepared by the driver (pkg/driver/driver.go), with the handlers
-- that create links.
use dra_multi_things.Base.{
  ◌≡◌, sym, ap, ◌∙◌, subst, Str, str_eq, leb, length, List, false, none, some, arith,
}
use dra_multi_things.Base.Dict.{lookup, lookup-insert_self}
use dra_multi_things.Driver.Claim.{ResourceClaim, parse_config}
use dra_multi_things.Driver.Server.{
  Device, devices, prepare_claim, unprepare_allocation, after_spec, after_prepare, prepare_one,
  after_unprepare, unprepare_one,
}
use dra_multi_things.Driver.Store.{Driver, DriverState, create_cdi_spec, delete_cdi_spec}
use dra_multi_things.Handler.{PrepareRequest, PrepareResult, get_kind, device_type_netdev}
use dra_multi_things.Main.{build_handler_registry}
use dra_multi_things.Main.Calls.{Long}
use dra_multi_things.Main.Every.{request_of}
use dra_multi_things.Main.Links.{
  Ready, unprepare_allocation-creator, prepare_claim-Post, create_cdi_spec-net,
}
use dra_multi_things.Netdev.RoundTrip.{Creator, kind_of, restores}
use dra_multi_things.Netdev.Undo.{Same}
use dra_multi_things.System.Errors.{Outcome, ok, err, panic}
use dra_multi_things.System.Netlink.{Netlink, found, SameLinks, IsLawful, DeletesCleanly}
use dra_multi_things.System.Triple.{Post}

module _ (N : Netlink) {group : N.State → Str → List Str} (L : IsLawful N group)
    (D : DeletesCleanly N) (dr : Driver N) (e : dr.registry ≡ build_handler_registry)
    (c : Creator) where
  -- Unpreparing the claim succeeds and leaves the links of `s`.
  abbrev Undone : N.State → Str → DriverState N → Type 0
  Undone s uid d =
      ((unprepare_one dr uid d).0 ≡ ok none) × SameLinks N s (unprepare_one dr uid d).1.world.net

  after_unprepare-ok :
      (s : N.State) (uid : Str) (o : Outcome (Unit {0})) (d : DriverState N)
      → Long uid
      → o ≡ ok tt
      → SameLinks N s d.world.net
      → ((after_unprepare dr uid o d).0 ≡ ok none)
        × SameLinks N s (after_unprepare dr uid o d).1.world.net
  unfolding after_unprepare delete_cdi_spec
  after_unprepare-ok s uid (ok _) d long q h = (ground arith, λ n. ground (arith, h n))
  after_unprepare-ok s uid (err x) d long q h = absurd (ground arith)
  after_unprepare-ok s uid panic d long q h = absurd (ground arith)

  unprepare_one-Undone :
      (req : PrepareRequest) (s : N.State) (r : PrepareResult) (d : DriverState N)
      → Long req.claim_uid
      → lookup req.claim_uid d.allocations ≡ some r.allocation
      → Ready N L D dr e c req s r d.world.net
      → Undone s req.claim_uid d
  unfolding unprepare_one
  unprepare_one-Undone req s r d long q p =
      let same = unprepare_allocation-creator N L D dr e c req s r d.world p in
      let undone = restores N L D c s r d.world p in
      rw (q, unprepare_one)
        (after_unprepare-ok s req.claim_uid (unprepare_allocation dr r.allocation d.world).0 _ long
          (ap (λ o. o.0) same ∙ undone.0) (λ n. ap (λ o. found N o.1.net n) same ∙ undone.1 n))

  after_spec-Undone :
      (req : PrepareRequest) (s : N.State) (r : PrepareResult) (o : Outcome Str) (d : DriverState N)
      {ds : List Device}
      → Long req.claim_uid
      → Ready N L D dr e c req s r d.world.net
      → (after_spec dr req.claim_uid r o d).0 ≡ ok (devices ds)
      → Undone s req.claim_uid (after_spec dr req.claim_uid r o d).1
  unfolding after_spec
  after_spec-Undone req s r (ok id) d long p h =
      unprepare_one-Undone req s r _ long
        (lookup-insert_self req.claim_uid r.allocation d.allocations) p
  after_spec-Undone req s r (err x) d long p h = absurd (ground arith)
  after_spec-Undone req s r panic d long p h = absurd (ground arith)

  after_prepare-Undone :
      (req : PrepareRequest) (s : N.State) (X : Type 0) (o : Outcome PrepareResult)
      (d : DriverState N) {ds : List Device}
      → Long req.claim_uid
      → Post (λ r v. Ready N L D dr e c req s r v.net) (Same N group s) X o d.world
      → (after_prepare dr req.claim_uid o d).0 ≡ ok (devices ds)
      → Undone s req.claim_uid (after_prepare dr req.claim_uid o d).1
  unfolding after_prepare
  after_prepare-Undone req s X (ok r) d long p h =
      after_spec-Undone req s r (create_cdi_spec dr req.claim_uid r d.world).0 _ long
        (subst (Ready N L D dr e c req s r)
          (sym (create_cdi_spec-net N L D dr e c req.claim_uid r d.world)) p)
        h
  after_prepare-Undone req s X (err x) d long p h = absurd (ground arith)
  after_prepare-Undone req s X panic d long p h = absurd (ground arith)

  -- If a claim that the driver does not track, with a UID of at least eight bytes and a
  -- configuration for a handler that creates a link, gets devices, then unpreparing it at once
  -- succeeds, and the kernel shows the links that it showed before.
  pub unprepare_one-prepare_one :
      (rc : ResourceClaim) (d : DriverState N) {ds : List Device}
      → Long rc.uid
      → lookup rc.uid d.allocations ≡ none
      → (parse_config dr.driver_name (some rc)).typ ≡ device_type_netdev
      → get_kind (parse_config dr.driver_name (some rc)) ≡ kind_of c
      → (prepare_one dr rc d).0 ≡ ok (devices ds)
      → let out = unprepare_one dr rc.uid (prepare_one dr rc d).1 in
        (out.0 ≡ ok none) × SameLinks N d.world.net out.1.world.net
  unfolding prepare_one
  unprepare_one-prepare_one rc d long q t k h =
      rw (q, prepare_one)
        (after_prepare-Undone (request_of dr rc) d.world.net (leb 8 (length rc.uid) ≡ false)
          (prepare_claim dr rc d.world).0 _ long (prepare_claim-Post N L D dr e c rc d.world t k)
          (rw (q, prepare_one) at h))
