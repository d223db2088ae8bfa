-- ===== src/Main/Links.antt =====
-- The links of the kernel when a round of `PrepareResourceClaims` fails (pkg/driver/driver.go), with
-- the handlers of the driver that create links.
use dra_multi_things.Base.{
  leb, length, ◌≡◌, refl, sym, ap, ◌∙◌, subst, Str, str_eq, nat_eq, lit, List, false, some, inl,
  inr, arith, Option-cases,
}
use dra_multi_things.Base.Dict.{lookup}
use dra_multi_things.Driver.Claim.{ResourceClaim, parse_config}
use dra_multi_things.Driver.Server.{
  failed, fresh_result, cached_result, result_from_alloc, prepare_claim, unprepare_allocation,
  after_spec, after_prepare, prepare_one,
}
use dra_multi_things.Driver.Store.{
  Driver, DriverState, create_cdi_spec, write_spec, save_allocation,
}
use dra_multi_things.Handler.{PrepareRequest, PrepareResult, get_kind, device_type_netdev}
use dra_multi_things.Handler.Registry.{get, must_get}
use dra_multi_things.Main.{build_handler_registry}
use dra_multi_things.Main.Every.{request_of}
use dra_multi_things.Main.Table.{get-build_handler_registry}
use dra_multi_things.Netdev.Rollback.{Prepared}
use dra_multi_things.Netdev.RoundTrip.{
  Creator, dummy, macvlan, ipvlan, veth, ipoib, handler, kind_of, key_of, names_of, prepare_rule,
  restores,
}
use dra_multi_things.Netdev.Undo.{Same}
use dra_multi_things.System.Errors.{Error, Outcome, ok, err, panic}
use dra_multi_things.System.Netlink.{Netlink, found, SameLinks, IsLawful, DeletesCleanly}
use dra_multi_things.System.Triple.{Post}
use dra_multi_things.System.World.{World}

-- The registry finds a creator by its kind.
get-creator :
    (N : Netlink) (c : Creator)
    → get device_type_netdev (kind_of c) (build_handler_registry {N = N}) ≡ some (handler c)
unfolding device_type_netdev lit str_eq nat_eq
get-creator N dummy = get-build_handler_registry N (lit "netdev") (lit "dummy")
get-creator N macvlan = get-build_handler_registry N (lit "netdev") (lit "macvlan")
get-creator N ipvlan = get-build_handler_registry N (lit "netdev") (lit "ipvlan")
get-creator N veth = get-build_handler_registry N (lit "netdev") (lit "veth")
get-creator N ipoib = get-build_handler_registry N (lit "netdev") (lit "ipoib")

module _ (N : Netlink) {group : N.State → Str → List Str} (L : IsLawful N group)
    (D : DeletesCleanly N) (dr : Driver N) (e : dr.registry ≡ build_handler_registry)
    (c : Creator) where
  pub create_cdi_spec-net :
      (uid : Str) (r : PrepareResult) (w : World N) → (create_cdi_spec dr uid r w).1.net ≡ w.net
  unfolding create_cdi_spec write_spec save_allocation
  create_cdi_spec-net uid r w = ground arith

  abbrev pub Ready : PrepareRequest → N.State → PrepareResult → N.State → Type 0
  Ready req s r t = Prepared N group (kind_of c) (key_of c) (names_of c req.claim_uid) req s r t

  pub unprepare_allocation-creator :
      (req : PrepareRequest) (s : N.State) (r : PrepareResult) (v : World N)
      → Ready req s r v.net
      → unprepare_allocation dr r.allocation v
        ≡ (handler c).unprepare (record { claim_uid = req.claim_uid; allocation = r.allocation }) v
  unfolding unprepare_allocation
  unprepare_allocation-creator req s r v p =
      let found : get r.allocation.typ r.allocation.kind dr.registry ≡ some (handler c) =
        rw (p.typed, p.kinded, e) (get-creator N c) in
      rw (found, unprepare_allocation, p.restorable.0) refl

  after_spec-Same :
      (req : PrepareRequest) (s : N.State) (r : PrepareResult) (o : Outcome Str) (d : DriverState N)
      {f : Error}
      → Ready req s r d.world.net
      → (after_spec dr req.claim_uid r o d).0 ≡ ok (failed f)
      → SameLinks N s (after_spec dr req.claim_uid r o d).1.world.net
  unfolding after_spec fresh_result
  after_spec-Same req s r (ok id) d p h = absurd (ground arith)
  after_spec-Same req s r (err x) d p h = λ n.
      ap (λ o. found N o.1.net n) (unprepare_allocation-creator req s r d.world p)
      ∙ (restores N L D c s r d.world p).1 n
  after_spec-Same req s r panic d p h = absurd (ground arith)

  after_prepare-Same :
      (req : PrepareRequest) (s : N.State) (X : Type 0) (o : Outcome PrepareResult)
      (d : DriverState N) {f : Error}
      → Post (λ r v. Ready req s r v.net) (Same N group s) X o d.world
      → (after_prepare dr req.claim_uid o d).0 ≡ ok (failed f)
      → SameLinks N s (after_prepare dr req.claim_uid o d).1.world.net
  unfolding after_prepare
  after_prepare-Same req s X (ok r) d p h =
      after_spec-Same req s r (create_cdi_spec dr req.claim_uid r d.world).0 _
        (subst (Ready req s r) (sym (create_cdi_spec-net req.claim_uid r d.world)) p) h
  after_prepare-Same req s X (err x) d p h = p
  after_prepare-Same req s X panic d p h = absurd (ground arith)

  pub prepare_claim-Post :
      (rc : ResourceClaim) (w : World N)
      → (parse_config dr.driver_name (some rc)).typ ≡ device_type_netdev
      → get_kind (parse_config dr.driver_name (some rc)) ≡ kind_of c
      → Post
          (λ r v. Ready (request_of dr rc) w.net r v.net)
          (Same N group w.net)
          (leb 8 (length rc.uid) ≡ false)
          (prepare_claim dr rc w).0
          (prepare_claim dr rc w).1
  unfolding prepare_claim must_get
  prepare_claim-Post rc w t k =
      let cfg = parse_config dr.driver_name (some rc) in
      let found : get cfg.typ (get_kind cfg) dr.registry ≡ some (handler c) =
        rw (k, t, e) (get-creator N c) in
      elim (Option-cases ((handler {N = N} c).validate cfg)) [
        | inl v ↦
            rw (found, v, prepare_claim, must_get)
              ((prepare_rule N L D c w.net (request_of dr rc)).holds w (λ n. refl))
        | inr (x, v) ↦ rw (found, v, prepare_claim, must_get) (λ n. refl)
      ]

  -- If preparing a claim fails, in the handler or at the CDI spec, and its configuration is for a
  -- handler that creates a link, the kernel shows the links that it showed before.
  pub prepare_one-rolls_back :
      (rc : ResourceClaim) (d : DriverState N) {f : Error}
      → (parse_config dr.driver_name (some rc)).typ ≡ device_type_netdev
      → get_kind (parse_config dr.driver_name (some rc)) ≡ kind_of c
      → (prepare_one dr rc d).0 ≡ ok (failed f)
      → SameLinks N d.world.net (prepare_one dr rc d).1.world.net
  unfolding prepare_one cached_result result_from_alloc
  prepare_one-rolls_back rc d t k h = elim (Option-cases (lookup rc.uid d.allocations)) [
    | inl q ↦
        rw (q, prepare_one)
          (after_prepare-Same (request_of dr rc) d.world.net (leb 8 (length rc.uid) ≡ false)
            (prepare_claim dr rc d.world).0 _ (prepare_claim-Post rc d.world t k)
            (rw (q, prepare_one) at h))
    | inr (a, q) ↦ rw (q, prepare_one) (λ n. refl)
  ]
