-- ===== src/Driver/Server/Restart.antt =====
-- A driver that starts again after it prepared a claim (pkg/driver/driver.go).
use dra_multi_things.Base.{
  ◌≡◌, ◌≢◌, refl, subst, Str, str_eq, List, take, true, false, some, none, arith,
}
use dra_multi_things.Base.Dict.{NodupKeys, lookup, lookup-insert_self}
use dra_multi_things.Driver.Claim.{ResourceClaim}
use dra_multi_things.Driver.Codec.RoundTrip.{IsPortable}
use dra_multi_things.Driver.Server.{
  Device, devices, prepare_claim, after_spec, after_prepare, prepare_one,
}
use dra_multi_things.Driver.Store.{
  can_list, new, Driver, DriverState, create_cdi_spec, state_path, is_state_file,
}
use dra_multi_things.Driver.Store.Paths.{NoSeparator, NoSeparator-NoSlash, spec_path-not_state}
use dra_multi_things.Driver.Store.Restore.{claim_in}
use dra_multi_things.Driver.Store.Sidecar.{
  started, Written, create_cdi_spec_rule, restores, Framed, create_cdi_spec-Framed,
}
use dra_multi_things.Handler.{PrepareResult, AllocationInfo, Restorable}
use dra_multi_things.System.Errors.{Outcome, ok, err, panic}
use dra_multi_things.System.Netlink.{Netlink}
use dra_multi_things.System.Os.{Os, writes, reads, read_file}
use dra_multi_things.System.Triple.{value_holds}

can_list-refuses : (s t : Os) → t.refuses ≡ s.refuses → can_list s ≡ true → can_list t ≡ true
unfolding can_list
can_list-refuses s t e h = rw e h

module _ {N : Netlink} (dr : Driver N) (uid : Str) where
  -- What the round leaves if the claim gets devices.
  record Kept (s : Os) (d : DriverState N) : Type 0 where
    allocation : AllocationInfo
    tracked : lookup uid d.allocations ≡ some allocation
    claimed : allocation.claim_uid ≡ uid
    distinct : NodupKeys allocation.metadata × IsPortable allocation
    written : Written dr uid allocation d.world
    framed : Framed dr uid s d.world.os

  after_spec-Kept :
      (s : Os) (r : PrepareResult) (o : Outcome Str) (d : DriverState N) {ds : List Device}
      → Restorable uid r × IsPortable r.allocation
      → Framed dr uid s d.world.os
      → ((id : Str) → o ≡ ok id → Written dr uid r.allocation d.world)
      → (after_spec dr uid r o d).0 ≡ ok (devices ds)
      → Kept s (after_spec dr uid r o d).1
  unfolding after_spec
  after_spec-Kept s r (ok id) d ((c, k), t) m g h = record {
    allocation = r.allocation;
    tracked = lookup-insert_self uid r.allocation d.allocations;
    claimed = c;
    distinct = (k, t);
    written = g id refl;
    framed = m;
  }
  after_spec-Kept s r (err e) d c m g h = absurd (ground arith)
  after_spec-Kept s r panic d c m g h = absurd (ground arith)

  after_prepare-Kept :
      (o : Outcome PrepareResult) (d : DriverState N) {ds : List Device}
      → ((r : PrepareResult) → o ≡ ok r → Restorable uid r × IsPortable r.allocation)
      → (after_prepare dr uid o d).0 ≡ ok (devices ds)
      → Kept d.world.os (after_prepare dr uid o d).1
  unfolding after_prepare
  after_prepare-Kept (ok r) d c h =
      after_spec-Kept d.world.os r (create_cdi_spec dr uid r d.world).0 _ (c r refl)
        (create_cdi_spec-Framed dr uid r d.world)
        (λ id q. value_holds (create_cdi_spec_rule dr uid r) d.world tt q) h
  after_prepare-Kept (err e) d c h = absurd (ground arith)
  after_prepare-Kept panic d c h = absurd (ground arith)

module _ {N : Netlink} (dr : Driver N) (rc : ResourceClaim) (d : DriverState N) where
  -- What the driver tracks for the claim after a round, and what it does when it starts again then.
  abbrev pub Survives : AllocationInfo → Type 0
  Survives a =
      (lookup rc.uid (prepare_one dr rc d).1.allocations ≡ some a)
      × (lookup rc.uid (started dr (prepare_one dr rc d).1.world).allocations ≡ some a)

  module _ (same : (prepare_claim dr rc d.world).1.os ≡ d.world.os) {ds : List Device}
      (q : lookup rc.uid d.allocations ≡ none)
      (c : (r : PrepareResult)
        → (prepare_claim dr rc d.world).0 ≡ ok r
        → Restorable rc.uid r × IsPortable r.allocation)
      (h : (prepare_one dr rc d).0 ≡ ok (devices ds)) where
    prepare_one-Kept : Kept dr rc.uid d.world.os (prepare_one dr rc d).1
    unfolding prepare_one
    prepare_one-Kept =
        rw (q, prepare_one)
          (subst
            (λ s.
              Kept dr rc.uid s
                (after_prepare dr rc.uid (prepare_claim dr rc d.world).0
                  (record d { world = (prepare_claim dr rc d.world).1 })).1)
            same
            (after_prepare-Kept dr rc.uid (prepare_claim dr rc d.world).0
              (record d { world = (prepare_claim dr rc d.world).1 }) c (rw (q, prepare_one) at h)))

    pub prepare_one-restarts :
        NoSeparator (take 8 rc.uid)
        → can_list d.world.os ≡ true
        → d.world.os.refuses writes (state_path dr.driver_name (take 8 rc.uid)) ≡ false
        → d.world.os.refuses reads (state_path dr.driver_name (take 8 rc.uid)) ≡ false
        → ((p : Str)
            → p ≢ state_path dr.driver_name (take 8 rc.uid)
            → is_state_file dr.driver_name p ≡ true
            → claim_in (read_file d.world.os p) ≢ rc.uid)
        → (a : AllocationInfo) × Survives a
    unfolding new
    prepare_one-restarts n can f g u =
        let k = prepare_one-Kept in
        let spec = spec_path-not_state dr.driver_name (take 8 rc.uid) n in
        (
          k.allocation,
          (
            k.tracked,
            restores dr rc.uid k.allocation (new (prepare_one dr rc d).1.world) k.claimed k.distinct
                k.written
                (can_list-refuses d.world.os (prepare_one dr rc d).1.world.os k.framed.refuses can)
                (NoSeparator-NoSlash (take 8 rc.uid) n) (rw k.framed.refuses f)
                (rw k.framed.refuses g)
                (λ p ne m. rw (k.framed.others p (λ e. absurd cc) ne) (u p ne m)),
          ),
        )
