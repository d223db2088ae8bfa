-- ===== src/Driver/Server/Mirrored.antt =====
-- The sidecar files after a round of the two calls of the kubelet (pkg/driver/driver.go).
use dra_multi_things.Base.{
  ◌≡◌, refl, subst, sym, ap, ◌∙◌, Str, str_eq, take, length, leb, true, false, none, inl, inr,
  Option-cases, arith, if◌then◌else◌, ◌==◌,
}
use dra_multi_things.Base.Dict.{lookup, lookup-erase}
use dra_multi_things.Driver.Claim.{ResourceClaim}
use dra_multi_things.Driver.Codec.RoundTrip.{IsPortable}
use dra_multi_things.Driver.Server.{
  prepare_claim, unprepare_allocation, after_spec, after_prepare, prepare_one, after_unprepare,
  unprepare_one,
}
use dra_multi_things.Driver.Store.{
  Driver, DriverState, spec_path, state_path, create_cdi_spec, write_spec, save_allocation,
  delete_cdi_spec, cdi_dir, cdi_device_id,
}
use dra_multi_things.Driver.Store.Frame.{SameFile, create_cdi_spec-other, create_cdi_spec-refuses}
use dra_multi_things.Driver.Store.Mirror.{Mirrors, Elsewhere, insert-Mirrors, erase-Mirrors}
use dra_multi_things.Driver.Store.Paths.{NoSeparator}
use dra_multi_things.Driver.Store.Sidecar.{create_cdi_spec_rule}
use dra_multi_things.Handler.{PrepareResult, AllocationInfo, Restorable}
use dra_multi_things.System.Errors.{Outcome, ok, err, panic}
use dra_multi_things.System.Netlink.{Netlink}
use dra_multi_things.System.Os.{
  Os, Call, reads, writes, makes, removes, read_file, write_file, mkdir_all, remove,
}
use dra_multi_things.System.Triple.{value_holds}
use dra_multi_things.System.World.{World}

lookup-SameFile :
    (s t : Os) (q : Str)
    → s.refuses reads q ≡ false
    → t.refuses reads q ≡ false
    → SameFile q s t
    → lookup q t.files ≡ lookup q s.files
unfolding read_file
lookup-SameFile s t q a b e = ground arith

remove-refuses : (s : Os) (p : Str) → (remove s p).refuses ≡ s.refuses
unfolding remove
remove-refuses s p = ground arith

lookup-remove :
    (s : Os) (p q : Str)
    → s.refuses removes p ≡ false
    → lookup q (remove s p).files ≡ (if p == q then none else lookup q s.files)
unfolding remove
lookup-remove s p q h = ground (arith, lookup-erase q p s.files)

module _ {N : Netlink} (dr : Driver N) where
  -- Where nothing is refused, the CDI spec of a claim is written.
  create_cdi_spec-ok :
      (uid : Str) (r : PrepareResult) (w : World N)
      → leb 8 (length uid) ≡ true
      → ((c : Call) (p : Str) → w.os.refuses c p ≡ false)
      → (create_cdi_spec dr uid r w).0
        ≡ ok (cdi_device_id dr.driver_name r.allocation.typ r.device_name)
  unfolding create_cdi_spec write_spec save_allocation mkdir_all write_file
  create_cdi_spec-ok uid r w long obeys = ground (
    arith,
    obeys makes cdi_dir,
    obeys writes (spec_path dr.driver_name (take 8 uid)),
    obeys writes (state_path dr.driver_name (take 8 uid)),
  )

  module _ (U : Str → Type 0)
      (long : (x : Str) → U x → (leb 8 (length x) ≡ true) × NoSeparator (take 8 x))
      (apart : (x y : Str) → U x → U y → take 8 x ≡ take 8 y → x ≡ y) where
    abbrev pub Mirrored : DriverState N → Type 0
    Mirrored d = Mirrors dr.driver_name U long apart d.allocations d.world.os

    create_cdi_spec-Elsewhere :
        (uid : Str) (r : PrepareResult) (w : World N)
        → ((c : Call) (p : Str) → w.os.refuses c p ≡ false)
        → Elsewhere dr.driver_name U long apart uid w.os (create_cdi_spec dr uid r w).1.os
    create_cdi_spec-Elsewhere uid r w obeys =
        let same = create_cdi_spec-refuses dr uid r w in
        record {
          refuses = same;
          files = λ q n m.
              lookup-SameFile w.os (create_cdi_spec dr uid r w).1.os q (obeys reads q)
                (ap (λ g. g reads q) same ∙ obeys reads q) (create_cdi_spec-other dr q uid r w n m);
        }

    after_prepare-Mirrored :
        (uid : Str) (o : Outcome PrepareResult) (d : DriverState N)
        → U uid
        → ((r : PrepareResult) → o ≡ ok r → Restorable uid r × IsPortable r.allocation)
        → Mirrored d
        → Mirrored (after_prepare dr uid o d).1
    unfolding after_prepare after_spec
    after_prepare-Mirrored uid (ok r) d u c m =
        let out = create_cdi_spec dr uid r d.world in
        let fine = create_cdi_spec-ok uid r d.world (long uid u).0 m.obeys in
        let away = create_cdi_spec-Elsewhere uid r d.world m.obeys in
        let written = value_holds (create_cdi_spec_rule dr uid r) d.world tt fine in
        let ((claimed, distinct), portable) = c r refl in
        let saved = written.1 (
          ap (λ g. g writes (state_path dr.driver_name (take 8 uid))) away.refuses
          ∙ m.obeys writes (state_path dr.driver_name (take 8 uid))) in
        subst (λ o. Mirrored (after_spec dr uid r o (record d { world = out.1 })).1) (sym fine)
          (insert-Mirrors dr.driver_name U long apart d.allocations d.world.os out.1.os uid
            r.allocation m away (u, (claimed, ((distinct, portable), saved))))
    after_prepare-Mirrored uid (err e) d u c m = m
    after_prepare-Mirrored uid panic d u c m = m

    pub prepare_one-Mirrored :
        (rc : ResourceClaim) (d : DriverState N)
        → U rc.uid
        → (prepare_claim dr rc d.world).1.os ≡ d.world.os
        → ((r : PrepareResult)
            → (prepare_claim dr rc d.world).0 ≡ ok r
            → Restorable rc.uid r × IsPortable r.allocation)
        → Mirrored d
        → Mirrored (prepare_one dr rc d).1
    unfolding prepare_one
    prepare_one-Mirrored rc d u same c m = elim (Option-cases (lookup rc.uid d.allocations)) [
      | inl q ↦
          rw (q, prepare_one)
            (after_prepare-Mirrored rc.uid (prepare_claim dr rc d.world).0
              (record d { world = (prepare_claim dr rc d.world).1 }) u c
              (subst (Mirrors dr.driver_name U long apart d.allocations) (sym same) m))
      | inr (a, q) ↦ rw (q, prepare_one) m
    ]

    -- The world after the files of a claim are removed.
    removed : Str → Os → Os
    removed uid s =
        remove (remove s (spec_path dr.driver_name (take 8 uid)))
          (state_path dr.driver_name (take 8 uid))

    lookup-removed :
        (uid q : Str) (s : Os)
        → ((c : Call) (p : Str) → s.refuses c p ≡ false)
        → lookup q (removed uid s).files ≡ (
            if state_path dr.driver_name (take 8 uid) == q
            then none
            else if spec_path dr.driver_name (take 8 uid) == q
            then none
            else lookup q s.files)
    unfolding removed
    lookup-removed uid q s obeys =
        let spec = spec_path dr.driver_name (take 8 uid) in
        let path = state_path dr.driver_name (take 8 uid) in
        let first = remove s spec in
        lookup-remove first path q
          (ap (λ g. g removes path) (remove-refuses s spec) ∙ obeys removes path)
        ∙ ground (arith, lookup-remove s spec q (obeys removes spec))

    removed-Elsewhere :
        (uid : Str) (s : Os)
        → ((c : Call) (p : Str) → s.refuses c p ≡ false)
        → Elsewhere dr.driver_name U long apart uid s (removed uid s)
    unfolding removed
    removed-Elsewhere uid s obeys = record {
      refuses =
          remove-refuses (remove s (spec_path dr.driver_name (take 8 uid)))
            (state_path dr.driver_name (take 8 uid))
          ∙ remove-refuses s (spec_path dr.driver_name (take 8 uid));
      files = λ q n m. lookup-removed uid q s obeys ∙ ground (arith, n, m);
    }

    after_unprepare-Mirrored :
        (uid : Str) (o : Outcome (Unit {0})) (d : DriverState N)
        → U uid
        → Mirrored d
        → Mirrored (after_unprepare dr uid o d).1
    unfolding after_unprepare delete_cdi_spec removed
    after_unprepare-Mirrored uid (ok _) d u m = rw (long uid u).0 (
        erase-Mirrors dr.driver_name U long apart d.allocations d.world.os (removed uid d.world.os)
          uid m u (removed-Elsewhere uid d.world.os m.obeys)
          (lookup-removed uid (state_path dr.driver_name (take 8 uid)) d.world.os m.obeys
            ∙ ground arith))
    after_unprepare-Mirrored uid (err e) d u m = m
    after_unprepare-Mirrored uid panic d u m = m

    pub unprepare_one-Mirrored :
        (uid : Str) (d : DriverState N)
        → U uid
        → ((a : AllocationInfo) → (unprepare_allocation dr a d.world).1.os ≡ d.world.os)
        → Mirrored d
        → Mirrored (unprepare_one dr uid d).1
    unfolding unprepare_one
    unprepare_one-Mirrored uid d u same m = elim (Option-cases (lookup uid d.allocations)) [
      | inl q ↦ rw (q, unprepare_one) m
      | inr (a, q) ↦
          rw (q, unprepare_one)
            (after_unprepare-Mirrored uid (unprepare_allocation dr a d.world).0
              (record d { world = (unprepare_allocation dr a d.world).1 }) u
              (subst (Mirrors dr.driver_name U long apart d.allocations) (sym (same a)) m))
    ]
