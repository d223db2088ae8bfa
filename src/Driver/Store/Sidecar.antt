-- ===== src/Driver/Store/Sidecar.antt =====
-- The sidecar file of a claim, after it is saved and for a driver that starts (pkg/driver/driver.go).
use dra_multi_things.Base.{
  ◌≡◌, ◌≢◌, refl, subst, Str, str_eq, take, length, leb, true, false, [], some, inl, inr,
  Bool-cases, arith,
}
use dra_multi_things.Base.Dict.{NodupKeys, lookup, lookup-insert_self}
use dra_multi_things.Driver.Codec.{encode_allocation}
use dra_multi_things.Driver.Codec.RoundTrip.{IsPortable, decode_allocation-encode_allocation}
use dra_multi_things.Driver.Store.{
  can_list, Driver, DriverState, new, create_cdi_spec, logged, file_step, cdi_dir, write_spec,
  save_allocation, state_path, spec_path, is_state_file, restore_allocations,
}
use dra_multi_things.Driver.Store.Frame.{SameFile, create_cdi_spec-other, create_cdi_spec-refuses}
use dra_multi_things.Driver.Store.Paths.{NoSlash, state_path-IsState}
use dra_multi_things.Driver.Store.Restore.{claim_in, restore_allocations-restores}
use dra_multi_things.Handler.{PrepareResult, AllocationInfo}
use dra_multi_things.System.Errors.{Outcome, ok, err, panic}
use dra_multi_things.System.Monad.{wrap, slice_to}
use dra_multi_things.System.Netlink.{Netlink}
use dra_multi_things.System.Os.{Os, writes, reads, read_file, write_file, mkdir_all}
use dra_multi_things.System.Triple.{Triple, Post, bind, any_rule}
use dra_multi_things.System.World.{World}

-- The driver that starts beside what another one left.
abbrev pub started : {N : Netlink} → Driver N → World N → DriverState N
started dr w = restore_allocations dr.driver_name (new w)

pub started-world : {N : Netlink} (dr : Driver N) (w : World N) → (started dr w).world ≡ w
unfolding restore_allocations new
started-world dr w = refl

module _ {N : Netlink} (dr : Driver N) (uid : Str) where
  -- The file with the allocation of the claim.
  abbrev pub path : Str
  path = state_path dr.driver_name (take 8 uid)

  save_allocation-writes :
      (a : AllocationInfo) (w : World N)
      → leb 8 (length uid) ≡ true
      → (save_allocation dr.driver_name uid a w).1.os.refuses writes path ≡ false
      → lookup path (save_allocation dr.driver_name uid a w).1.os.files ≡ some (encode_allocation a)
  unfolding save_allocation write_file
  save_allocation-writes a w long f =
      ground (arith, lookup-insert_self path (encode_allocation a) w.os.files)

  abbrev pub Written : AllocationInfo → World N → Type 0
  Written a w =
      (leb 8 (length uid) ≡ true)
      × (w.os.refuses writes path ≡ false → lookup path w.os.files ≡ some (encode_allocation a))

  logged-Written :
      (a : AllocationInfo) (id : Str) (r : Outcome (Unit {0})) (w : World N)
      → Written a w
      → Post (λ _. Written a) (λ _. Unit) Unit (logged id r) w
  logged-Written a id (ok _) w p = p
  logged-Written a id (err e) w p = p
  logged-Written a id panic w p = tt

  saved-Written :
      (a : AllocationInfo) (id : Str) (w : World N)
      → Post
          (λ _. Written a)
          (λ _. Unit)
          Unit
          (logged id (save_allocation dr.driver_name uid a w).0)
          (save_allocation dr.driver_name uid a w).1
  unfolding save_allocation
  saved-Written a id w = elim (Bool-cases (leb 8 (length uid))) [
    | inl long ↦ logged-Written a id _ _ (long, save_allocation-writes a w long)
    | inr short ↦ rw (short, save_allocation) tt
  ]

  pub create_cdi_spec_rule :
      (r : PrepareResult)
      → Triple (λ w. Unit) (create_cdi_spec dr uid r) (λ _. Written r.allocation) (λ w. Unit) Unit
  unfolding create_cdi_spec
  create_cdi_spec_rule r =
      bind
        (any_rule (
          wrap "failed to create CDI directory: %w" []
            (file_step (λ os. (mkdir_all os cdi_dir, os)))))
        λ _. bind (any_rule (slice_to 8 uid)) λ uid8.
          bind (any_rule (write_spec dr uid8 r))
            λ _. record { holds = λ w p. saved-Written r.allocation _ w }

  not_empty : leb 8 (length uid) ≡ true → uid ≢ []
  not_empty long e = absurd (ground arith)

  read_file-path :
      (a : AllocationInfo) (os : Os)
      → os.refuses reads path ≡ false
      → lookup path os.files ≡ some (encode_allocation a)
      → read_file os path ≡ inr (encode_allocation a)
  unfolding read_file
  read_file-path a os q l = ground arith

  -- The file of the claim is there, and no other one for it.
  pub restores :
      (a : AllocationInfo) (d : DriverState N)
      → a.claim_uid ≡ uid
      → NodupKeys a.metadata × IsPortable a
      → Written a d.world
      → can_list d.world.os ≡ true
      → NoSlash (take 8 uid)
      → d.world.os.refuses writes path ≡ false
      → d.world.os.refuses reads path ≡ false
      → ((q : Str)
          → q ≢ path
          → is_state_file dr.driver_name q ≡ true
          → claim_in (read_file d.world.os q) ≢ uid)
      → lookup uid (restore_allocations dr.driver_name d).allocations ≡ some a
  restores a d c (k, t) (long, l) can n f q u =
      subst (λ x. lookup x (restore_allocations dr.driver_name d).allocations ≡ some a) c
        (restore_allocations-restores dr.driver_name d path (encode_allocation a) a can
          (state_path-IsState dr.driver_name (take 8 uid) n) (read_file-path a d.world.os q (l f))
          (decode_allocation-encode_allocation a t k) (rw c (not_empty long)) (rw c u))

  -- All other files that the driver restores from read as before.
  pub record Framed (s t : Os) : Type 0 where
    pub refuses : t.refuses ≡ s.refuses
    pub others : (q : Str) → q ≢ spec_path dr.driver_name (take 8 uid) → q ≢ path → SameFile q s t

  pub create_cdi_spec-Framed :
      (r : PrepareResult) (w : World N) → Framed w.os (create_cdi_spec dr uid r w).1.os
  create_cdi_spec-Framed r w = record {
    refuses = create_cdi_spec-refuses dr uid r w;
    others = λ q. create_cdi_spec-other dr q uid r w;
  }
