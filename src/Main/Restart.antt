-- ===== src/Main/Restart.antt =====
-- A driver with its own handlers that starts again after it prepared a claim
-- (cmd/dra-driver/main.go, pkg/driver/driver.go).
use dra_multi_things.Base.{◌≡◌, ◌≢◌, ap, ◌∙◌, Str, str_eq, List, take, lit, true, false, none, some}
use dra_multi_things.Base.Dict.{lookup}
use dra_multi_things.Driver.Claim.{ResourceClaim, parse_config}
use dra_multi_things.Driver.Codec.RoundTrip.{IsPortable}
use dra_multi_things.Driver.Server.{
  prepare_claim, Device, devices, cached_result, prepare_one, unprepare_one,
}
use dra_multi_things.Driver.Server.Alike.{prepare_one-tracked, unprepare_one-Alike}
use dra_multi_things.Driver.Server.Idempotent.{prepare_one-Tracks}
use dra_multi_things.Driver.Server.Restart.{Survives, prepare_one-restarts}
use dra_multi_things.Driver.Store.{can_list, Driver, DriverState, state_path, is_state_file}
use dra_multi_things.Driver.Store.Paths.{NoSeparator}
use dra_multi_things.Driver.Store.Restore.{claim_in}
use dra_multi_things.Driver.Store.Sidecar.{started, started-world}
use dra_multi_things.Handler.{PrepareResult, AllocationInfo, get_kind, device_type_netdev}
use dra_multi_things.Main.{build_handler_registry}
use dra_multi_things.Main.Calls.{Long}
use dra_multi_things.Main.Cycle.{unprepare_one-prepare_one}
use dra_multi_things.Main.Files.{prepare_claim-os}
use dra_multi_things.Main.Persists.{prepare_claim-Restorable}
use dra_multi_things.Main.Repeat.{prepare_claim-Recorded}
use dra_multi_things.Netdev.RoundTrip.{Creator, kind_of}
use dra_multi_things.System.Errors.{ok}
use dra_multi_things.System.Netlink.{Netlink, found, SameLinks, IsLawful, DeletesCleanly}
use dra_multi_things.System.Os.{read_file, writes, reads}

module _ (N : Netlink) {group : N.State → Str → List Str} (L : IsLawful N group)
    (D : DeletesCleanly N) (dr : Driver N) (e : dr.registry ≡ build_handler_registry)
    (rc : ResourceClaim) (d : DriverState N) {ds : List Device} (n : NoSeparator (take 8 rc.uid))
    (t : (r : PrepareResult) → (prepare_claim dr rc d.world).0 ≡ ok r → IsPortable r.allocation)
    (can : can_list d.world.os ≡ true) (q : lookup rc.uid d.allocations ≡ none)
    (h : (prepare_one dr rc d).0 ≡ ok (devices ds))
    (f : d.world.os.refuses writes (state_path dr.driver_name (take 8 rc.uid)) ≡ false)
    (g : d.world.os.refuses reads (state_path dr.driver_name (take 8 rc.uid)) ≡ false)
    (u : (p : Str)
      → p ≢ state_path dr.driver_name (take 8 rc.uid)
      → is_state_file dr.driver_name p ≡ true
      → claim_in (read_file d.world.os p) ≢ rc.uid) where
  -- If a claim that the driver does not track gets devices, then the driver tracks an allocation
  -- for it, and a driver that starts with the world as it is then tracks the same allocation. This
  -- holds with the handlers of the driver, in a lawful kernel that refuses no deletion, if every
  -- text of the allocation that the handler returns is valid UTF-8, the first eight bytes of the
  -- claim UID have neither a slash nor a dot, the system refuses neither to list /etc/cdi nor to
  -- write or read the claim's sidecar file, and no other file that the driver restores from holds
  -- an allocation for this claim before it is prepared.
  pub prepare_one-Survives : (a : AllocationInfo) × Survives dr rc d a
  prepare_one-Survives =
      prepare_one-restarts dr rc d (prepare_claim-os dr rc d.world e) q
        (λ r x. (prepare_claim-Restorable N L D dr e rc d.world r x, t r x)) h n can f g u

  -- If a claim that the driver does not track gets devices, and its configuration is not for the
  -- RoCE handler, then a driver that starts with the world as it is then gives it the same devices,
  -- and changes nothing. This holds with the handlers of the driver, in a lawful kernel that
  -- refuses no deletion, if every text of the allocation that the handler returns is valid UTF-8,
  -- the first eight bytes of the claim UID have neither a slash nor a dot, the system refuses
  -- neither to list /etc/cdi nor to write or read the claim's sidecar file, and no other file that
  -- the driver restores from holds an allocation for this claim before it is prepared.
  pub prepare_one-after_restart :
      (parse_config dr.driver_name (some rc)).typ ≢ lit "combo"
      → let again = started dr (prepare_one dr rc d).1.world in
        prepare_one dr rc again ≡ (ok (devices ds), again)
  prepare_one-after_restart m =
      let (a, (tracked, again_tracked)) = prepare_one-Survives in
      let (b, (kept, same)) =
        prepare_one-Tracks dr rc d (λ r. prepare_claim-Recorded N L D dr rc d.world r e m) h in
      let again = started dr (prepare_one dr rc d).1.world in
      let equal : a ≡ b = cc in
      prepare_one-tracked dr rc again a again_tracked
      ∙ ap (λ x. (ok x, again)) (ap (cached_result dr.driver_name) equal ∙ same)

  -- If a claim that the driver does not track, with a UID of at least eight bytes and a
  -- configuration for a handler that creates a link, gets devices, then a driver that starts with
  -- the world as it is then unprepares it with success, and the kernel shows the link names that it
  -- showed before the claim was prepared. This holds with the handlers of the driver, in a lawful
  -- kernel that refuses no deletion, if every text of the allocation that the handler returns is
  -- valid UTF-8, the first eight bytes of the claim UID have neither a slash nor a dot, the system
  -- refuses neither to list /etc/cdi nor to write or read the claim's sidecar file, and no other
  -- file that the driver restores from holds an allocation for this claim before it is prepared.
  pub unprepare_one-after_restart :
      (c : Creator)
      → Long rc.uid
      → (parse_config dr.driver_name (some rc)).typ ≡ device_type_netdev
      → get_kind (parse_config dr.driver_name (some rc)) ≡ kind_of c
      → let out = unprepare_one dr rc.uid (started dr (prepare_one dr rc d).1.world) in
        (out.0 ≡ ok none) × SameLinks N d.world.net out.1.world.net
  unprepare_one-after_restart c long t k =
      let (a, (tracked, again_tracked)) = prepare_one-Survives in
      let (done, links) = unprepare_one-prepare_one N L D dr e c rc d long q t k h in
      let (x, y) =
        unprepare_one-Alike dr rc.uid a (prepare_one dr rc d).1
          (started dr (prepare_one dr rc d).1.world) tracked again_tracked
          (started-world dr (prepare_one dr rc d).1.world) in
      (x ∙ done, λ m. ap (λ w. found N w.net m) y ∙ links m)
