-- ===== src/Tests/Restored.antt =====
-- A driver that starts again beside the files of a claim (pkg/driver/driver.go).
use dra_multi_things.Base.{
  take, ◌≢◌, ◌∷◌, subst, sym, length, leb, ◌∙◌, ◌≡◌, refl, Str, str_eq, nat_eq, lit, true, [], none,
  arith,
}
use dra_multi_things.Base.Dict.{lookup-nil, lookup, insert}
use dra_multi_things.Base.Utf8.{valid_after, rune_size}
use dra_multi_things.Combo.{roce_handler}
use dra_multi_things.Driver.Claim.{parse_config, first_config, default_config, get_allocated_device}
use dra_multi_things.Driver.Codec.RoundTrip.{IsPortable}
use dra_multi_things.Driver.Server.{
  devices, prepare_claim, after_spec, after_prepare, prepare_one, unprepare_one, fresh_result,
}
use dra_multi_things.Driver.Server.History.{serve}
use dra_multi_things.Driver.Server.Prepared.{prepare, unprepare}
use dra_multi_things.Driver.Server.Restart.{Survives}
use dra_multi_things.Driver.Store.{
  state_path, is_state_file, new, DriverState, cdi_device_id, create_cdi_spec, write_spec,
  save_allocation, restore_allocations, can_list,
}
use dra_multi_things.Driver.Store.Paths.{NoSeparator}
use dra_multi_things.Driver.Store.Restore.{claim_in}
use dra_multi_things.Driver.Store.Sidecar.{started}
use dra_multi_things.Handler.{
  AllocationInfo, get_kind, device_type_rdma, device_type_netdev, device_type_combo, PrepareResult,
}
use dra_multi_things.Handler.Registry.{get, must_get, register, register_kinds}
use dra_multi_things.Main.{build_handler_registry}
use dra_multi_things.Main.Life.{start, served, restarted, Life-restarts, Admits}
use dra_multi_things.Main.Restart.{
  prepare_one-Survives, prepare_one-after_restart, unprepare_one-after_restart,
}
use dra_multi_things.Netdev.Dummy.{dummy_handler}
use dra_multi_things.Netdev.Dummy
use dra_multi_things.Netdev.HostDevice.{host_device_handler}
use dra_multi_things.Netdev.Ipoib.{ipoib_handler}
use dra_multi_things.Netdev.Ipvlan.{ipvlan_handler}
use dra_multi_things.Netdev.Macvlan.{macvlan_handler}
use dra_multi_things.Netdev.RoundTrip.{dummy}
use dra_multi_things.Netdev.Sriov.{sriov_vf_handler}
use dra_multi_things.Netdev.Veth.{veth_handler}
use dra_multi_things.Rdma.Uverbs.{uverbs_handler}
use dra_multi_things.System.Errors.{ok}
use dra_multi_things.System.Netlink.{SameLinks}
use dra_multi_things.System.Os.{Content, read_file, mkdir_all, write_file}
use dra_multi_things.Tests.Claims.{uid, result, dr, claim, state_of, answer, after}
use dra_multi_things.Tests.Kernel.{kernel, is_lawful, deletes_cleanly}

gets_devices : (prepare_one dr claim (state_of [] [])).0 ≡ ok (devices answer)
unfolding Dummy.validate prepare_one after_prepare after_spec prepare_claim must_get parse_config
    first_config default_config get_kind device_type_netdev device_type_rdma device_type_combo
    get_allocated_device dummy_handler Dummy.prepare lit lookup insert str_eq create_cdi_spec
    write_spec save_allocation mkdir_all write_file cdi_device_id fresh_result get
    build_handler_registry register register_kinds roce_handler uverbs_handler ipoib_handler
    host_device_handler sriov_vf_handler veth_handler ipvlan_handler macvlan_handler
gets_devices = refl

result-IsPortable : IsPortable result.allocation
unfolding lit valid_after rune_size device_type_netdev
result-IsPortable = (refl, (refl, (refl, (refl, ((refl, refl), ((refl, refl), tt))))))

prepares : (prepare_claim dr claim (state_of [] []).world).0 ≡ ok result
unfolding Dummy.validate prepare_claim must_get parse_config first_config default_config get_kind
    device_type_netdev device_type_rdma device_type_combo get_allocated_device dummy_handler
    Dummy.prepare lit lookup insert str_eq get build_handler_registry register register_kinds
    roce_handler uverbs_handler ipoib_handler host_device_handler sriov_vf_handler veth_handler
    ipvlan_handler macvlan_handler
prepares = refl

portable :
    (r : PrepareResult)
    → (prepare_claim dr claim (state_of [] []).world).0 ≡ ok r
    → IsPortable r.allocation
portable r h =
    let answers : ok result ≡ ok r = sym prepares ∙ h in
    let same : result ≡ r = cc in subst (λ x. IsPortable x.allocation) same result-IsPortable

uid-NoSeparator : NoSeparator (take 8 uid)
unfolding lit
uid-NoSeparator = ground arith

uid_nonempty : uid ≢ []
unfolding lit
uid_nonempty = ground arith

-- The system has no files before.
no_file :
    (p : Str)
    → p ≢ state_path (lit "dra.example") (take 8 uid)
    → is_state_file (lit "dra.example") p ≡ true
    → claim_in (read_file (state_of [] []).world.os p) ≢ uid
unfolding read_file
no_file p n _ = ground (arith, uid_nonempty, lookup-nil {V = Content} p)

prepare_one-Survives_example : (a : AllocationInfo) × Survives dr claim (state_of [] []) a
unfolding lookup can_list
prepare_one-Survives_example =
    prepare_one-Survives (kernel true) (is_lawful true) (deletes_cleanly true) dr refl claim
      (state_of [] []) {ds = answer} uid-NoSeparator portable refl refl gets_devices refl refl
      no_file

prepare_one-after_restart_example :
    prepare_one dr claim (started dr after.world) ≡ (ok (devices answer), started dr after.world)
unfolding lookup parse_config first_config default_config lit device_type_netdev can_list
prepare_one-after_restart_example =
    prepare_one-after_restart (kernel true) (is_lawful true) (deletes_cleanly true) dr refl claim
      (state_of [] []) {ds = answer} uid-NoSeparator portable refl refl gets_devices refl refl
      no_file (λ h. absurd (ground arith))

unprepare_one-after_restart_example :
    ((unprepare_one dr uid (started dr after.world)).0 ≡ ok none)
    × SameLinks
        (kernel true)
        (state_of [] []).world.net
        (unprepare_one dr uid (started dr after.world)).1.world.net
unfolding lookup lit parse_config first_config default_config get_kind device_type_netdev
    device_type_rdma device_type_combo str_eq nat_eq can_list
unprepare_one-after_restart_example =
    unprepare_one-after_restart (kernel true) (is_lawful true) (deletes_cleanly true) dr refl claim
      (state_of [] []) {ds = answer} uid-NoSeparator portable refl refl gets_devices refl refl
      no_file dummy refl refl refl

-- The claims of the life below: one.
abbrev Sole : Str → Type 0
Sole x = x ≡ uid

uid_long : leb 8 (length uid) ≡ true
unfolding lit
uid_long = refl

Sole-Long : (x : Str) → Sole x → (leb 8 (length x) ≡ true) × NoSeparator (take 8 x)
Sole-Long x e =
    subst (λ y. (leb 8 (length y) ≡ true) × NoSeparator (take 8 y)) (sym e)
      (uid_long, uid-NoSeparator)

-- The claim is prepared, the process starts again, and the claim is unprepared.
abbrev lived : DriverState (kernel true)
lived =
    (serve dr (unprepare (uid ∷ []))
      (started dr (serve dr (prepare (claim ∷ [])) (new (state_of [] []).world)).1.world)).1

admitted : Admits dr Sole (prepare (claim ∷ [])) (new (state_of [] []).world)
unfolding restore_allocations new
admitted = (refl, (portable, tt))

Life-restarts_example :
    lookup uid (started dr lived.world).allocations ≡ lookup uid lived.allocations
Life-restarts_example =
    Life-restarts (kernel true) (is_lawful true) (deletes_cleanly true) dr refl Sole Sole-Long
      (λ x y u v e. u ∙ sym v) (state_of [] []).world lived (λ c p. refl)
      (λ p i. lookup-nil {V = Content} p)
      (served (unprepare (uid ∷ [])) (refl, tt)
        (restarted (served (prepare (claim ∷ [])) admitted start)))
      uid
