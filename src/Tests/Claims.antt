-- ===== src/Tests/Claims.antt =====
-- Runs of the driver with its own registry in the small kernel.
use dra_multi_things.Base.{
  ◌&&◌, ◌≡◌, refl, Str, str_eq, nat_eq, lit, true, false, List, [], ◌∷◌, Option, none, some, All,
  contains, if◌then◌else◌, ◌==◌, arith,
}
use dra_multi_things.Base.Dict.{Dict, lookup, insert}
use dra_multi_things.Base.Utf8.{valid_after, rune_size}
use dra_multi_things.Combo.{roce_handler}
use dra_multi_things.Driver.Claim.{
  ResourceClaim, parse_config, first_config, default_config, get_allocated_device,
}
use dra_multi_things.Driver.Codec.{decode_allocation, encode_allocation}
use dra_multi_things.Driver.Codec.RoundTrip.{decode_allocation-encode_allocation}
use dra_multi_things.Driver.Server.{
  Device, ClaimResult, devices, prepare_claim, after_spec, after_prepare, prepare_one,
  prepare_resource_claims, unprepare_allocation, after_unprepare, unprepare_one,
  unprepare_resource_claims, fresh_result,
}
use dra_multi_things.Driver.Server.Answers.{is_some, uids_of}
use dra_multi_things.Driver.Server.Forget.{unprepare_one-unprepare_one, unprepare_one-failed}
use dra_multi_things.Driver.Server.Idempotent.{prepare_one-failed}
use dra_multi_things.Driver.Store.{
  cdi_dir, Driver, DriverState, cdi_device_id, create_cdi_spec, write_spec, save_allocation,
}
use dra_multi_things.Handler.{
  DeviceHandler, AllocationInfo, PrepareResult, get_kind, device_type_rdma, device_type_netdev,
  device_type_combo,
}
use dra_multi_things.Handler.Registry.{get, must_get, register, register_kinds}
use dra_multi_things.Handler.Registry.Laws.{get-register}
use dra_multi_things.Main.{build_handler_registry}
use dra_multi_things.Main.Behaviour.{Behaves, build_handler_registry-Behaves}
use dra_multi_things.Main.Calls.{
  Long, prepare_resource_claims-answers, unprepare_resource_claims-answers,
}
use dra_multi_things.Main.Cycle.{unprepare_one-prepare_one}
use dra_multi_things.Main.Links.{prepare_one-rolls_back}
use dra_multi_things.Main.Repeat.{prepare_one-repeat}
use dra_multi_things.Main.Table.{handler_of, get-build_handler_registry}
use dra_multi_things.Netdev.Create.{netdev_result}
use dra_multi_things.Netdev.Dummy.{dummy_handler}
use dra_multi_things.Netdev.Dummy
use dra_multi_things.Netdev.HostDevice.{host_device_handler}
use dra_multi_things.Netdev.Ipoib.{ipoib_handler}
use dra_multi_things.Netdev.Ipvlan.{ipvlan_handler}
use dra_multi_things.Netdev.Macvlan.{macvlan_handler}
use dra_multi_things.Netdev.RoundTrip.{dummy}
use dra_multi_things.Netdev.Sriov.{sriov_vf_handler}
use dra_multi_things.Netdev.Veth.{veth_handler}
use dra_multi_things.Rdma.Uverbs.{uverbs_handler}
use dra_multi_things.System.Errors.{Error, system, errorf, wrapf, ok}
use dra_multi_things.System.Netlink.{SameLinks}
use dra_multi_things.System.Os.{null, mkdir_all, write_file}
use dra_multi_things.System.World.{World}
use dra_multi_things.Tests.Kernel.{kernel, is_lawful, deletes_cleanly}

abbrev pub uid : Str
uid = lit "12345678-aaaa-bbbb-cccc-123456789abc"

abbrev pub dr : Driver (kernel true)
dr = record {
  driver_name = lit "dra.example";
  registry = build_handler_registry;
  spec_json = λ _. null;
}

-- A claim without a configuration of its own: a dummy interface.
abbrev pub claim : ResourceClaim
claim = record {
  uid = uid;
  namespace = lit "ns";
  name = lit "claim";
  config = [];
  allocation = none;
}

abbrev pub state_of : Dict Str (List Str) → Dict Str AllocationInfo → DriverState (kernel true)
state_of links allocations = record {
  allocations = allocations;
  world = record {
    net = record { links = links; namespace = 0 };
    os = record { files = []; dirs = []; symlinks = []; refuses = λ _ _. false };
    tracker = record { pending = []; active = [] };
    cached_mode = none;
  };
}

abbrev pub result : PrepareResult
result =
    netdev_result (lit "dummy") uid (lit "dm12345678") (lit "eth1")
      ((lit "createdInterface", lit "dm12345678") ∷ (lit "containerName", lit "eth1") ∷ [])

-- An allocation that no handler of the registry knows.
abbrev unknown : AllocationInfo
unknown = record { typ = lit "gpu"; kind = []; claim_uid = uid; device_name = []; metadata = [] }

decode_allocation-encode_allocation_example :
    decode_allocation (encode_allocation result.allocation) ≡ some result.allocation
unfolding lookup lit str_eq device_type_netdev valid_after rune_size
decode_allocation-encode_allocation_example =
    decode_allocation-encode_allocation result.allocation
      (refl, (refl, (refl, (refl, ((refl, refl), ((refl, refl), tt)))))) (refl, (refl, tt))

get-build_handler_registry_example :
    get (lit "netdev") (lit "dummy") (build_handler_registry {N = kernel true})
    ≡ handler_of (lit "netdev") (lit "dummy")
get-build_handler_registry_example =
    get-build_handler_registry (kernel true) (lit "netdev") (lit "dummy")

build_handler_registry-Behaves_example : Behaves {N = kernel true} dummy_handler
unfolding lit str_eq nat_eq
build_handler_registry-Behaves_example =
    build_handler_registry-Behaves {N = kernel true} (lit "netdev") (lit "dummy")
      (get-build_handler_registry (kernel true) (lit "netdev") (lit "dummy"))

claim_uids-Long : All Long (uids_of (claim ∷ []))
unfolding lit
claim_uids-Long = (refl, tt)

prepare_resource_claims-answers_example :
    (results : Dict Str ClaimResult) × (((prepare_resource_claims dr
          (claim ∷ [])
          (state_of [] [])).0
        ≡ ok results)
      × (is_some (lookup uid results) ≡ contains (uids_of (claim ∷ [])) uid))
prepare_resource_claims-answers_example =
    prepare_resource_claims-answers dr (claim ∷ []) uid (state_of [] []) refl claim_uids-Long

unprepare_resource_claims-answers_example :
    (results : Dict Str (Option Error)) × (((unprepare_resource_claims dr
          (uid ∷ [])
          (state_of [] [])).0
        ≡ ok results)
      × (is_some (lookup uid results) ≡ contains (uid ∷ []) uid))
unprepare_resource_claims-answers_example =
    unprepare_resource_claims-answers dr (uid ∷ []) uid (state_of [] []) refl claim_uids-Long

unprepare_one-failed_example :
    (unprepare_one dr uid (state_of [] ((uid, unknown) ∷ []))).1.allocations ≡ (uid, unknown) ∷ []
unfolding insert unprepare_one after_unprepare unprepare_allocation lookup lit str_eq get
    build_handler_registry register register_kinds roce_handler uverbs_handler ipoib_handler
    host_device_handler dummy_handler sriov_vf_handler veth_handler ipvlan_handler macvlan_handler
    device_type_netdev device_type_rdma device_type_combo
unprepare_one-failed_example =
    unprepare_one-failed dr uid (state_of [] ((uid, unknown) ∷ []))
      {e = errorf "no handler for type=%s kind=%s during unprepare" (lit "gpu" ∷ [] ∷ [])} refl

unprepare_one-unprepare_one_example :
    let v = (unprepare_one dr uid (state_of [] [])).1 in
    (lookup uid v.allocations ≡ (if uid == uid then none else lookup uid []))
    × (unprepare_one dr uid v ≡ (ok none, v))
unfolding unprepare_one lookup
unprepare_one-unprepare_one_example = unprepare_one-unprepare_one dr uid uid (state_of [] []) refl

abbrev busy : DriverState (kernel true)
busy = state_of ((lit "dm12345678", lit "dm12345678" ∷ []) ∷ []) []

prepare_one-failed_example : (prepare_one dr claim busy).1.allocations ≡ []
unfolding Dummy.validate prepare_one after_prepare after_spec prepare_claim must_get parse_config
    first_config default_config get_kind device_type_netdev device_type_rdma device_type_combo
    get_allocated_device dummy_handler Dummy.prepare lit lookup insert str_eq get
    build_handler_registry register register_kinds roce_handler uverbs_handler ipoib_handler
    host_device_handler sriov_vf_handler veth_handler ipvlan_handler macvlan_handler
prepare_one-failed_example =
    prepare_one-failed dr claim busy
      {e = wrapf "failed to create dummy interface %s: %w" (lit "dm12345678" ∷ [])
        (errorf "no such device" [])}
      refl

abbrev pub answer : List Device
answer =
    record {
      pool_name = lit "default";
      device_name = lit "dm12345678";
      cdi_device_ids = lit "dra.example/netdev=dm12345678" ∷ [];
    }
    ∷ []

abbrev pub after : DriverState (kernel true)
after = (prepare_one dr claim (state_of [] [])).1

prepare_one-repeat_example : prepare_one dr claim after ≡ (ok (devices answer), after)
unfolding Dummy.validate prepare_one after_prepare after_spec prepare_claim must_get parse_config
    first_config default_config get_kind device_type_netdev device_type_rdma device_type_combo
    get_allocated_device dummy_handler Dummy.prepare lit lookup insert str_eq create_cdi_spec
    write_spec save_allocation mkdir_all write_file cdi_device_id fresh_result get
    build_handler_registry register register_kinds roce_handler uverbs_handler ipoib_handler
    host_device_handler sriov_vf_handler veth_handler ipvlan_handler macvlan_handler
prepare_one-repeat_example =
    prepare_one-repeat (kernel true) (is_lawful true) (deletes_cleanly true) dr claim
      (state_of [] []) {ds = answer} refl (λ h. absurd (ground arith)) refl

abbrev dummy_h : DeviceHandler (World (kernel true))
dummy_h = dummy_handler

get-register_example : get (lit "netdev") (lit "dummy") (register dummy_h []) ≡ (
    if (dummy_h.typ == lit "netdev") && contains dummy_h.kinds (lit "dummy")
    then some dummy_h
    else get (lit "netdev") (lit "dummy") [])
get-register_example = get-register dummy_h [] (lit "netdev") (lit "dummy")

-- A system that refuses every call on files.
abbrev refusing : DriverState (kernel true)
refusing = record {
  allocations = [];
  world = record {
    net = record { links = []; namespace = 0 };
    os = record { files = []; dirs = []; symlinks = []; refuses = λ _ _. true };
    tracker = record { pending = []; active = [] };
    cached_mode = none;
  };
}

prepare_one-rolls_back_example :
    SameLinks (kernel true) refusing.world.net (prepare_one dr claim refusing).1.world.net
unfolding Dummy.validate prepare_one after_prepare after_spec prepare_claim must_get parse_config
    first_config default_config get_kind device_type_netdev device_type_rdma device_type_combo
    get_allocated_device dummy_handler Dummy.prepare lit lookup insert str_eq create_cdi_spec
    write_spec save_allocation mkdir_all write_file cdi_device_id fresh_result get
    build_handler_registry register register_kinds roce_handler uverbs_handler ipoib_handler
    host_device_handler sriov_vf_handler veth_handler ipvlan_handler macvlan_handler
    unprepare_allocation Dummy.unprepare
prepare_one-rolls_back_example =
    prepare_one-rolls_back (kernel true) (is_lawful true) (deletes_cleanly true) dr refl dummy claim
      refusing {f = wrapf "failed to create CDI directory: %w" [] (system cdi_dir)} refl refl refl

unprepare_one-prepare_one_example :
    ((unprepare_one dr uid after).0 ≡ ok none)
    × SameLinks (kernel true) (state_of [] []).world.net (unprepare_one dr uid after).1.world.net
unfolding Dummy.validate prepare_one after_prepare after_spec prepare_claim must_get parse_config
    first_config default_config get_kind device_type_netdev device_type_rdma device_type_combo
    get_allocated_device dummy_handler Dummy.prepare lit lookup insert str_eq create_cdi_spec
    write_spec save_allocation mkdir_all write_file cdi_device_id fresh_result get
    build_handler_registry register register_kinds roce_handler uverbs_handler ipoib_handler
    host_device_handler sriov_vf_handler veth_handler ipvlan_handler macvlan_handler
unprepare_one-prepare_one_example =
    unprepare_one-prepare_one (kernel true) (is_lawful true) (deletes_cleanly true) dr refl dummy
      claim (state_of [] []) {ds = answer} refl refl refl refl refl
