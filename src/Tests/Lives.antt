-- ===== src/Tests/Lives.antt =====
-- A life of the driver with its own registry in the small kernel: a claim is prepared, the files
-- change, and the claim is released (pkg/driver/driver.go).
use dra_multi_things.Base.{◌≡◌, refl, Str, str_eq, nat_eq, lit, true, false, [], ◌∷◌, none}
use dra_multi_things.Base.Dict.{lookup, insert}
use dra_multi_things.Combo.{roce_handler}
use dra_multi_things.Driver.Claim.{
  ResourceClaim, parse_config, first_config, default_config, get_allocated_device,
}
use dra_multi_things.Driver.Server.{
  devices, prepare_claim, after_spec, after_prepare, prepare_one, prepare_all, fresh_result,
  prepare_resource_claims, unprepare_allocation, after_unprepare, unprepare_one, unprepare_all,
  unprepare_resource_claims,
}
use dra_multi_things.Driver.Server.History.{
  serve, event_of, History, start, answered, elsewhere, History-replay,
}
use dra_multi_things.Driver.Server.Prepared.{
  Answers, prepared, released, replay, AllFair, prepare, unprepare,
}
use dra_multi_things.Driver.Server.Refinement.{tracked}
use dra_multi_things.Driver.Store.{
  Driver, DriverState, cdi_device_id, create_cdi_spec, write_spec, save_allocation, delete_cdi_spec,
  restore_allocations, restore_files,
}
use dra_multi_things.Handler.{get_kind, device_type_rdma, device_type_netdev, device_type_combo}
use dra_multi_things.Handler.Registry.{get, must_get, register, register_kinds}
use dra_multi_things.Main.{build_handler_registry}
use dra_multi_things.Netdev.Dummy.{dummy_handler}
use dra_multi_things.Netdev.Dummy
use dra_multi_things.Netdev.HostDevice.{host_device_handler}
use dra_multi_things.Netdev.Ipoib.{ipoib_handler}
use dra_multi_things.Netdev.Ipvlan.{ipvlan_handler}
use dra_multi_things.Netdev.Macvlan.{macvlan_handler}
use dra_multi_things.Netdev.Sriov.{sriov_vf_handler}
use dra_multi_things.Netdev.Veth.{veth_handler}
use dra_multi_things.Rdma.Uverbs.{uverbs_handler}
use dra_multi_things.System.Errors.{ok}
use dra_multi_things.System.Os.{Os, null, mkdir_all, write_file}
use dra_multi_things.System.World.{World}
use dra_multi_things.Tests.Kernel.{kernel}

abbrev uid : Str
uid = lit "12345678-aaaa-bbbb-cccc-123456789abc"

abbrev dr : Driver (kernel true)
dr = record {
  driver_name = lit "dra.example";
  registry = build_handler_registry;
  spec_json = λ _. null;
}

abbrev claim : ResourceClaim
claim = record {
  uid = uid;
  namespace = lit "ns";
  name = lit "claim";
  config = [];
  allocation = none;
}

abbrev no_files : Os
no_files = record { files = []; dirs = []; symlinks = []; refuses = λ _ _. false }

abbrev empty_world : World (kernel true)
empty_world = record {
  net = record { links = []; namespace = 0 };
  os = no_files;
  tracker = record { pending = []; active = [] };
  cached_mode = none;
}

abbrev first : DriverState (kernel true)
first = record { allocations = []; world = empty_world }

abbrev answer : Answers
answer = prepared (
    (
      uid,
      devices (
          record {
            pool_name = lit "default";
            device_name = lit "dm12345678";
            cdi_device_ids = lit "dra.example/netdev=dm12345678" ∷ [];
          }
          ∷ []),
    )
    ∷ [])

abbrev second : DriverState (kernel true)
second = (serve dr (prepare (claim ∷ [])) first).1

prepared_answer : (serve dr (prepare (claim ∷ [])) first).0 ≡ ok answer
unfolding serve prepare_resource_claims restore_allocations restore_files prepare_all Dummy.validate
    prepare_one after_prepare after_spec prepare_claim must_get parse_config first_config
    default_config get_kind device_type_netdev device_type_rdma device_type_combo
    get_allocated_device dummy_handler Dummy.prepare lit lookup insert str_eq create_cdi_spec
    write_spec save_allocation mkdir_all write_file cdi_device_id fresh_result get
    build_handler_registry register register_kinds roce_handler uverbs_handler ipoib_handler
    host_device_handler sriov_vf_handler veth_handler ipvlan_handler macvlan_handler
prepared_answer = refl

-- Others take the link and the files away in between.
abbrev third : DriverState (kernel true)
third = record second { world = empty_world }

released_answer : (serve dr (unprepare (uid ∷ [])) third).0 ≡ ok (released ((uid, none) ∷ []))
unfolding serve unprepare_resource_claims restore_allocations restore_files unprepare_all
    unprepare_one unprepare_allocation after_unprepare delete_cdi_spec Dummy.unprepare
    prepare_resource_claims prepare_all Dummy.validate prepare_one after_prepare after_spec
    prepare_claim must_get parse_config first_config default_config get_kind device_type_netdev
    device_type_rdma device_type_combo get_allocated_device dummy_handler Dummy.prepare lit lookup
    insert str_eq create_cdi_spec write_spec save_allocation mkdir_all write_file cdi_device_id
    fresh_result get build_handler_registry register register_kinds roce_handler uverbs_handler
    ipoib_handler host_device_handler sriov_vf_handler veth_handler ipvlan_handler macvlan_handler
released_answer = refl

abbrev life :
    History dr first
      (event_of dr third (released ((uid, none) ∷ [])) ∷ event_of dr first answer ∷ [])
      (serve dr (unprepare (uid ∷ [])) third).1
life =
    answered (unprepare (uid ∷ [])) (released ((uid, none) ∷ []))
      (elsewhere empty_world (answered (prepare (claim ∷ [])) answer start prepared_answer))
      released_answer

History-replay_example :
    ((k : Str)
      → tracked (serve dr (unprepare (uid ∷ [])) third).1 k
        ≡ replay
            (event_of dr third (released ((uid, none) ∷ [])) ∷ event_of dr first answer ∷ [])
            (tracked first)
            k)
    × AllFair
        (event_of dr third (released ((uid, none) ∷ [])) ∷ event_of dr first answer ∷ [])
        (tracked first)
History-replay_example =
    History-replay dr first (serve dr (unprepare (uid ∷ [])) third).1
      (event_of dr third (released ((uid, none) ∷ [])) ∷ event_of dr first answer ∷ []) life
