-- ===== src/Tests/Recalled.antt =====
-- A RoCE claim that is prepared twice, on a node with one RDMA device (pkg/driver/driver.go,
-- pkg/handler/combo/roce.go).
use dra_multi_things.Base.{◌≡◌, refl, str_eq, nat_eq, lit, true, false, List, [], ◌∷◌, none, some}
use dra_multi_things.Base.Dict.{lookup, insert}
use dra_multi_things.Base.FilePath.{filepath_join, clean, rooted, split_slash}
use dra_multi_things.Base.Strings.{trim_space}
use dra_multi_things.Base.Utf8.{coerce_after, rune_size}
use dra_multi_things.Combo.{rdma_request, netdev_request, finish, roce_handler, roce_result}
use dra_multi_things.Combo
use dra_multi_things.Driver.Claim.{
  ResourceClaim, parse_config, first_config, get_allocated_device, first_device,
}
use dra_multi_things.Driver.Codec.{
  decode_config, decode_object, decode_fields, decode_str, decode_pointer, matches, decode_combo,
  decode_netdev, decode_rdma,
}
use dra_multi_things.Driver.Server.{
  Device, devices, prepare_claim, after_spec, after_prepare, prepare_one, fresh_result,
}
use dra_multi_things.Driver.Store.{
  DriverState, cdi_device_id, create_cdi_spec, write_spec, save_allocation,
}
use dra_multi_things.Handler.{get_kind, device_type_rdma, device_type_netdev, device_type_combo}
use dra_multi_things.Handler.Registry.{get, must_get, register, register_kinds}
use dra_multi_things.Main.{build_handler_registry}
use dra_multi_things.Main.Recall.{nameless, prepare_one-repeat_roce}
use dra_multi_things.Netdev.Dummy.{dummy_handler}
use dra_multi_things.Netdev.Dummy
use dra_multi_things.Netdev.HostDevice.{host_device_handler}
use dra_multi_things.Netdev.Ipoib.{ipoib_handler}
use dra_multi_things.Netdev.Ipvlan.{ipvlan_handler}
use dra_multi_things.Netdev.Macvlan.{macvlan_handler}
use dra_multi_things.Netdev.Sriov.{sriov_vf_handler}
use dra_multi_things.Netdev.Veth.{veth_handler}
use dra_multi_things.Rdma.Mode.{detect_netns_mode}
use dra_multi_things.Rdma.Uverbs.{uverbs_handler, choose_uverbs, uverbs_result, ib_dev_dir}
use dra_multi_things.Rdma.Uverbs
use dra_multi_things.System.Errors.{ok}
use dra_multi_things.System.Os.{
  text, json, obj, str, field, end, stat, read_file, mkdir_all, write_file,
}
use dra_multi_things.Tests.Claims.{uid, dr}
use dra_multi_things.Tests.Kernel.{kernel}

-- `{"type": "combo", "combo": {"netdev": {"kind": "dummy"}}}`
abbrev claim : ResourceClaim
claim = record {
  uid = uid;
  namespace = lit "ns";
  name = lit "claim";
  config =
      some (record {
        driver = lit "dra.example";
        parameters = json (
            obj (
              field (lit "type") (str (lit "combo")) (
                field (lit "combo")
                  (obj
                    (field (lit "netdev") (obj (field (lit "kind") (str (lit "dummy")) end)) end))
                  end)));
      })
      ∷ [];
  allocation = some (
      record {
        driver = lit "dra.example";
        pool = lit "node-1";
        device = lit "uverbs0";
        request = lit "r";
      }
      ∷ []);
}

abbrev node : DriverState (kernel true)
node = record {
  allocations = [];
  world = record {
    net = record { links = []; namespace = 0 };
    os = record {
      files =
          (lit "/dev/infiniband/uverbs0", text [])
          ∷ (lit "/sys/class/infiniband_verbs/uverbs0/ibdev", text (lit "mlx5_0"))
          ∷ [];
      dirs = [];
      symlinks = [];
      refuses = λ _ _. false;
    };
    tracker = record { pending = []; active = [] };
    cached_mode = none;
  };
}

abbrev answer : List Device
answer =
    record {
      pool_name = lit "default";
      device_name = lit "uverbs0";
      cdi_device_ids = lit "dra.example/combo=uverbs0" ∷ [];
    }
    ∷ []

prepare_one-repeat_roce_example :
    prepare_one dr claim (prepare_one dr claim node).1
    ≡ (ok (devices (nameless (lit "dra.example"))), (prepare_one dr claim node).1)
unfolding nat_eq Uverbs.register_move detect_netns_mode Uverbs.resolve_ib_device read_file
    trim_space roce_handler Combo.prepare rdma_request netdev_request finish uverbs_handler
    dummy_handler Dummy.prepare Uverbs.prepare choose_uverbs stat lookup str_eq ib_dev_dir lit
    filepath_join clean rooted split_slash insert prepare_one after_prepare after_spec prepare_claim
    must_get parse_config first_config get_kind device_type_netdev device_type_rdma
    device_type_combo get_allocated_device first_device create_cdi_spec write_spec save_allocation
    mkdir_all write_file cdi_device_id fresh_result get build_handler_registry register
    register_kinds ipoib_handler host_device_handler sriov_vf_handler veth_handler ipvlan_handler
    macvlan_handler decode_config decode_object decode_fields decode_str decode_pointer matches
    decode_combo decode_netdev decode_rdma coerce_after rune_size Combo.validate roce_result
    uverbs_result
prepare_one-repeat_roce_example =
    prepare_one-repeat_roce dr claim node {ds = answer} refl refl refl refl
