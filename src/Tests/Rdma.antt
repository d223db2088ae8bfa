-- ===== src/Tests/Rdma.antt =====
-- Runs of the uverbs and the RoCE handler in the small kernel, with one RDMA device.
use dra_multi_things.Base.{◌≡◌, refl, Str, str_eq, nat_eq, lit, true, false, [], ◌∷◌, none, some}
use dra_multi_things.Base.Dict.{lookup, insert}
use dra_multi_things.Base.FilePath.{filepath_join, clean, rooted, split_slash}
use dra_multi_things.Base.Int.{pos}
use dra_multi_things.Base.Strings.{trim_space}
use dra_multi_things.Combo.{rdma_request, netdev_request, finish, roce_handler, roce_result}
use dra_multi_things.Combo
use dra_multi_things.Combo.Cycle.{unprepare-prepare_roce}
use dra_multi_things.Combo.Rollback.{dummy-Frames, roce-rolls_back}
use dra_multi_things.Handler.{PrepareRequest, PrepareResult, DeviceHandler}
use dra_multi_things.Netdev.Create.{netdev_result}
use dra_multi_things.Netdev.Dummy.{dummy_handler}
use dra_multi_things.Netdev.Dummy
use dra_multi_things.Rdma.Mode.{detect_netns_mode}
use dra_multi_things.Rdma.Uverbs.{uverbs_handler, choose_uverbs, uverbs_result, ib_dev_dir}
use dra_multi_things.Rdma.Uverbs
use dra_multi_things.Rdma.Uverbs.Pending.{unprepare-prepare_uverbs}
use dra_multi_things.System.Errors.{errorf, wrapf, ok}
use dra_multi_things.System.Os.{text, stat, read_file}
use dra_multi_things.System.World.{World}
use dra_multi_things.Tests.Kernel.{kernel, is_lawful, deletes_cleanly}

abbrev uid : Str
uid = lit "12345678-aaaa-bbbb-cccc-123456789abc"

abbrev request : PrepareRequest
request = record {
  claim_uid = uid;
  namespace = lit "ns";
  claim_name = lit "claim";
  allocated_device = lit "uverbs0";
  config = record {
    typ = lit "combo";
    netdev = none;
    rdma = none;
    combo = some (record {
      rdma = record { prefer_device = [] };
      netdev = record {
        kind = lit "dummy";
        interface_name = [];
        mtu = pos 0;
        parent = [];
        mode = [];
        vf_index = pos 0;
        host_device = [];
        pkey = pos 0;
      };
    });
  };
}

-- The interface of the claim exists already, so that no other can be created.
abbrev world : World (kernel true)
world = record {
  net = record { links = (lit "dm12345678", lit "dm12345678" ∷ []) ∷ []; namespace = 0 };
  os = record {
    files =
        (lit "/dev/infiniband/uverbs0", text [])
        ∷ (lit "/sys/class/infiniband_verbs/uverbs0/ibdev", text (lit "mlx5_0"))
        ∷ [];
    dirs = [];
    symlinks = [];
    refuses = λ _ _. false;
  };
  tracker = record { pending = []; active = [] };
  cached_mode = none;
}

unprepare-prepare_uverbs_example :
    lookup uid
      (Uverbs.unprepare true
        (record {
          claim_uid = uid;
          allocation = (uverbs_result world.os uid (lit "uverbs0")).allocation;
        })
        (Uverbs.prepare true request world).1).1.tracker.pending
    ≡ lookup uid []
unfolding nat_eq Uverbs.prepare choose_uverbs stat lookup str_eq ib_dev_dir lit filepath_join clean
    rooted split_slash
unprepare-prepare_uverbs_example =
    unprepare-prepare_uverbs true request uid world {r = uverbs_result world.os uid (lit "uverbs0")}
      refl refl

roce-rolls_back_example :
    lookup uid
      ((roce_handler (uverbs_handler true) dummy_handler).prepare request world).1.tracker.pending
    ≡ lookup uid []
unfolding nat_eq Uverbs.register_move detect_netns_mode Uverbs.resolve_ib_device read_file
    trim_space Uverbs.unprepare roce_handler Combo.prepare rdma_request netdev_request finish
    uverbs_handler dummy_handler Dummy.prepare Uverbs.prepare choose_uverbs stat lookup str_eq
    ib_dev_dir lit filepath_join clean rooted split_slash
roce-rolls_back_example =
    roce-rolls_back true dummy_handler request uid world
      {e = wrapf "netdev prepare failed: %w" [] (
        wrapf "failed to create dummy interface %s: %w" (lit "dm12345678" ∷ [])
          (errorf "no such device" []))}
      dummy-Frames refl refl

-- A node on which the interface of the claim can be created.
abbrev free_world : World (kernel true)
free_world = record world { net = record { links = []; namespace = 0 } }

abbrev result : PrepareResult
result = roce_result uid (uverbs_result world.os uid (lit "uverbs0")) (
    netdev_result (lit "dummy") uid (lit "dm12345678") (lit "eth1")
      ((lit "createdInterface", lit "dm12345678") ∷ (lit "containerName", lit "eth1") ∷ []))

unprepare-prepare_roce_example :
    let h : DeviceHandler (World (kernel true)) =
      roce_handler (uverbs_handler true) dummy_handler in
    let out =
      h.unprepare
        (record { claim_uid = uid; allocation = result.allocation })
        (h.prepare request free_world).1 in
    (out.0 ≡ ok tt) × (lookup uid out.1.tracker.pending ≡ lookup uid [])
unfolding nat_eq Uverbs.register_move detect_netns_mode Uverbs.resolve_ib_device read_file
    trim_space Uverbs.unprepare roce_handler Combo.prepare rdma_request netdev_request finish
    uverbs_handler dummy_handler Dummy.prepare Uverbs.prepare choose_uverbs stat lookup str_eq
    ib_dev_dir lit filepath_join clean rooted split_slash insert
unprepare-prepare_roce_example =
    unprepare-prepare_roce (is_lawful true) (deletes_cleanly true) true request free_world uid
      {r = result} refl refl
