-- ===== src/Tests/Links.antt =====
-- Runs of the netdev handlers and of the registry in the small kernel.
use dra_multi_things.Base.{
  ◌≡◌, refl, Str, str_eq, nat_eq, lit, true, false, List, [], ◌∷◌, none, some,
}
use dra_multi_things.Base.Dict.{Dict, lookup, insert}
use dra_multi_things.Base.Int.{pos}
use dra_multi_things.Handler.{DeviceConfig, PrepareRequest, PrepareResult, UnprepareRequest}
use dra_multi_things.Netdev.Create.{netdev_result}
use dra_multi_things.Netdev.Dummy.{dummy_handler}
use dra_multi_things.Netdev.Dummy
use dra_multi_things.Netdev.Rollback.{Prepared}
use dra_multi_things.Netdev.RoundTrip.{
  dummy, handler, kind_of, key_of, names_of, prepare-rolls_back, prepare-Prepared,
  unprepare-prepare,
}
use dra_multi_things.System.Errors.{errorf, wrapf, ok}
use dra_multi_things.System.Netlink.{SameLinks}
use dra_multi_things.System.World.{World}
use dra_multi_things.Tests.Kernel.{kernel, group, is_lawful, deletes_cleanly}

abbrev uid : Str
uid = lit "12345678-aaaa-bbbb-cccc-123456789abc"

abbrev config : DeviceConfig
config = record {
  typ = lit "netdev";
  netdev = some (record {
    kind = lit "dummy";
    interface_name = [];
    mtu = pos 9000;
    parent = [];
    mode = [];
    vf_index = pos 0;
    host_device = [];
    pkey = pos 0;
  });
  rdma = none;
  combo = none;
}

abbrev request : PrepareRequest
request = record {
  claim_uid = uid;
  namespace = lit "ns";
  claim_name = lit "claim";
  allocated_device = [];
  config = config;
}

abbrev world_of : Dict Str (List Str) → World (kernel true)
world_of links = record {
  net = record { links = links; namespace = 0 };
  os = record { files = []; dirs = []; symlinks = []; refuses = λ _ _. false };
  tracker = record { pending = []; active = [] };
  cached_mode = none;
}

-- A kernel with a loopback interface, and one that has the interface of the claim already.
abbrev quiet_world : World (kernel true)
quiet_world = world_of ((lit "lo", lit "lo" ∷ []) ∷ [])

abbrev busy_world : World (kernel true)
busy_world = world_of ((lit "dm12345678", lit "dm12345678" ∷ []) ∷ [])

abbrev result : PrepareResult
result =
    netdev_result (lit "dummy") uid (lit "dm12345678") (lit "eth1")
      ((lit "createdInterface", lit "dm12345678") ∷ (lit "containerName", lit "eth1") ∷ [])

abbrev prepared : World (kernel true)
prepared = ((handler {N = kernel true} dummy).prepare request quiet_world).1

abbrev back : UnprepareRequest
back = record { claim_uid = uid; allocation = result.allocation }

unprepare-prepare_example :
    (((handler {N = kernel true} dummy).unprepare back prepared).0 ≡ ok tt)
    × SameLinks
        (kernel true)
        quiet_world.net
        ((handler {N = kernel true} dummy).unprepare back prepared).1.net
unfolding dummy_handler Dummy.prepare lit lookup insert str_eq
unprepare-prepare_example =
    unprepare-prepare (kernel true) (is_lawful true) (deletes_cleanly true) dummy request
      quiet_world {r = result} refl

prepare-Prepared_example :
    Prepared
      (kernel true)
      group
      (kind_of dummy)
      (key_of dummy)
      (names_of dummy uid)
      request
      quiet_world.net
      result
      prepared.net
unfolding dummy_handler Dummy.prepare lit lookup insert str_eq
prepare-Prepared_example =
    prepare-Prepared (kernel true) (is_lawful true) (deletes_cleanly true) dummy request quiet_world
      {r = result} refl

prepare-rolls_back_example :
    SameLinks
      (kernel true)
      busy_world.net
      ((handler {N = kernel true} dummy).prepare request busy_world).1.net
unfolding dummy_handler Dummy.prepare lit lookup insert str_eq
prepare-rolls_back_example =
    prepare-rolls_back (kernel true) (is_lawful true) (deletes_cleanly true) dummy request
      busy_world
      {e = wrapf "failed to create dummy interface %s: %w" (lit "dm12345678" ∷ [])
        (errorf "no such device" [])}
      refl
