-- ===== src/Rdma/Uverbs.antt =====
-- pkg/handler/rdma/uverbs.go: `UverbsHandler`.
pub mod Pending
use dra_multi_things.Base.{
  Str, str_eq, ◌==◌, if◌then◌else◌, lit, Bool, true, false, not, ◌&&◌, List, [], ◌∷◌, ◌++◌, Option,
  none, some, ◌⊎◌, inl, inr,
}
use dra_multi_things.Base.FilePath.{filepath_join}
use dra_multi_things.Base.Strings.{has_prefix, replace_first, trim_space}
use dra_multi_things.Handler.{
  PrepareRequest, PrepareResult, UnprepareRequest, DeviceConfig, DeviceHandler, ContainerEdits,
  DeviceNode, Mount, device_type_rdma, meta,
}
use dra_multi_things.Nri.Tracker.{ActiveMove, add_pending, remove_pending, remove_active}
use dra_multi_things.Rdma.Mode.{detect_netns_mode}
use dra_multi_things.Rdma.Namespaces.{return_rdma_to_host}
use dra_multi_things.System.Errors.{Error, errorf, wrapf, ok, err}
use dra_multi_things.System.Monad.{M, from_sum, ◌>>=◌, ◌>>◌, wrap}
use dra_multi_things.System.Netlink.{Netlink}
use dra_multi_things.System.Os.{Os, read_dir, read_file, stat, text_of}
use dra_multi_things.System.World.{World, NetnsMode, shared, exclusive}

unfoldable pub ib_dev_dir : Str
unfolding lit
ib_dev_dir = lit "/dev/infiniband"

-- The first entry that begins with `uverbs`.
unfoldable pub first_uverbs : List Str → Option Str
unfolding lit
first_uverbs [] = none
first_uverbs (entry ∷ entries) =
    let rest = first_uverbs entries in if has_prefix entry (lit "uverbs") then some entry else rest

-- `findAvailableUverbs`
unfoldable pub find_available_uverbs : Os → Error ⊎ Str
unfolding first_uverbs
find_available_uverbs os = elim (read_dir os ib_dev_dir) [
  | inl e ↦ inl (wrapf "failed to read %s: %w" (ib_dev_dir ∷ []) e)
  | inr entries ↦ elim (first_uverbs entries) [
    | none ↦ inl (errorf "no uverbs devices found in %s" (ib_dev_dir ∷ []))
    | some name ↦ inr name
  ]
]

-- `resolveIBDevice`
unfoldable pub resolve_ib_device : Os → Str → Str
unfolding lit
resolve_ib_device os uverbs_name =
    elim (read_file os
      (filepath_join (lit "/sys/class/infiniband_verbs" ∷ uverbs_name ∷ lit "ibdev" ∷ []))) [
        | inl _ ↦ []
        | inr c ↦ trim_space (text_of c)
      ]

-- The device node of a path, which keeps its path in the container.
abbrev pub node : Str → DeviceNode
node path = record { path = path; host_path = path; permissions = lit "rw" }

abbrev node_if_present : Os → Str → List DeviceNode
node_if_present os path = if stat os path then node path ∷ [] else []

-- The sysfs bind mount, where the IB device is known and has an entry.
unfoldable pub ib_mounts : Os → Str → List Mount
unfolding lit
ib_mounts os ib_dev =
    let path = filepath_join (lit "/sys/class/infiniband" ∷ ib_dev ∷ []) in
    if not (ib_dev == []) && stat os path
    then record { host_path = path; container_path = path; options = lit "ro" ∷ lit "bind" ∷ [] }
      ∷ []
    else []

-- The CDI edits for a uverbs device: the device, `rdma_cm`, the umad device of the same index, and
-- the sysfs mount.
unfoldable pub uverbs_edits : Os → Str → Str → ContainerEdits
unfolding ib_mounts lit
uverbs_edits os device_name ib_dev = record {
  device_nodes =
      node (filepath_join (ib_dev_dir ∷ device_name ∷ []))
      ∷ (node_if_present os (filepath_join (ib_dev_dir ∷ lit "rdma_cm" ∷ []))
          ++ node_if_present os (
              filepath_join
                (ib_dev_dir ∷ replace_first device_name (lit "uverbs") (lit "umad") ∷ [])));
  mounts = ib_mounts os ib_dev;
  net_devices = [];
  env = [];
}

abbrev is_exclusive : NetnsMode → Bool
is_exclusive shared = false
is_exclusive exclusive = true

unfoldable pub validate : DeviceConfig → Option Error
validate cfg = none

unfoldable pub uverbs_result : Os → Str → Str → PrepareResult
unfolding lit
uverbs_result os claim_uid device_name =
    let ib_dev = resolve_ib_device os device_name in
    record {
      pool_name = lit "default";
      device_name = device_name;
      cdi_edits = uverbs_edits os device_name ib_dev;
      allocation = record {
        typ = device_type_rdma;
        kind = lit "uverbs";
        claim_uid = claim_uid;
        device_name = device_name;
        metadata =
            (lit "uverbsDevice", device_name)
            ∷ (lit "ibdev", ib_dev)
            ∷ (lit "devPath", filepath_join (ib_dev_dir ∷ device_name ∷ []))
            ∷ [];
      };
    }

abbrev path_of : Option ActiveMove → Str
path_of none = []
path_of (some m) = m.netns_path

module _ {N : Netlink} where
  -- The device that the scheduler allocated, or the first one of the node.
  unfoldable pub choose_uverbs : Str → M (World N) Str
  choose_uverbs allocated w =
      if allocated == []
      then wrap "no uverbs device allocated or available: %w" []
          (from_sum (find_available_uverbs w.os)) w
      else (ok allocated, w)

  abbrev pub exists : Str → M (World N) (Unit {0})
  exists path w =
      if stat w.os path
      then (ok tt, w)
      else (err (wrapf "uverbs device %s not found: %w" (path ∷ []) (Error.system path)), w)

  -- The tracker forgets the claim, and the device goes back to the host.
  unfoldable pub release_device : Str → Str → World N → World N
  release_device claim_uid ib_dev w =
      let (active, tracker) = remove_active claim_uid (remove_pending claim_uid w.tracker) in
      return_rdma_to_host ib_dev (path_of active) (record w { tracker = tracker })

-- `tracked` says that `Tracker` is not nil; the tracker itself is part of the world.
module _ {N : Netlink} (tracked : Bool) where
  -- `DetectNetnsMode() == NetnsExclusive && ibDev != "" && h.Tracker != nil`
  unfoldable pub moves_device : Str → World N → Bool × World N
  moves_device ib_dev w =
      let (mode, w') = detect_netns_mode w in
      (is_exclusive mode && (not (ib_dev == []) && tracked), w')

  -- A pending move is registered if the device has to be moved.
  unfoldable pub register_move : Str → Str → World N → World N
  unfolding moves_device
  register_move claim_uid ib_dev w =
      let (moves, w') = moves_device ib_dev w in
      if moves then record w' { tracker = add_pending claim_uid ib_dev w'.tracker } else w'

  unfoldable pub prepare : PrepareRequest → M (World N) PrepareResult
  unfolding choose_uverbs
  prepare req = do
    device_name ← choose_uverbs req.allocated_device
    exists (filepath_join (ib_dev_dir ∷ device_name ∷ []))
    λ w. (
      ok (uverbs_result w.os req.claim_uid device_name),
      register_move req.claim_uid (resolve_ib_device w.os device_name) w,
    )

  unfoldable pub unprepare : UnprepareRequest → M (World N) (Unit {0})
  unfolding moves_device release_device
  unprepare req w =
      let ib_dev = meta (lit "ibdev") req.allocation.metadata in
      let (moves, w') = moves_device ib_dev w in
      (ok tt, if moves then release_device req.allocation.claim_uid ib_dev w' else w')

  unfoldable pub uverbs_handler : DeviceHandler (World N)
  unfolding lit
  uverbs_handler = record {
    typ = device_type_rdma;
    kinds = lit "uverbs" ∷ [];
    prepare = prepare;
    unprepare = unprepare;
    validate = validate;
  }
