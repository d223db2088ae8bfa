-- ===== src/Netdev/Sriov.antt =====
-- pkg/handler/netdev/sriov.go: `SriovVfHandler`.
use dra_multi_things.Base.{
  Str, str_eq, ◌==◌, if◌then◌else◌, lit, not, List, [], ◌∷◌, ◌++◌, Option, none, some, ◌⊎◌, inl,
  inr,
}
use dra_multi_things.Base.FilePath.{filepath_join}
use dra_multi_things.Base.Int.{ℤ, pos, negsuc, is_positive}
use dra_multi_things.Base.Numeral.{decimal}
use dra_multi_things.Base.Strings.{has_prefix}
use dra_multi_things.Handler.{
  PrepareRequest, PrepareResult, UnprepareRequest, DeviceConfig, NetdevConfig, DeviceHandler,
  device_type_netdev, meta,
}
use dra_multi_things.Netdev.Create.{or_default, netdev_result}
use dra_multi_things.System.Errors.{Error, errorf, wrapf, ok}
use dra_multi_things.System.Monad.{
  M, pure, from_sum, ◌>>=◌, ◌>>◌, require, guard, wrap, link_by_name, link_set_mtu, link_set_up,
  link_set_down,
}
use dra_multi_things.System.Netlink.{Netlink}
use dra_multi_things.System.Os.{Os, read_dir}
use dra_multi_things.System.World.{World}

unfoldable pub validate : DeviceConfig → Option Error
validate cfg = elim cfg.netdev [
  | none ↦ some (errorf "netdev config is required for sriov-vf" [])
  | some c ↦ none
]

-- The loop over the entries of the PF's device directory: the first network device of the first
-- `virtfn` entry that has one.
unfoldable pub scan_vfs : Os → Str → List Str → Option Str
unfolding lit
scan_vfs os dir [] = none
scan_vfs os dir (entry ∷ entries) =
    let rest = scan_vfs os dir entries in
    if not (has_prefix entry (lit "virtfn"))
    then rest
    else elim (read_dir os (filepath_join (dir ∷ entry ∷ lit "net" ∷ []))) [
      | inl _ ↦ rest
      | inr [] ↦ rest
      | inr (name ∷ _) ↦ some name
    ]

abbrev or_no_vf : Str → Option Str → Error ⊎ Str
or_no_vf pf none = inl (errorf "no available VFs found on PF %s" (pf ∷ []))
or_no_vf pf (some name) = inr name

-- `findAvailableVF`
unfoldable pub find_available_vf : Os → Str → ℤ → Error ⊎ Str
unfolding lit
find_available_vf os pf (pos n) =
    elim (read_dir os
      (lit "/sys/class/net/" ++ (pf ++ (lit "/device/virtfn" ++ (decimal n ++ lit "/net"))))) [
        | inl e ↦ inl (wrapf "VF index %d not found on PF %s: %w" (decimal n ∷ pf ∷ []) e)
        | inr [] ↦ inl (errorf "no net device for VF index %d on PF %s" (decimal n ∷ pf ∷ []))
        | inr (name ∷ _) ↦ inr name
      ]
find_available_vf os pf (negsuc n) =
    let dir = filepath_join (lit "/sys/class/net" ∷ pf ∷ lit "device" ∷ []) in
    elim (read_dir os dir) [
      | inl e ↦ inl (wrapf "failed to read PF device dir: %w" [] e)
      | inr entries ↦ or_no_vf pf (scan_vfs os dir entries)
    ]

module _ {N : Netlink} where
  abbrev pub find_vf : NetdevConfig → M (World N) Str
  find_vf cfg w = from_sum (find_available_vf w.os cfg.parent cfg.vf_index) w

  -- The VF that the scheduler assigned, or one found on the parent PF.
  unfoldable pub choose_vf : NetdevConfig → Str → M (World N) Str
  choose_vf cfg allocated = if not (allocated == []) then pure allocated else do
    guard (not (cfg.parent == []))
        (errorf "either allocated device or parent PF must be specified for sriov-vf" [])
    wrap "failed to find VF on parent %s: %w" (cfg.parent ∷ []) (find_vf cfg)

  unfoldable pub prepare : PrepareRequest → M (World N) PrepareResult
  unfolding choose_vf
  prepare req = do
    cfg ← require req.config.netdev (errorf "netdev config is required for sriov-vf" [])
    let container_name = or_default cfg.interface_name (lit "eth1")
    vf_name ← choose_vf cfg req.allocated_device
    link ← wrap "VF interface %s not found: %w" (vf_name ∷ []) (link_by_name vf_name)
    if is_positive cfg.mtu
        then wrap "failed to set MTU on VF %s: %w" (vf_name ∷ []) (link_set_mtu link cfg.mtu)
        else pure tt
    wrap "failed to bring up VF %s: %w" (vf_name ∷ []) (link_set_up link)
    pure (
        netdev_result (lit "sriov-vf") req.claim_uid vf_name container_name
          ((lit "vfInterface", vf_name) ∷ (lit "containerName", container_name) ∷ []))

  abbrev take_down : Str → M (World N) (Unit {0})
  take_down name w = elim (N.link_by_name w.net name) [
    | inl _ ↦ (ok tt, w)
    | inr l ↦ (ok tt, (link_set_down l w).1)
  ]

  -- The interface is brought down, not deleted, and no error is returned.
  unfoldable pub unprepare : UnprepareRequest → M (World N) (Unit {0})
  unprepare req =
      let name = meta (lit "vfInterface") req.allocation.metadata in
      if name == [] then pure tt else take_down name

  unfoldable pub sriov_vf_handler : DeviceHandler (World N)
  unfolding lit
  sriov_vf_handler = record {
    typ = device_type_netdev;
    kinds = lit "sriov-vf" ∷ [];
    prepare = prepare;
    unprepare = unprepare;
    validate = validate;
  }
