-- ===== src/Netdev/Ipoib.antt =====
-- pkg/handler/netdev/ipoib.go: `IpoibHandler`.
use dra_multi_things.Base.{
  ℕ, ◌+◌, ◌-◌, ◌/◌, ◌%◌, Str, str_eq, nat_eq, ◌==◌, if◌then◌else◌, lit, not, [], ◌∷◌, ◌++◌, ◌||◌,
  Option, none, some,
}
use dra_multi_things.Base.Int.{ℤ, pos, negsuc, is_zero}
use dra_multi_things.Base.Numeral.{hex4}
use dra_multi_things.Handler.{
  NetdevConfig, PrepareRequest, PrepareResult, UnprepareRequest, DeviceConfig, DeviceHandler,
  device_type_netdev,
}
use dra_multi_things.Netdev.Create.{
  or_default, new_attrs, netdev_result, add_and_up, unprepare_created,
}
use dra_multi_things.System.Errors.{Error, errorf}
use dra_multi_things.System.Monad.{
  M, pure, ◌>>=◌, ◌>>◌, require, guard, wrap, slice_to, link_by_name,
}
use dra_multi_things.System.Netlink.{Netlink, Link, attrs, IpoibMode, datagram, connected}
use dra_multi_things.System.World.{World}

unfoldable pub validate : DeviceConfig → Option Error
validate cfg = elim cfg.netdev [
  | none ↦ some (errorf "netdev config is required for ipoib" [])
  | some c ↦
      if c.parent == []
      then some (errorf "parent interface is required for ipoib" [])
      else if is_zero c.pkey
      then some (errorf "pkey is required for ipoib" [])
      else none
]

-- `pkey |= 0x8000` on an int: bit 15 of n is set, and that of -(n + 1) is set by clearing it in n.
unfoldable pub full_member : ℤ → ℤ
unfolding nat_eq
full_member (pos n) = pos (if (n / 32768) % 2 == 0 then n + 32768 else n)
full_member (negsuc n) = negsuc (if (n / 32768) % 2 == 0 then n else n - 32768)

-- `uint16(pkey)`
unfoldable pub to_uint16 : ℤ → ℕ
to_uint16 (pos n) = n % 65536
to_uint16 (negsuc n) = 65535 - n % 65536

-- The switch on `cfg.Mode`; `none` is its default case.
unfoldable pub mode_of : Str → Option IpoibMode
unfolding lit
mode_of mode =
    if mode == lit "connected"
    then some connected
    else if mode == lit "datagram" || mode == []
    then some datagram
    else none

module _ {N : Netlink} where
  -- From `pkey |= 0x8000` on.
  unfoldable pub create : NetdevConfig → PrepareRequest → M (World N) PrepareResult
  create cfg req = do
    let pkey = full_member cfg.pkey
    mode ←
        require (mode_of cfg.mode)
          (errorf "unsupported ipoib mode: %s (want datagram or connected)" (cfg.mode ∷ []))
    uid ← slice_to 8 req.claim_uid
    let if_name = lit "ib" ++ uid
    let container_name = or_default cfg.interface_name (lit "ib1")
    parent_link ←
        wrap "parent interface %s not found: %w" (cfg.parent ∷ []) (link_by_name cfg.parent)
    add_and_up "failed to create ipoib interface %s (parent=%s, pkey=0x%04x): %w"
        "failed to bring up ipoib interface %s: %w"
        (Link.ipoib (record (new_attrs if_name cfg) { parent_index = (attrs parent_link).index })
          (to_uint16 pkey) mode)
        (if_name ∷ cfg.parent ∷ hex4 pkey ∷ []) (if_name ∷ [])
    pure (
        netdev_result (lit "ipoib") req.claim_uid if_name container_name (
          (lit "createdInterface", if_name)
          ∷ (lit "parent", cfg.parent)
          ∷ (lit "pkey", lit "0x" ++ hex4 pkey)
          ∷ (lit "containerName", container_name)
          ∷ []))

  unfoldable pub prepare : PrepareRequest → M (World N) PrepareResult
  prepare req = do
    cfg ← require req.config.netdev (errorf "netdev config is required for ipoib" [])
    guard (not (cfg.parent == [])) (errorf "parent interface is required for ipoib" [])
    guard (not (is_zero cfg.pkey)) (errorf "pkey is required for ipoib" [])
    create cfg req

  unfoldable pub unprepare : UnprepareRequest → M (World N) (Unit {0})
  unfolding unprepare_created
  unprepare = unprepare_created "createdInterface" "failed to delete ipoib interface %s: %w"

  unfoldable pub ipoib_handler : DeviceHandler (World N)
  unfolding lit
  ipoib_handler = record {
    typ = device_type_netdev;
    kinds = lit "ipoib" ∷ [];
    prepare = prepare;
    unprepare = unprepare;
    validate = validate;
  }
