-- ===== src/Netdev/Create.antt =====
-- What the handlers of pkg/handler/netdev share: the checks of the configuration, the attributes
-- of a new link, the result of a preparation, and the deletion of a link that was created.
use dra_multi_things.Base.{Str, str_eq, ◌==◌, if◌then◌else◌, lit, String, List, [], ◌∷◌, inl, inr}
use dra_multi_things.Base.Dict.{Dict}
use dra_multi_things.Base.Int.{pos, is_positive}
use dra_multi_things.Handler.{
  NetdevConfig, PrepareResult, UnprepareRequest, no_edits, device_type_netdev, meta,
}
use dra_multi_things.System.Errors.{ok}
use dra_multi_things.System.Monad.{M, pure, ◌>>◌, wrap, on_error, link_add, link_del, link_set_up}
use dra_multi_things.System.Netlink.{Netlink, Link, LinkAttrs}
use dra_multi_things.System.World.{World}

-- `if x == "" { x = d }`
abbrev pub or_default : Str → Str → Str
or_default x d = if x == [] then d else x

-- `LinkAttrs{Name: name}`, with the MTU set if one above 0 is configured.
abbrev pub new_attrs : Str → NetdevConfig → LinkAttrs
new_attrs name cfg = record {
  name = name;
  index = 0;
  mtu = if is_positive cfg.mtu then cfg.mtu else pos 0;
  parent_index = 0;
}

-- The result that every handler builds for the interface `device`, which appears as
-- `container_name` in the container.
abbrev pub netdev_result : Str → Str → Str → Str → Dict Str Str → PrepareResult
netdev_result kind claim_uid device container_name metadata = record {
  pool_name = lit "default";
  device_name = device;
  cdi_edits = record no_edits {
    net_devices = record { host_interface_name = device; name = container_name } ∷ [];
  };
  allocation = record {
    typ = device_type_netdev;
    kind = kind;
    claim_uid = claim_uid;
    device_name = device;
    metadata = metadata;
  };
}

module _ {N : Netlink} where
  -- `LinkAdd` and `LinkSetUp` of one link, which is deleted if it does not come up.
  unfoldable pub add_and_up : String → String → Link → List Str → List Str → M (World N) (Unit {0})
  add_and_up add_format up_format l add_args up_args = do
    wrap add_format add_args (link_add l)
    on_error (link_del l) (wrap up_format up_args (link_set_up l))

  -- The end of `Unprepare`: a link that is gone is no error.
  unfoldable pub delete_if_found : String → Str → M (World N) (Unit {0})
  delete_if_found format name w = elim (N.link_by_name w.net name) [
    | inl e ↦ (ok tt, w)
    | inr l ↦ wrap format (name ∷ []) (link_del l) w
  ]

  -- `Unprepare` by the interface that the metadata names under `key`.
  unfoldable pub unprepare_created : String → String → UnprepareRequest → M (World N) (Unit {0})
  unfolding delete_if_found lit
  unprepare_created key format req =
      let name = meta (lit key) req.allocation.metadata in
      if name == [] then pure tt else delete_if_found format name
