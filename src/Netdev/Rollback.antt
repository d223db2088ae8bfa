-- ===== src/Netdev/Rollback.antt =====
-- What `Prepare` of the handlers that create a link leaves in the kernel (pkg/handler/netdev).
use dra_multi_things.Base.{
  false, none, leb, length, ap, ◌==◌, not, ◌≡◌, ◌≢◌, refl, Str, str_eq, contains, true, List, [],
  ◌∷◌, ◌++◌, arith, String, lit, take,
}
use dra_multi_things.Base.Dict.{Dict, NodupKeys, lookup}
use dra_multi_things.Base.Int.{is_zero}
use dra_multi_things.Handler.{
  device_type_netdev, Recorded, Restorable, NetdevConfig, PrepareRequest, PrepareResult, meta,
}
use dra_multi_things.Netdev.Create.{new_attrs, netdev_result}
use dra_multi_things.Netdev.Dummy
use dra_multi_things.Netdev.Ipoib.{full_member, to_uint16}
use dra_multi_things.Netdev.Ipoib
use dra_multi_things.Netdev.Ipvlan
use dra_multi_things.Netdev.Macvlan
use dra_multi_things.Netdev.Undo.{Made, Same, add_rule, up_rule, find_rule, undo, add_and_up_rule}
use dra_multi_things.Netdev.Veth
use dra_multi_things.System.Monad.{link_del}
use dra_multi_things.System.Netlink.{Netlink, Link, attrs, ends, IsLawful, DeletesCleanly}
use dra_multi_things.System.Triple.{
  Triple, bind, wrap_rule, on_error_rule, require_rule, guard_rule, slice_to_rule, assuming,
  pure_rule,
}
use dra_multi_things.System.World.{World}

-- A result of `Prepare` for the links `names`, which the kernel did not show before. The
-- allocation holds under `key` the name by which `Unprepare` finds the link.
pub record Prepared (N : Netlink) (group : N.State → Str → List Str) (kind : Str) (key : String)
    (names : List Str) (req : PrepareRequest) (s : N.State) (r : PrepareResult) (t : N.State)
    : Type 0 where
  pub link : Link
  pub made : Made N group s link t
  pub named : ends link ≡ names
  pub recorded : meta (lit key) r.allocation.metadata ≡ (attrs link).name
  pub not_empty : (attrs link).name ≢ []
  pub exposed : contains names r.device_name ≡ true
  pub typed : r.allocation.typ ≡ device_type_netdev
  pub kinded : r.allocation.kind ≡ kind
  pub restorable : Restorable req.claim_uid r
  pub recalled : Recorded r
  pub container_name : Str
  pub injected :
      r.cdi_edits.net_devices
      ≡ record { host_interface_name = r.device_name; name = container_name } ∷ []

module _ (N : Netlink) {group : N.State → Str → List Str} (L : IsLawful N group)
    (D : DeletesCleanly N) (s : N.State) (req : PrepareRequest) where
  abbrev Ready : Str → String → List Str → PrepareResult → World N → Type 0
  Ready kind key names r w = Prepared N group kind key names req s r w.net

  abbrev names_of : String → List Str
  names_of prefix = (lit prefix ++ take 8 req.claim_uid) ∷ []

  -- The record above for the result that every handler builds.
  ready :
      {key : String} {names : List Str} {t : N.State} (l : Link) (kind device container : Str)
      (metadata : Dict Str Str)
      → Made N group s l t
      → ends l ≡ names
      → meta (lit key) metadata ≡ (attrs l).name
      → (attrs l).name ≢ []
      → contains names device ≡ true
      → lookup (lit "poolName") metadata ≡ none
      → NodupKeys metadata
      → Prepared N group kind key names req s
          (netdev_result kind req.claim_uid device container metadata)
          t
  ready l kind device container metadata m named recorded not_empty exposed no_pool_name distinct =
      record {
        link = l;
        made = m;
        named = named;
        recorded = recorded;
        not_empty = not_empty;
        exposed = exposed;
        typed = refl;
        kinded = refl;
        restorable = (refl, distinct);
        recalled = (refl, (refl, no_pool_name));
        container_name = container;
        injected = refl;
      }

  pub dummy_rule :
      Triple
        (Same N group s)
        (Dummy.prepare req)
        (Ready (lit "dummy") "createdInterface" (names_of "dm"))
        (Same N group s)
        (leb 8 (length req.claim_uid) ≡ false)
  unfolding Dummy.prepare lit lookup
  dummy_rule = bind (require_rule req.config.netdev _) λ cfg. assuming λ _.
      bind (slice_to_rule 8 req.claim_uid) λ uid. assuming λ u.
        let l = Link.dummy (new_attrs (lit "dm" ++ uid) cfg) in
        bind (wrap_rule _ _ (add_rule N L s l)) λ _.
          bind
            (on_error_rule (link_del l) (wrap_rule _ _ (find_rule N L s (lit "dm" ++ uid)))
              (undo N L s D l l refl))
            λ k. assuming λ named.
              bind
                (on_error_rule (link_del k) (wrap_rule _ _ (up_rule N L s l k))
                  (undo N L s D l k named))
                λ _. pure_rule _ λ w m.
                  ready l _ (lit "dm" ++ uid) _ _ m (ap (λ x. (lit "dm" ++ x) ∷ []) u)
                    (ground arith) (ground arith) (ground arith) (ground arith) (ground arith)

  pub veth_rule :
      Triple
        (Same N group s)
        (Veth.prepare req)
        (Ready
          (lit "veth")
          "hostEnd"
          ((lit "vh" ++ take 8 req.claim_uid) ∷ (lit "vc" ++ take 8 req.claim_uid) ∷ []))
        (Same N group s)
        (leb 8 (length req.claim_uid) ≡ false)
  unfolding Veth.prepare lit lookup
  veth_rule = bind (require_rule req.config.netdev _) λ cfg. assuming λ _.
      bind (slice_to_rule 8 req.claim_uid) λ uid. assuming λ u.
        let l = Link.veth (new_attrs (lit "vh" ++ uid) cfg) (lit "vc" ++ uid) in
        let back = undo N L s D l l refl in
        bind (wrap_rule _ _ (add_rule N L s l)) λ _.
          bind (on_error_rule (link_del l) (wrap_rule _ _ (find_rule N L s (lit "vh" ++ uid))) back)
            λ host. assuming λ _.
              bind (on_error_rule (link_del l) (wrap_rule _ _ (up_rule N L s l host)) back) λ _.
                bind
                  (on_error_rule (link_del l) (wrap_rule _ _ (find_rule N L s (lit "vc" ++ uid)))
                    back)
                  λ peer. assuming λ _.
                    bind (on_error_rule (link_del l) (wrap_rule _ _ (up_rule N L s l peer)) back)
                      λ _. pure_rule _ λ w m.
                        ready l _ (lit "vc" ++ uid) _ _ m
                          (ap (λ x. (lit "vh" ++ x) ∷ (lit "vc" ++ x) ∷ []) u) (ground arith)
                          (ground arith) (ground arith) (ground arith) (ground arith)

  pub macvlan_rule :
      Triple
        (Same N group s)
        (Macvlan.prepare req)
        (Ready (lit "macvlan") "createdInterface" (names_of "mv"))
        (Same N group s)
        (leb 8 (length req.claim_uid) ≡ false)
  unfolding Macvlan.prepare lit lookup
  macvlan_rule = bind (require_rule req.config.netdev _) λ cfg. assuming λ _.
      bind (guard_rule _ _) λ _. bind (require_rule (Macvlan.mode_of cfg.mode) _) λ mode.
        assuming λ _. bind (slice_to_rule 8 req.claim_uid) λ uid. assuming λ u.
          bind (wrap_rule _ _ (find_rule N L s cfg.parent)) λ parent. assuming λ _.
            let l =
              Link.macvlan
                (record (new_attrs (lit "mv" ++ uid) cfg) { parent_index = (attrs parent).index })
                mode in
            bind (add_and_up_rule N L s D _ _ l _ _) λ _. pure_rule _ λ w m.
              ready l _ (lit "mv" ++ uid) _ _ m (ap (λ x. (lit "mv" ++ x) ∷ []) u) (ground arith)
                (ground arith) (ground arith) (ground arith) (ground arith)

  pub ipvlan_rule :
      Triple
        (Same N group s)
        (Ipvlan.prepare req)
        (Ready (lit "ipvlan") "createdInterface" (names_of "iv"))
        (Same N group s)
        (leb 8 (length req.claim_uid) ≡ false)
  unfolding Ipvlan.prepare lit lookup
  ipvlan_rule = bind (require_rule req.config.netdev _) λ cfg. assuming λ _.
      bind (guard_rule _ _) λ _. bind (require_rule (Ipvlan.mode_of cfg.mode) _) λ mode.
        assuming λ _. bind (slice_to_rule 8 req.claim_uid) λ uid. assuming λ u.
          bind (wrap_rule _ _ (find_rule N L s cfg.parent)) λ parent. assuming λ _.
            let l =
              Link.ipvlan
                (record (new_attrs (lit "iv" ++ uid) cfg) { parent_index = (attrs parent).index })
                mode in
            bind (add_and_up_rule N L s D _ _ l _ _) λ _. pure_rule _ λ w m.
              ready l _ (lit "iv" ++ uid) _ _ m (ap (λ x. (lit "iv" ++ x) ∷ []) u) (ground arith)
                (ground arith) (ground arith) (ground arith) (ground arith)

  ipoib_tail :
      (cfg : NetdevConfig)
      → Triple
          (Same N group s)
          (Ipoib.create cfg req)
          (Ready (lit "ipoib") "createdInterface" (names_of "ib"))
          (Same N group s)
          (leb 8 (length req.claim_uid) ≡ false)
  unfolding Ipoib.create lit lookup
  ipoib_tail cfg = bind (require_rule (Ipoib.mode_of cfg.mode) _) λ mode. assuming λ _.
      bind (slice_to_rule 8 req.claim_uid) λ uid. assuming λ u.
        bind (wrap_rule _ _ (find_rule N L s cfg.parent)) λ parent. assuming λ _.
          let l =
            Link.ipoib
              (record (new_attrs (lit "ib" ++ uid) cfg) { parent_index = (attrs parent).index })
              (to_uint16 (full_member cfg.pkey)) mode in
          bind (add_and_up_rule N L s D _ _ l _ _) λ _. pure_rule _ λ w m.
            ready l _ (lit "ib" ++ uid) _ _ m (ap (λ x. (lit "ib" ++ x) ∷ []) u) (ground arith)
              (ground arith) (ground arith) (ground arith) (ground arith)

  pub ipoib_rule :
      Triple
        (Same N group s)
        (Ipoib.prepare req)
        (Ready (lit "ipoib") "createdInterface" (names_of "ib"))
        (Same N group s)
        (leb 8 (length req.claim_uid) ≡ false)
  unfolding Ipoib.prepare
  ipoib_rule = bind (require_rule req.config.netdev _) λ cfg. assuming λ _.
      bind (guard_rule (not (cfg.parent == [])) _)
        λ _. bind (guard_rule (not (is_zero cfg.pkey)) _) λ _. ipoib_tail cfg
