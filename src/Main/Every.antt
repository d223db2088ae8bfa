-- ===== src/Main/Every.antt =====
-- A property of every handler that the driver registers (`buildHandlerRegistry` of
-- cmd/dra-driver/main.go), and of every result of `prepareClaim` (pkg/driver/driver.go).
use dra_multi_things.Base.{
  ◌≡◌, ◌≢◌, sym, ◌∙◌, subst, Str, str_eq, ◌==◌, if◌then◌else◌, lit, Bool, true, false, Option, none,
  some, inl, inr, Option-cases, nat_eq, arith,
}
use dra_multi_things.Combo.{roce_handler}
use dra_multi_things.Driver.Claim.{ResourceClaim, parse_config, get_allocated_device}
use dra_multi_things.Driver.Server.{prepare_claim}
use dra_multi_things.Driver.Store.{Driver}
use dra_multi_things.Handler.{DeviceHandler, PrepareRequest, PrepareResult, get_kind}
use dra_multi_things.Handler.Registry.{get, must_get}
use dra_multi_things.Main.{build_handler_registry}
use dra_multi_things.Main.Table.{netdev_handler_of, get-build_handler_registry}
use dra_multi_things.Netdev.Dummy.{dummy_handler}
use dra_multi_things.Netdev.HostDevice.{host_device_handler}
use dra_multi_things.Netdev.RoundTrip.{Creator, dummy, macvlan, ipvlan, veth, ipoib, handler}
use dra_multi_things.Netdev.Sriov.{sriov_vf_handler}
use dra_multi_things.Rdma.Uverbs.{uverbs_handler}
use dra_multi_things.System.Errors.{ok}
use dra_multi_things.System.Netlink.{Netlink}
use dra_multi_things.System.World.{World}

-- Cases on a table of handlers.
branch {ℓ} :
    {A : Type ℓ} (P : A → Type 0) (b : Bool) {o p : Option A} {h : A}
    → (o ≡ some h → P h)
    → (p ≡ some h → P h)
    → (if b then o else p) ≡ some h
    → P h
branch P true f g e = f e
branch P false f g e = g e

same {ℓ} : {A : Type ℓ} (P : A → Type 0) {x h : A} → P x → some x ≡ some h → P h
same P {x} {h} p e = let q : x ≡ h = cc in subst P q p

never {ℓ} : {A : Type ℓ} (P : A → Type 0) {h : A} → none ≡ some h → P h
never P e = absurd (ground arith)

module _ {N : Netlink} (P : DeviceHandler (World N) → Type 0)
    (creator : (c : Creator) → P (handler c)) (host_device : P host_device_handler)
    (sriov : P sriov_vf_handler) (uverbs : P (uverbs_handler true)) where
  every_netdev : (kind : Str) {h : DeviceHandler (World N)} → netdev_handler_of kind ≡ some h → P h
  every_netdev kind = branch P _ (same P (creator ipoib)) (
      branch P _ (same P host_device) (
        branch P _ (same P (creator dummy)) (
          branch P _ (same P sriov) (
            branch P _ (same P (creator veth)) (
              branch P _ (same P (creator ipvlan))
                (branch P _ (same P (creator macvlan)) (never P)))))))

  every_type :
      (typ kind : Str) {h : DeviceHandler (World N)}
      → ((if lit "combo" == typ
              then (if lit "roce" == kind
                  then some (roce_handler (uverbs_handler true) dummy_handler)
                  else none)
              else none)
            ≡ some h
          → P h)
      → get typ kind (build_handler_registry {N = N}) ≡ some h
      → P h
  every_type typ kind combo q =
      branch P (lit "netdev" == typ) (every_netdev kind)
        (branch P (lit "rdma" == typ) (branch P (lit "uverbs" == kind) (same P uverbs) (never P))
          combo)
        (sym (get-build_handler_registry N typ kind) ∙ q)

  -- Every handler but RoCE.
  pub every_but_roce :
      (typ kind : Str) {h : DeviceHandler (World N)}
      → typ ≢ lit "combo"
      → get typ kind (build_handler_registry {N = N}) ≡ some h
      → P h
  every_but_roce typ kind n = every_type typ kind (λ e. absurd (ground arith))

  pub every_handler :
      (typ kind : Str) {h : DeviceHandler (World N)}
      → P (roce_handler (uverbs_handler true) dummy_handler)
      → get typ kind (build_handler_registry {N = N}) ≡ some h
      → P h
  every_handler typ kind roce = every_type typ kind (
      branch P (lit "combo" == typ) (branch P (lit "roce" == kind) (same P roce) (never P))
        (never P))

module _ {N : Netlink} (P : DeviceHandler (World N) → Type 0) where
  -- The only handler of its type.
  pub every_combo :
      (kind : Str) {h : DeviceHandler (World N)}
      → P (roce_handler (uverbs_handler true) dummy_handler)
      → get (lit "combo") kind (build_handler_registry {N = N}) ≡ some h
      → P h
  unfolding lit str_eq nat_eq
  every_combo kind roce q =
      branch P (lit "roce" == kind) (same P roce) (never P)
        (sym (get-build_handler_registry N (lit "combo") kind) ∙ q)

module _ {N : Netlink} (dr : Driver N) (rc : ResourceClaim) where
  -- The request that the handler of a claim gets.
  abbrev pub request_of : PrepareRequest
  request_of = record {
    claim_uid = rc.uid;
    namespace = rc.namespace;
    claim_name = rc.name;
    allocated_device = get_allocated_device dr.driver_name (some rc);
    config = parse_config dr.driver_name (some rc);
  }

  -- The handler that a result of `prepareClaim` comes from.
  pub record Origin (w : World N) (r : PrepareResult) : Type 0 where
    pub from : DeviceHandler (World N)
    pub registered : get request_of.config.typ (get_kind request_of.config) dr.registry ≡ some from
    pub returned : (from.prepare request_of w).0 ≡ ok r

  pub prepare_claim-Origin :
      (w : World N) (r : PrepareResult) → (prepare_claim dr rc w).0 ≡ ok r → Origin w r
  unfolding prepare_claim must_get
  prepare_claim-Origin w r h =
      let cfg = parse_config dr.driver_name (some rc) in
      elim (Option-cases (get cfg.typ (get_kind cfg) dr.registry)) [
        | inl q ↦ absurd (ground arith)
        | inr (x, q) ↦ elim (Option-cases (x.validate cfg)) [
          | inl v ↦ record {
            from = x;
            registered = q;
            returned = rw (q, v, prepare_claim, must_get) at h;
          }
          | inr (f, v) ↦ absurd (ground arith)
        ]
      ]
