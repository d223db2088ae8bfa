-- ===== src/Driver/Publisher/Prepare.antt =====
-- A published RDMA device in the hands of the uverbs handler (pkg/driver/publisher.go and
-- pkg/handler/rdma/uverbs.go).
use dra_multi_things.Base.{
  ◌≡◌, ◌≢◌, refl, ap, Str, str_eq, lit, Bool, true, [], ◌∷◌, Option, none, some, All, Among,
  All-Among, arith, ◌∙◌, sym,
}
use dra_multi_things.Base.Dict.{Dict, lookup, lookup-insert}
use dra_multi_things.Base.FilePath.{filepath_join}
use dra_multi_things.Base.Strings.{has_prefix}
use dra_multi_things.Driver.Publisher.{
  Device, DeviceAttribute, rdma_device, discover_rdma_devices, string_attribute, ib_dir,
  resolve_ib_device_name, add_ibdev,
}
use dra_multi_things.Driver.Publisher.Rules.{All-Unit, rdma_devices-All, discover_rdma_devices_lem}
use dra_multi_things.Handler.{PrepareRequest, PrepareResult, meta}
use dra_multi_things.Rdma.Mode.{detect_netns_mode}
use dra_multi_things.Rdma.Uverbs.{prepare, uverbs_result, resolve_ib_device, ib_dev_dir}
use dra_multi_things.System.Errors.{Outcome, ok}
use dra_multi_things.System.Netlink.{Netlink}
use dra_multi_things.System.Os.{Os, stat, entries_of}
use dra_multi_things.System.World.{World, NetnsMode}

-- The text of an attribute, and the empty text where it is missing.
abbrev text_or_empty : Option DeviceAttribute → Str
text_or_empty none = []
text_or_empty (some a) = elim a.string_value [ none ↦ [] | some s ↦ s ]

abbrev pub attribute : Str → Device → Str
attribute key d = text_or_empty (lookup key d.attributes)

-- A result for the device, whose allocation names the device file and the IB device that were
-- published.
abbrev pub Agrees : Device → Outcome PrepareResult → Type 0
Agrees d o =
    (r : PrepareResult) × (o ≡ ok r)
    × (r.device_name ≡ d.name)
    × (meta (lit "devPath") r.allocation.metadata ≡ attribute (lit "dra.example.com/device") d)
    × (meta (lit "ibdev") r.allocation.metadata ≡ attribute (lit "dra.example.com/ibdev") d)

same_ib_device : (os : Os) (name : Str) → resolve_ib_device os name ≡ resolve_ib_device_name os name
unfolding resolve_ib_device resolve_ib_device_name
same_ib_device os name = refl

text-add_ibdev :
    (dev : Str) (d : Dict Str DeviceAttribute)
    → lookup (lit "dra.example.com/ibdev") d ≡ none
    → text_or_empty (lookup (lit "dra.example.com/ibdev") (add_ibdev dev d)) ≡ dev
text-add_ibdev dev d n =
    let key = lit "dra.example.com/ibdev" in
    ground (arith, lookup-insert key key (string_attribute dev) d)

ibdev-ne-device : lit "dra.example.com/ibdev" ≢ lit "dra.example.com/device"
unfolding lit
ibdev-ne-device = ground arith

device-add_ibdev :
    (dev : Str) (d : Dict Str DeviceAttribute)
    → lookup (lit "dra.example.com/device") (add_ibdev dev d)
      ≡ lookup (lit "dra.example.com/device") d
device-add_ibdev dev d = ground (
  arith,
  ibdev-ne-device,
  lookup-insert (lit "dra.example.com/device") (lit "dra.example.com/ibdev") (string_attribute dev)
      d,
)

-- The attributes of a published device.
attribute-ibdev :
    (os : Os) (mode : NetnsMode) (name : Str)
    → attribute (lit "dra.example.com/ibdev") (rdma_device os mode name)
      ≡ resolve_ib_device_name os name
unfolding rdma_device lookup lit str_eq
attribute-ibdev os mode name = text-add_ibdev (resolve_ib_device_name os name) _ refl

attribute-device :
    (os : Os) (mode : NetnsMode) (name : Str)
    → attribute (lit "dra.example.com/device") (rdma_device os mode name)
      ≡ filepath_join (ib_dir ∷ name ∷ [])
unfolding rdma_device lookup lit str_eq
attribute-device os mode name =
    ap text_or_empty (device-add_ibdev (resolve_ib_device_name os name) _)

uverbs_nonempty : (name : Str) → has_prefix name (lit "uverbs") ≡ true → name ≢ []
unfolding has_prefix lit
uverbs_nonempty [] h = cc
uverbs_nonempty (b ∷ s) h = cc

module _ {N : Netlink} (tracked : Bool) (v : World N) (req : PrepareRequest) where
  prepare-result :
      req.allocated_device ≢ []
      → stat v.os (filepath_join (ib_dev_dir ∷ req.allocated_device ∷ [])) ≡ true
      → (prepare tracked req v).0 ≡ ok (uverbs_result v.os req.claim_uid req.allocated_device)
  unfolding prepare
  prepare-result n h = ground arith

-- The metadata of the allocation.
dev_path-result :
    (os : Os) (claim_uid name : Str)
    → meta (lit "devPath") (uverbs_result os claim_uid name).allocation.metadata
      ≡ filepath_join (ib_dir ∷ name ∷ [])
unfolding uverbs_result lookup lit str_eq ib_dev_dir ib_dir
dev_path-result os claim_uid name = refl

ibdev-result :
    (os : Os) (claim_uid name : Str)
    → meta (lit "ibdev") (uverbs_result os claim_uid name).allocation.metadata
      ≡ resolve_ib_device_name os name
unfolding uverbs_result lookup lit str_eq
ibdev-result os claim_uid name = same_ib_device os name

device_name-result :
    (os : Os) (claim_uid name : Str) → (uverbs_result os claim_uid name).device_name ≡ name
unfolding uverbs_result
device_name-result os claim_uid name = refl

-- Where a device comes from.
abbrev Listed : Os → NetnsMode → Device → Type 0
Listed os mode d = (n : Str) × (n ≢ []) × (d ≡ rdma_device os mode n)

name-rdma_device : (os : Os) (mode : NetnsMode) (n : Str) → (rdma_device os mode n).name ≡ n
unfolding rdma_device
name-rdma_device os mode n = refl

discover_rdma_devices-Listed :
    {N : Netlink} (w : World N)
    → All (Listed w.os (detect_netns_mode w).0) (discover_rdma_devices w).0
discover_rdma_devices-Listed w = rw (discover_rdma_devices_lem w) (
    rdma_devices-All (λ _. Unit) (Listed w.os (detect_netns_mode w).0) w.os (detect_netns_mode w).0
      (entries_of w.os ib_dir) (All-Unit _) (λ n _ h. (n, uverbs_nonempty n h, refl)))

-- A published RDMA device that a claim gets allocated is prepared by the uverbs handler, as long as
-- its device file exists and the files are those that were read at the discovery: Prepare returns a
-- result for the device, whose allocation names the device file and the IB device that were
-- published.
pub prepare-discover_rdma_devices :
    {N : Netlink} (tracked : Bool) (w v : World N) (d : Device) (req : PrepareRequest)
    → Among d (discover_rdma_devices w).0
    → v.os ≡ w.os
    → req.allocated_device ≡ d.name
    → stat v.os (filepath_join (ib_dir ∷ d.name ∷ [])) ≡ true
    → Agrees d (prepare tracked req v).0
unfolding ib_dev_dir ib_dir
prepare-discover_rdma_devices tracked w v d req m same allocated exists =
    let mode = (detect_netns_mode w).0 in
    let (n, nonempty, e) = All-Among (Listed w.os mode) d _ (discover_rdma_devices-Listed w) m in
    let dn : d.name ≡ n = ap (λ x. x.name) e ∙ name-rdma_device w.os mode n in
    let an : req.allocated_device ≡ n = allocated ∙ dn in
    (
      uverbs_result v.os req.claim_uid req.allocated_device,
      prepare-result tracked v req (λ h. nonempty (sym an ∙ h)) (rw allocated exists),
      device_name-result v.os req.claim_uid req.allocated_device ∙ allocated,
      dev_path-result v.os req.claim_uid req.allocated_device
          ∙ (ap (λ x. filepath_join (ib_dir ∷ x ∷ [])) an
              ∙ sym
                  (ap (attribute (lit "dra.example.com/device")) e ∙ attribute-device w.os mode n)),
      ibdev-result v.os req.claim_uid req.allocated_device
          ∙ (ap (resolve_ib_device_name v.os) an
              ∙ (ap (λ os. resolve_ib_device_name os n) same
                  ∙ sym (
                      ap (attribute (lit "dra.example.com/ibdev")) e
                      ∙ attribute-ibdev w.os mode n))),
    )
