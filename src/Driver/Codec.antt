-- ===== src/Driver/Codec.antt =====
-- The JSON forms of pkg/handler/types.go, by its struct tags, as `encoding/json` writes and reads
-- them: what is absent or null keeps its value, unknown keys are passed over, a key matches its
-- field in any case, the last of two equal keys counts, and a value of another type is an error.
-- Texts are coerced to valid UTF-8 on both ways.
pub mod RoundTrip
use dra_multi_things.Base.{
  ℕ, ◌+◌, ◌^◌, Str, str_eq, ◌==◌, ltb, leb, if◌then◌else◌, lit, map, Bool, true, false, ◌&&◌, List,
  [], ◌∷◌, Option, none, some,
}
use dra_multi_things.Base.Dict.{Dict, insert}
use dra_multi_things.Base.Int.{ℤ, pos, negsuc}
use dra_multi_things.Base.Utf8.{coerce_utf8}
use dra_multi_things.Handler.{DeviceConfig, NetdevConfig, RdmaConfig, ComboConfig, AllocationInfo}
use dra_multi_things.System.Os.{
  Json, null, bool, num, frac, str, arr, obj, Items, Fields, end, field, Content, json, text,
}

abbrev lower : ℕ → ℕ
lower b = if leb b'A' b && leb b b'Z' then b + 32 else b

-- A key that matches a field's tag, letter case aside.
unfoldable pub matches : Str → Str → Bool
matches key tag = map lower key == map lower tag

abbrev bind {ℓ} : {A B : Type ℓ} → Option A → (A → Option B) → Option B
bind none f = none
bind (some a) f = f a

-- The members of an object, in order, each read into the value so far.
unfoldable pub decode_fields {ℓ} :
    {A : Type ℓ} → (Str → Json → A → Option A) → Fields → A → Option A
decode_fields step end a = some a
decode_fields step (field k v fs) a = bind (step (coerce_utf8 k) v a) (decode_fields step fs)

unfoldable pub decode_object {ℓ} : {A : Type ℓ} → (Str → Json → A → Option A) → Json → A → Option A
unfolding decode_fields
decode_object step null a = some a
decode_object step (obj fs) a = decode_fields step fs a
decode_object step _ a = none

unfoldable pub decode_str : Json → Str → Option Str
decode_str null old = some old
decode_str (str s) old = some (coerce_utf8 s)
decode_str _ old = none

-- A number that is an int of 64 bits.
unfoldable pub in_range : ℤ → Bool
in_range (pos n) = ltb n (2 ^ 63)
in_range (negsuc n) = ltb n (2 ^ 63)

unfoldable pub decode_int : Json → ℤ → Option ℤ
unfolding in_range
decode_int null old = some old
decode_int (num z) old = if in_range z then some z else none
decode_int _ old = none

-- A pointer field: null makes it nil, and an object is read into what it points at.
unfoldable pub decode_pointer {ℓ} :
    {A : Type ℓ} → A → (Json → A → Option A) → Json → Option A → Option (Option A)
decode_pointer zero_value read null old = some none
decode_pointer zero_value read v none = bind (read v zero_value) (λ b. some (some b))
decode_pointer zero_value read v (some a) = bind (read v a) (λ b. some (some b))

-- `map[string]string`
pub decode_entry : Str → Json → Dict Str Str → Option (Dict Str Str)
decode_entry k v d = bind (decode_str v []) (λ s. some (insert k s d))

unfoldable pub decode_map : Json → Dict Str Str → Option (Dict Str Str)
unfolding decode_entry decode_fields
decode_map null d = some []
decode_map (obj fs) d = decode_fields decode_entry fs d
decode_map _ d = none

abbrev netdev_zero : NetdevConfig
netdev_zero = record {
  kind = [];
  interface_name = [];
  mtu = pos 0;
  parent = [];
  mode = [];
  vf_index = pos 0;
  host_device = [];
  pkey = pos 0;
}

netdev_field : Str → Json → NetdevConfig → Option NetdevConfig
unfolding lit
netdev_field k v c =
    if matches k (lit "kind")
    then bind (decode_str v c.kind) (λ x. some (record c { kind = x }))
    else if matches k (lit "interfaceName")
    then bind (decode_str v c.interface_name) (λ x. some (record c { interface_name = x }))
    else if matches k (lit "mtu")
    then bind (decode_int v c.mtu) (λ x. some (record c { mtu = x }))
    else if matches k (lit "parent")
    then bind (decode_str v c.parent) (λ x. some (record c { parent = x }))
    else if matches k (lit "mode")
    then bind (decode_str v c.mode) (λ x. some (record c { mode = x }))
    else if matches k (lit "vfIndex")
    then bind (decode_int v c.vf_index) (λ x. some (record c { vf_index = x }))
    else if matches k (lit "hostDevice")
    then bind (decode_str v c.host_device) (λ x. some (record c { host_device = x }))
    else if matches k (lit "pkey")
    then bind (decode_int v c.pkey) (λ x. some (record c { pkey = x }))
    else some c

unfoldable pub decode_netdev : Json → NetdevConfig → Option NetdevConfig
unfolding netdev_field decode_object
decode_netdev = decode_object netdev_field

rdma_field : Str → Json → RdmaConfig → Option RdmaConfig
unfolding lit
rdma_field k v c =
    if matches k (lit "preferDevice")
    then bind (decode_str v c.prefer_device) (λ x. some (record c { prefer_device = x }))
    else some c

unfoldable pub decode_rdma : Json → RdmaConfig → Option RdmaConfig
unfolding rdma_field decode_object
decode_rdma = decode_object rdma_field

abbrev rdma_zero : RdmaConfig
rdma_zero = record { prefer_device = [] }

combo_field : Str → Json → ComboConfig → Option ComboConfig
unfolding lit
combo_field k v c =
    if matches k (lit "rdma")
    then bind (decode_rdma v c.rdma) (λ x. some (record c { rdma = x }))
    else if matches k (lit "netdev")
    then bind (decode_netdev v c.netdev) (λ x. some (record c { netdev = x }))
    else some c

unfoldable pub decode_combo : Json → ComboConfig → Option ComboConfig
unfolding combo_field decode_object
decode_combo = decode_object combo_field

abbrev combo_zero : ComboConfig
combo_zero = record { rdma = rdma_zero; netdev = netdev_zero }

config_field : Str → Json → DeviceConfig → Option DeviceConfig
unfolding lit decode_pointer
config_field k v c =
    if matches k (lit "type")
    then bind (decode_str v c.typ) (λ x. some (record c { typ = x }))
    else if matches k (lit "netdev")
    then bind (decode_pointer netdev_zero decode_netdev v c.netdev)
        (λ x. some (record c { netdev = x }))
    else if matches k (lit "rdma")
    then bind (decode_pointer rdma_zero decode_rdma v c.rdma) (λ x. some (record c { rdma = x }))
    else if matches k (lit "combo")
    then bind (decode_pointer combo_zero decode_combo v c.combo)
        (λ x. some (record c { combo = x }))
    else some c

abbrev config_zero : DeviceConfig
config_zero = record { typ = []; netdev = none; rdma = none; combo = none }

-- `json.Unmarshal(raw, &parsed)` into a new `DeviceConfig`; `none` is an error.
unfoldable pub decode_config : Content → Option DeviceConfig
unfolding config_field decode_object
decode_config (json v) = decode_object config_field v config_zero
decode_config (text s) = none

abbrev allocation_zero : AllocationInfo
allocation_zero = record { typ = []; kind = []; claim_uid = []; device_name = []; metadata = [] }

allocation_field : Str → Json → AllocationInfo → Option AllocationInfo
unfolding lit
allocation_field k v a =
    if matches k (lit "type")
    then bind (decode_str v a.typ) (λ x. some (record a { typ = x }))
    else if matches k (lit "kind")
    then bind (decode_str v a.kind) (λ x. some (record a { kind = x }))
    else if matches k (lit "claimUID")
    then bind (decode_str v a.claim_uid) (λ x. some (record a { claim_uid = x }))
    else if matches k (lit "deviceName")
    then bind (decode_str v a.device_name) (λ x. some (record a { device_name = x }))
    else if matches k (lit "metadata")
    then bind (decode_map v a.metadata) (λ x. some (record a { metadata = x }))
    else some a

-- `json.Unmarshal(data, &alloc)` into a new `AllocationInfo`.
unfoldable pub decode_allocation : Content → Option AllocationInfo
unfolding allocation_field decode_object
decode_allocation (json v) = decode_object allocation_field v allocation_zero
decode_allocation (text s) = none

-- A Go string, as it is written.
abbrev text_json : Str → Json
text_json s = str (coerce_utf8 s)

encode_map : Dict Str Str → Fields
encode_map [] = end
encode_map ((k, v) ∷ d) = field (coerce_utf8 k) (text_json v) (encode_map d)

-- `json.MarshalIndent(alloc, "", "  ")`
unfoldable pub encode_allocation : AllocationInfo → Content
unfolding encode_map lit
encode_allocation a = json (
    obj (
      field (lit "type") (text_json a.typ) (
        field (lit "kind") (text_json a.kind) (
          field (lit "claimUID") (text_json a.claim_uid) (
            field (lit "deviceName") (text_json a.device_name)
              (field (lit "metadata") (obj (encode_map a.metadata)) end))))))
