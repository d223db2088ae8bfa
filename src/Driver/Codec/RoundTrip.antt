-- ===== src/Driver/Codec/RoundTrip.antt =====
-- Reading back the JSON form of an allocation that was written (pkg/driver/driver.go,
-- pkg/handler/types.go).
use dra_multi_things.Base.{
  All, true, ◌≡◌, refl, sym, ◌∙◌, ap, subst, Str, str_eq, lit, [], ◌∷◌, ◌++◌, none, some, arith,
}
use dra_multi_things.Base.Dict.{Dict, lookup, insert, NodupKeys, lookup-cons}
use dra_multi_things.Base.Utf8.{
  valid_string, coerce_utf8, coerce_after, rune_size, coerce_utf8-valid,
}
use dra_multi_things.Driver.Codec.{
  matches, decode_fields, decode_object, decode_str, decode_entry, decode_map, allocation_field,
  decode_allocation, encode_map, encode_allocation,
}
use dra_multi_things.Handler.{AllocationInfo}

lookup-append :
    (a d : Dict Str Str) (j : Str)
    → lookup j (a ++ d) ≡ (elim (lookup j a) [ none ↦ lookup j d | some v ↦ some v ])
unfolding lookup
lookup-append [] d j = refl
lookup-append ((k, v) ∷ a) d j = ground (arith, lookup-append a d j)

NodupKeys-fresh :
    (a d : Dict Str Str) (k v : Str) → NodupKeys (a ++ ((k, v) ∷ d)) → lookup k a ≡ none
unfolding lookup
NodupKeys-fresh [] d k v u = refl
NodupKeys-fresh ((j, w) ∷ a) d k v u =
    ground
      (arith, NodupKeys-fresh a d k v u.1, u.0, lookup-append a ((k, v) ∷ d) j, lookup-cons j k v d)

append_nil : (a : Dict Str Str) → a ++ [] ≡ a
append_nil [] = refl
append_nil (x ∷ a) = ap (λ t. x ∷ t) (append_nil a)

insert-fresh :
    (a d : Dict Str Str) (k v : Str) → lookup k a ≡ none → insert k v a ++ d ≡ a ++ ((k, v) ∷ d)
unfolding insert lookup
insert-fresh [] d k v h = refl
insert-fresh ((j, w) ∷ a) d k v h = ground (arith, insert-fresh a d k v)

-- A text that is valid UTF-8.
abbrev pub IsUtf8 : Str → Type 0
IsUtf8 s = valid_string s ≡ true

abbrev UtfEntry : Str × Str → Type 0
UtfEntry e = IsUtf8 e.0 × IsUtf8 e.1

-- Every text of the allocation is valid UTF-8.
abbrev pub IsPortable : AllocationInfo → Type 0
IsPortable a =
    IsUtf8 a.typ
    × (IsUtf8 a.kind × (IsUtf8 a.claim_uid × (IsUtf8 a.device_name × All UtfEntry a.metadata)))

twice : (s : Str) → IsUtf8 s → coerce_utf8 (coerce_utf8 s) ≡ s
twice s v = ap coerce_utf8 (coerce_utf8-valid s v) ∙ coerce_utf8-valid s v

decode_fields-encode_map :
    (d acc : Dict Str Str)
    → All UtfEntry d
    → NodupKeys (acc ++ d)
    → decode_fields decode_entry (encode_map d) acc ≡ some (acc ++ d)
unfolding decode_fields decode_entry decode_str encode_map
decode_fields-encode_map [] acc p u = ap some (sym (append_nil acc))
decode_fields-encode_map ((k, v) ∷ d) acc ((p, q), ps) u =
    let fresh = insert-fresh acc d k v (NodupKeys-fresh acc d k v u) in
    rw (twice k p, twice v q)
      (decode_fields-encode_map d (insert k v acc) ps (subst NodupKeys (sym fresh) u)
        ∙ ap some fresh)

-- Decoding the JSON form of an allocation gives the allocation back, if every text of it is valid
-- UTF-8 and no key of its metadata stands twice.
pub decode_allocation-encode_allocation :
    (a : AllocationInfo)
    → IsPortable a
    → NodupKeys a.metadata
    → decode_allocation (encode_allocation a) ≡ some a
unfolding decode_allocation encode_allocation decode_object decode_fields allocation_field
    decode_str decode_map matches lit str_eq coerce_after rune_size
decode_allocation-encode_allocation a (t, (k, (c, (n, m)))) u =
    rw
      (
        twice a.typ t,
        twice a.kind k,
        twice a.claim_uid c,
        twice a.device_name n,
        decode_fields-encode_map a.metadata [] m u,
      )
      refl
