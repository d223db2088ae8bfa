-- ===== src/Nri/Uuid.antt =====
-- pkg/nri/plugin.go: the scanner for claim UIDs in the annotations of a pod.
pub mod Extract
use dra_multi_things.Base.{
  ℕ, zero, suc, ◌+◌, ◌-◌, ◌*◌, ◌%◌, Str, str_eq, nat_eq, ◌==◌, leb, if◌then◌else◌, lit, Bool, true,
  false, ◌&&◌, ◌||◌, List, [], ◌∷◌, ◌++◌, length, take, contains,
}
use dra_multi_things.Base.Dict.{Dict}
use dra_multi_things.Base.Strings.{has_prefix}

abbrev pub between : ℕ → ℕ → ℕ → Bool
between lo hi b = leb lo b && leb b hi

unfoldable pub is_hex_digit : ℕ → Bool
is_hex_digit c = between b'0' b'9' c || (between b'a' b'f' c || between b'A' b'F' c)

-- U+FFFD, one byte wide: what `range` yields for a byte that begins no rune.
abbrev bad : ℕ × ℕ
bad = (0xfffd, 1)

abbrev tail_byte : ℕ → Bool
tail_byte b = between 0x80 0xbf b

-- Two, three and four bytes; the bounds are those of the second byte.
decode2 : ℕ → Str → ℕ × ℕ
decode2 b [] = bad
decode2 b (b1 ∷ s) = if tail_byte b1 then ((b - 0xc0) * 64 + (b1 - 0x80), 2) else bad

decode3 : ℕ → ℕ → ℕ → Str → ℕ × ℕ
decode3 lo hi b (b1 ∷ b2 ∷ s) =
    if between lo hi b1 && tail_byte b2
    then ((b - 0xe0) * 4096 + (b1 - 0x80) * 64 + (b2 - 0x80), 3)
    else bad
decode3 lo hi b _ = bad

decode4 : ℕ → ℕ → ℕ → Str → ℕ × ℕ
decode4 lo hi b (b1 ∷ b2 ∷ b3 ∷ s) =
    if between lo hi b1 && (tail_byte b2 && tail_byte b3)
    then ((b - 0xf0) * 262144 + (b1 - 0x80) * 4096 + (b2 - 0x80) * 64 + (b3 - 0x80), 4)
    else bad
decode4 lo hi b _ = bad

-- The rune that begins with byte `b`, and its width.
unfoldable pub decode_rune : ℕ → Str → ℕ × ℕ
unfolding decode2 decode3 decode4
decode_rune b s =
    if leb b 0x7f
    then (b, 1)
    else if between 0xc2 0xdf b
    then decode2 b s
    else if b == 0xe0
    then decode3 0xa0 0xbf b s
    else if b == 0xed
    then decode3 0x80 0x9f b s
    else if between 0xe1 0xef b
    then decode3 0x80 0xbf b s
    else if b == 0xf0
    then decode4 0x90 0xbf b s
    else if b == 0xf4
    then decode4 0x80 0x8f b s
    else if between 0xf1 0xf3 b
    then decode4 0x80 0xbf b s
    else bad

abbrev pub is_dash_index : ℕ → Bool
is_dash_index i = i == 8 || (i == 13 || (i == 18 || i == 23))

-- The switch on the index of a rune.
unfoldable pub rune_fits : ℕ → ℕ → Bool
unfolding is_hex_digit nat_eq
rune_fits i c = if is_dash_index i then c == b'-' else is_hex_digit (c % 256)

-- The loop `for i, c := range s`: the first number is what is left of the rune that was read.
unfoldable pub runes_fit : ℕ → ℕ → Str → Bool
unfolding decode_rune rune_fits
runes_fit zero i [] = true
runes_fit (suc k) i [] = true
runes_fit (suc k) i (b ∷ s) = runes_fit k (suc i) s
runes_fit zero i (b ∷ s) =
    let (c, width) = decode_rune b s in
    let rest = runes_fit (width - 1) (suc i) s in if rune_fits i c then rest else false

-- `isUUID`
unfoldable pub is_uuid : Str → Bool
unfolding runes_fit
is_uuid s = if length s == 36 then runes_fit 0 0 s else false

-- The loop of `extractUUIDs`: the number is how many positions are still skipped.
unfoldable pub scan : ℕ → Str → List Str
unfolding is_uuid
scan zero [] = []
scan (suc k) [] = []
scan (suc k) (b ∷ s) = scan k s
scan zero (b ∷ s) =
    let candidate = take 36 (b ∷ s) in
    let hit = leb 36 (length (b ∷ s)) && is_uuid candidate in
    let rest = scan (if hit then 35 else 0) s in if hit then candidate ∷ rest else rest

unfoldable pub extract_uuids : Str → List Str
unfolding scan
extract_uuids = scan 0

-- The inner loop of `extractClaimUIDs`. `seen` holds the texts of `uids`.
unfoldable pub add_new : List Str → List Str → List Str
add_new uids [] = uids
add_new uids (candidate ∷ rest) =
    add_new (if contains uids candidate then uids else uids ++ (candidate ∷ [])) rest

-- The loop over the annotations.
unfoldable pub claim_uids : List Str → Dict Str Str → List Str
unfolding add_new extract_uuids lit
claim_uids uids [] = uids
claim_uids uids ((key, value) ∷ annotations) =
    claim_uids
      (if has_prefix key (lit "resource.kubernetes.io/")
        then add_new uids (extract_uuids value)
        else uids)
      annotations

unfoldable pub extract_claim_uids : Dict Str Str → List Str
unfolding claim_uids
extract_claim_uids = claim_uids []
