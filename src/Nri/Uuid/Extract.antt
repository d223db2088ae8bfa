-- ===== src/Nri/Uuid/Extract.antt =====
-- What `extractClaimUIDs` finds in a pod's annotations (pkg/nri/plugin.go).
use dra_multi_things.Base.{
  nat_eq, subst, ap, ◌∙◌, ◌≡◌, refl, ℕ, zero, suc, Str, str_eq, ◌==◌, leb, length, take,
  if◌then◌else◌, lit, Bool, true, false, ◌&&◌, ◌||◌, contains, NodupStr, All, List, [], ◌∷◌, ◌++◌,
  arith, Bool-cases, inl, inr,
}
use dra_multi_things.Base.Dict.{Dict}
use dra_multi_things.Base.Strings.{has_prefix}
use dra_multi_things.Nri.Uuid.{
  is_uuid, runes_fit, rune_fits, is_hex_digit, decode_rune, scan, extract_uuids, add_new,
  claim_uids, extract_claim_uids,
}

abbrev IsUuid : Str → Type 0
IsUuid u = is_uuid u ≡ true

-- A list without repetition, all of whose texts are UUIDs.
abbrev Distinct : List Str → Type 0
Distinct uids = NodupStr uids × All IsUuid uids

scan-All : (n : ℕ) (s : Str) → All IsUuid (scan n s)
unfolding scan
scan-All zero [] = tt
scan-All (suc k) [] = tt
scan-All (suc k) (b ∷ s) = scan-All k s
scan-All zero (b ∷ s) = elim (Bool-cases (leb 36 (length (b ∷ s)) && is_uuid (take 36 (b ∷ s)))) [
  | inl q ↦ rw (q, scan) (ground arith, scan-All 35 s)
  | inr q ↦ rw (q, scan) (scan-All 0 s)
]

contains-snoc :
    (xs : List Str) (a b : Str) → contains (xs ++ (a ∷ [])) b ≡ (contains xs b || (a == b))
contains-snoc [] a b = ground arith
contains-snoc (x ∷ xs) a b = ground (arith, contains-snoc xs a b)

snoc-NodupStr :
    (xs : List Str) (a : Str) → NodupStr xs → contains xs a ≡ false → NodupStr (xs ++ (a ∷ []))
snoc-NodupStr [] a u h = (refl, tt)
snoc-NodupStr (x ∷ xs) a u h =
    (ground (arith, contains-snoc xs a x, u.0), snoc-NodupStr xs a u.1 (ground arith))

snoc-All : (xs : List Str) (a : Str) → All IsUuid xs → IsUuid a → All IsUuid (xs ++ (a ∷ []))
snoc-All [] a u h = (h, tt)
snoc-All (x ∷ xs) a u h = (u.0, snoc-All xs a u.1 h)

add_new-Distinct : (uids xs : List Str) → Distinct uids → All IsUuid xs → Distinct (add_new uids xs)
unfolding add_new
add_new-Distinct uids [] d h = d
add_new-Distinct uids (x ∷ xs) d h = elim (Bool-cases (contains uids x)) [
  | inl q ↦ rw (q, add_new) (add_new-Distinct uids xs d h.1)
  | inr q ↦
      rw (q, add_new)
        (add_new-Distinct (uids ++ (x ∷ [])) xs
          (snoc-NodupStr uids x d.0 q, snoc-All uids x d.1 h.0) h.1)
]

claim_uids-Distinct :
    (annotations : Dict Str Str) (uids : List Str)
    → Distinct uids
    → Distinct (claim_uids uids annotations)
unfolding claim_uids extract_uuids
claim_uids-Distinct [] uids d = d
claim_uids-Distinct ((key, value) ∷ annotations) uids d =
    elim (Bool-cases (has_prefix key (lit "resource.kubernetes.io/"))) [
      | inl q ↦
          rw (q, claim_uids)
            (claim_uids-Distinct annotations _
              (add_new-Distinct uids (scan 0 value) d (scan-All 0 value)))
      | inr q ↦ rw (q, claim_uids) (claim_uids-Distinct annotations uids d)
    ]

-- From whatever annotations, `extractClaimUIDs` gives texts that `isUUID` accepts, and none twice.
pub extract_claim_uids-Distinct :
    (annotations : Dict Str Str)
    → NodupStr (extract_claim_uids annotations)
      × All (λ u. is_uuid u ≡ true) (extract_claim_uids annotations)
unfolding extract_claim_uids
extract_claim_uids-Distinct annotations = claim_uids-Distinct annotations [] (tt, tt)

-- The scan skips what is left of a UUID that it has found.
scan-skip : (xs s : Str) → scan (length xs) (xs ++ s) ≡ scan 0 s
unfolding scan
scan-skip [] s = refl
scan-skip (x ∷ xs) s = scan-skip xs s

take-append : (xs s : Str) → take (length xs) (xs ++ s) ≡ xs
take-append [] s = refl
take-append (x ∷ xs) s = ap (λ t. x ∷ t) (take-append xs s)

length-append_ge : (xs s : Str) → leb (length xs) (length (xs ++ s)) ≡ true
length-append_ge [] s = ground arith
length-append_ge (x ∷ xs) s = ground (arith, length-append_ge xs s)

no_zero : zero ≡ 36 → ⊥
no_zero h = omega arith

pred_36 : (n : ℕ) → suc n ≡ 36 → n ≡ 35
pred_36 n h = omega arith

test_36 : (n : ℕ) (b : Bool) → (if n == 36 then b else false) ≡ true → n ≡ 36
test_36 n b h = ground arith

is_uuid-length : (u : Str) → is_uuid u ≡ true → length u ≡ 36
unfolding is_uuid
is_uuid-length u h = test_36 (length u) (runes_fit 0 0 u) h

scan-hit :
    (b : ℕ) (s : Str)
    → leb 36 (length (b ∷ s)) ≡ true
    → is_uuid (take 36 (b ∷ s)) ≡ true
    → scan 0 (b ∷ s) ≡ take 36 (b ∷ s) ∷ scan 35 s
unfolding scan
scan-hit b s p q = rw (p, q, scan) refl

scan-uuid : (u s : Str) → is_uuid u ≡ true → scan 0 (u ++ s) ≡ u ∷ scan 0 s
scan-uuid [] s h = absurd (no_zero (is_uuid-length [] h))
scan-uuid (b ∷ u) s h =
    let n : length u ≡ 35 = pred_36 (length u) (is_uuid-length (b ∷ u) h) in
    let candidate : take 35 (u ++ s) ≡ u = subst (λ k. take k (u ++ s) ≡ u) n (take-append u s) in
    let skipped = subst (λ k. scan k (u ++ s) ≡ scan 0 s) n (scan-skip u s) in
    let enough =
      subst (λ k. leb k (length (b ∷ (u ++ s))) ≡ true) (is_uuid-length (b ∷ u) h)
        (length-append_ge (b ∷ u) s) in
    scan-hit b (u ++ s) enough (ap (λ t. is_uuid (b ∷ t)) candidate ∙ h)
    ∙ ap (λ t. (b ∷ t) ∷ scan 35 (u ++ s)) candidate
    ∙ ap (λ t. (b ∷ u) ∷ t) skipped

comma-no_uuid : (s : Str) → is_uuid (take 36 (b',' ∷ s)) ≡ false
unfolding is_uuid runes_fit rune_fits is_hex_digit decode_rune nat_eq
comma-no_uuid s = ground arith

scan-comma : (s : Str) → scan 0 (b',' ∷ s) ≡ scan 0 s
unfolding scan
scan-comma s = ground (arith, comma-no_uuid s)

-- The kubelet's form of an annotation's value, UUIDs after one another with a comma between, is
-- read UUID by UUID, whatever follows the comma.
pub extract_uuids-comma :
    (u s : Str) → is_uuid u ≡ true → extract_uuids (u ++ (b',' ∷ s)) ≡ u ∷ extract_uuids s
unfolding extract_uuids
extract_uuids-comma u s h = scan-uuid u (b',' ∷ s) h ∙ ap (λ t. u ∷ t) (scan-comma s)
