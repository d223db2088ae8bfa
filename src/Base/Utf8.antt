-- ===== src/Base/Utf8.antt =====
-- UTF-8, as unicode/utf8 reads it: what `encoding/json` does to a text that is not valid.
use Prim.Native.Nat.{ℕ, zero, suc}
use dra_multi_things.Base.Text.{Str, nat_eq, ◌==◌, leb, if◌then◌else◌}
use mathlib.Core.Bool.{Bool, true, false, ◌&&◌}
use mathlib.Core.List.{[], ◌∷◌}
use mathlib.Core.Path.{◌≡◌, refl, ap}
use native.Mathlib.Omega.{arith}

abbrev between : ℕ → ℕ → ℕ → Bool
between lo hi b = leb lo b && leb b hi

-- The second bytes that a first byte accepts: `acceptRanges`.
abbrev accepts : ℕ → ℕ → Bool
accepts a b =
    between (if a == 224 then 160 else if a == 240 then 144 else 128)
      (if a == 237 then 159 else if a == 244 then 143 else 191) b

-- Of two, three and four bytes; 0 stands for an encoding that is not valid.
abbrev size_2 : ℕ → Str → ℕ
size_2 a [] = 0
size_2 a (b ∷ s) = if accepts a b then 2 else 0

abbrev size_3 : ℕ → Str → ℕ
size_3 a (b ∷ c ∷ s) = if accepts a b && between 128 191 c then 3 else 0
size_3 a _ = 0

abbrev size_4 : ℕ → Str → ℕ
size_4 a (b ∷ c ∷ d ∷ s) = if accepts a b && (between 128 191 c && between 128 191 d) then 4 else 0
size_4 a _ = 0

-- How many bytes the first rune of `a ∷ s` has.
unfoldable pub rune_size : ℕ → Str → ℕ
rune_size a s =
    if leb a 127
    then 1
    else if between 194 223 a
    then size_2 a s
    else if between 224 239 a
    then size_3 a s
    else if between 240 244 a
    then size_4 a s
    else 0

-- `utf8.ValidString` behind `n` bytes that belong to a rune.
unfoldable pub valid_after : ℕ → Str → Bool
unfolding rune_size
valid_after n [] = true
valid_after (suc n) (a ∷ s) = valid_after n s
valid_after zero (a ∷ s) = elim (rune_size a s) [ zero ↦ false | suc n ↦ valid_after n s ]

abbrev pub valid_string : Str → Bool
valid_string s = valid_after 0 s

-- Each byte that is not part of a valid rune becomes U+FFFD, behind `n` bytes of a rune.
unfoldable pub coerce_after : ℕ → Str → Str
unfolding rune_size
coerce_after n [] = []
coerce_after (suc n) (a ∷ s) = a ∷ coerce_after n s
coerce_after zero (a ∷ s) = elim (rune_size a s) [
  | zero ↦ 239 ∷ 191 ∷ 189 ∷ coerce_after 0 s
  | suc n ↦ a ∷ coerce_after n s
]

-- A Go string as a string of JSON.
abbrev pub coerce_utf8 : Str → Str
coerce_utf8 s = coerce_after 0 s

coerce_after-valid : (n : ℕ) (s : Str) → valid_after n s ≡ true → coerce_after n s ≡ s
unfolding valid_after coerce_after
coerce_after-valid n [] h = refl
coerce_after-valid (suc n) (a ∷ s) h = ap (λ t. a ∷ t) (coerce_after-valid n s h)
coerce_after-valid zero (a ∷ s) h = from (rune_size a s) (λ n. coerce_after-valid n s) h
  where
    from :
        (k : ℕ)
        → ((n : ℕ) → valid_after n s ≡ true → coerce_after n s ≡ s)
        → elim k [ zero ↦ false | suc n ↦ valid_after n s ] ≡ true
        → elim k [ zero ↦ 239 ∷ 191 ∷ 189 ∷ coerce_after 0 s | suc n ↦ a ∷ coerce_after n s ]
          ≡ a ∷ s
    from zero rest h = absurd (ground arith)
    from (suc n) rest h = ap (λ t. a ∷ t) (rest n h)

-- What is valid stays as it is.
pub coerce_utf8-valid : (s : Str) → valid_string s ≡ true → coerce_utf8 s ≡ s
coerce_utf8-valid = coerce_after-valid 0
