-- ===== src/Base/Strings.antt =====
-- The functions of package strings that the program uses.
use Prim.Native.Nat.{ℕ}
use dra_multi_things.Base.Lists.{length, drop}
use dra_multi_things.Base.Text.{Str, nat_eq, ◌==◌, leb, if◌then◌else◌}
use mathlib.Core.Bool.{Bool, true, false, ◌&&◌, ◌||◌}
use mathlib.Core.List.{[], ◌∷◌, ◌++◌, reverse}

-- `strings.HasPrefix(s, prefix)`
unfoldable pub has_prefix : Str → Str → Bool
has_prefix s [] = true
has_prefix [] (c ∷ p) = false
has_prefix (b ∷ s) (c ∷ p) = b == c && has_prefix s p

-- `strings.Contains(s, sub)`
unfoldable pub contains_str : Str → Str → Bool
unfolding has_prefix
contains_str [] sub = has_prefix [] sub
contains_str (b ∷ s) sub = has_prefix (b ∷ s) sub || contains_str s sub

-- `strings.ReplaceAll(s, old, new)` for texts of one byte.
unfoldable pub replace_byte : ℕ → ℕ → Str → Str
replace_byte old new [] = []
replace_byte old new (b ∷ s) = (if b == old then new else b) ∷ replace_byte old new s

-- `strings.Replace(s, old, new, 1)`, for an `old` that is not empty.
unfoldable pub replace_first : Str → Str → Str → Str
unfolding has_prefix
replace_first [] old new = []
replace_first (b ∷ s) old new =
    let rest = b ∷ replace_first s old new in
    if has_prefix (b ∷ s) old then new ++ drop (length old) (b ∷ s) else rest

-- The white space of ASCII: tab to carriage return, and blank.
abbrev is_space : ℕ → Bool
is_space b = (leb 9 b && leb b 13) || b == 32

unfoldable pub trim_left : Str → Str
trim_left [] = []
trim_left (b ∷ s) = let rest = trim_left s in if is_space b then rest else b ∷ s

-- `strings.TrimSpace` on ASCII.
unfoldable pub trim_space : Str → Str
unfolding trim_left
trim_space s = reverse (trim_left (reverse (trim_left s)))
