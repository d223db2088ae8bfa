-- ===== src/Base/Numeral.antt =====
-- The verbs of package fmt that the program uses on numbers, `%d` and `%04x`, and `strconv.Atoi`.
use Prim.Native.Nat.{ℕ, zero, suc, ◌+◌, ◌-◌, ◌*◌, ◌/◌, ◌%◌, ◌^◌, ◌<◌}
use dra_multi_things.Base.Int.{ℤ, pos, negsuc}
use dra_multi_things.Base.Text.{Str, ltb, leb, nat_eq, ◌==◌, if◌then◌else◌}
use mathlib.Core.Bool.{Bool, true, false, ◌&&◌}
use mathlib.Core.List.{[], ◌∷◌, ◌++◌}
use mathlib.Core.Option.{Option, none, some}
use mathlib.Core.Path.{◌≡◌}
use native.Mathlib.Omega.{arith}

-- The digit of a value below 16, in lower case.
unfoldable pub digit : ℕ → ℕ
digit d = if ltb d 10 then d + b'0' else d + 87

-- The digits of `n`, on fuel; `suc n` rounds are enough.
unfoldable pub digits : ℕ → ℕ → ℕ → Str
unfolding digit
digits base zero n = []
digits base (suc fuel) n =
    let more = digits base fuel (n / base) ++ (digit (n % base) ∷ []) in
    if ltb n base then digit n ∷ [] else more

unfoldable pub render : ℕ → ℕ → Str
unfolding digits
render base n = digits base (suc n) n

-- `%d` of a number that is not negative.
unfoldable pub decimal : ℕ → Str
unfolding render
decimal = render 10

-- How many bytes a text lacks to a width.
abbrev gap : ℕ → Str → ℕ
gap zero s = 0
gap (suc w) [] = suc w
gap (suc w) (c ∷ s) = gap w s

abbrev zeros : ℕ → Str → Str
zeros zero s = s
zeros (suc n) s = b'0' ∷ zeros n s

-- `%04x` of an int: four digits at least, or a sign and three.
unfoldable pub hex4 : ℤ → Str
unfolding render
hex4 (pos n) = let s = render 16 n in zeros (gap 4 s) s
hex4 (negsuc n) = let s = render 16 (suc n) in b'-' ∷ zeros (gap 3 s) s

-- The value of a text of decimal digits, after those read so far; `none` at any other byte.
unfoldable pub digits_value : ℕ → Str → Option ℕ
digits_value acc [] = some acc
digits_value acc (c ∷ s) =
    let rest = digits_value (acc * 10 + (c - b'0')) s in
    if leb b'0' c && leb c b'9' then rest else none

-- The digits of a number that is not empty.
abbrev unsigned : Str → Option ℕ
unsigned [] = none
unsigned (c ∷ s) = digits_value 0 (c ∷ s)

abbrev negated : ℕ → ℤ
negated zero = pos zero
negated (suc n) = negsuc n

-- The range of an int64: an error outside of it.
abbrev in_range : Bool → Option ℕ → Option ℤ
in_range negative none = none
in_range true (some n) = if leb n (2 ^ 63) then some (negated n) else none
in_range false (some n) = if ltb n (2 ^ 63) then some (pos n) else none

-- `strconv.Atoi`: an optional sign and decimal digits.
unfoldable pub atoi : Str → Option ℤ
unfolding digits_value
atoi [] = none
atoi (c ∷ s) =
    if c == b'-'
    then in_range true (unsigned s)
    else if c == b'+'
    then in_range false (unsigned s)
    else in_range false (unsigned (c ∷ s))

in_range-lt : (b : Bool) (o : Option ℕ) (n : ℕ) → in_range b o ≡ some (pos n) → n < 2 ^ 63
in_range-lt b none n h = cc
in_range-lt true (some zero) n h = ground arith
in_range-lt true (some (suc m)) n h = ground arith
in_range-lt false (some m) n h = ground arith

-- A number that is read is below 2 ^ 63.
pub atoi-lt : (s : Str) (n : ℕ) → atoi s ≡ some (pos n) → n < 2 ^ 63
unfolding atoi
atoi-lt [] n h = cc
atoi-lt (c ∷ s) n h = ground (
  arith,
  in_range-lt true (unsigned s) n,
  in_range-lt false (unsigned s) n,
  in_range-lt false (unsigned (c ∷ s)) n,
)
