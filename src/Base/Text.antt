-- ===== src/Base/Text.antt =====
-- Go strings as the lists of their bytes, with the tests that the program makes on them.
use Prim.Native.Char.{code}
use Prim.Native.Nat.{ℕ, compare, Ordering}
use Prim.Native.String.{String}
use mathlib.Core.Bool.{Bool, true, false, cond}
use mathlib.Core.List.{List, [], ◌∷◌}
use mathlib.Core.Logic.{◌⊎◌, inl, inr, ite}
use mathlib.Core.Path.{◌≡◌, refl}
use native.Mathlib.Decide.{ℕ_discrete}

-- A Go string: its bytes.
abbrev pub Str : Type 0
Str = List ℕ

codes : String → Str
codes String.[] = []
codes (String.◌∷◌ c s) = code c ∷ codes s

-- A literal of the source. All of them are ASCII, so that code points are bytes.
unfoldable pub lit : String → Str
unfolding codes
lit s = codes s

infix 1 if◌then◌else◌
abbrev pub if◌then◌else◌ {ℓ} : {A : Type ℓ} → Bool → A → A → A
if b then x else y = cond b x y

abbrev pub ltb : ℕ → ℕ → Bool
ltb a b = elim (compare a b) [ Ordering.lt ↦ true | _ ↦ false ]

abbrev pub leb : ℕ → ℕ → Bool
leb a b = elim (compare a b) [ Ordering.gt ↦ false | _ ↦ true ]

-- Types with Go's `==`.
pub record Eq {ℓ} (A : Type ℓ) : Type ℓ where
  pub dec : Discrete A

infix 50 ◌==◌
abbrev pub ◌==◌ {ℓ} : {A : Type ℓ} ⦃e : Eq A⦄ → A → A → Bool
◌==◌ ⦃e⦄ a b = ite (e.dec a b) true false

str_dec : Discrete Str
unfolding ℕ_discrete
str_dec = hlevel ℕ_discrete

-- Shut in proofs, where a split on `s == t` yields the equation or its negation.
instance unfoldable pub str_eq : Eq Str
unfolding str_dec
str_eq = record { dec = str_dec }

instance unfoldable pub nat_eq : Eq ℕ
unfolding ℕ_discrete
nat_eq = record { dec = ℕ_discrete }

pub Bool-cases : (b : Bool) → (b ≡ true) ⊎ (b ≡ false)
Bool-cases true = inl refl
Bool-cases false = inr refl

-- `contains xs a`: the text is in the list.
abbrev pub contains : List Str → Str → Bool
contains [] a = false
contains (x ∷ xs) a = cond (x == a) true (contains xs a)

-- No text stands twice in the list.
abbrev pub NodupStr : List Str → Type 0
NodupStr [] = Unit
NodupStr (x ∷ xs) = (contains xs x ≡ false) × NodupStr xs
