-- ===== src/System/Monad.antt =====
-- Steps over a state with errors and panics, and the calls of the netlink package as such steps.
use dra_multi_things.Base.{
  ℕ, length, take, leb, if◌then◌else◌, String, Str, Bool, true, false, List, Option, none, some,
  ◌⊎◌, inl, inr,
}
use dra_multi_things.Base.Int.{ℤ}
use dra_multi_things.System.Errors.{Error, wrapf, Outcome, ok, err, panic}
use dra_multi_things.System.Netlink.{Netlink, Link}
use dra_multi_things.System.World.{World}

abbrev pub M : Type 0 → Type 0 → Type 0
M S A = S → Outcome A × S

abbrev pub pure : {S A : Type 0} → A → M S A
pure a w = (ok a, w)

abbrev pub fail : {S A : Type 0} → Error → M S A
fail e w = (err e, w)

-- The rest of a step, after an outcome.
abbrev pub then_do : {S A B : Type 0} → (A → M S B) → Outcome A → S → Outcome B × S
then_do f (ok a) w = f a w
then_do f (err e) w = (err e, w)
then_do f panic w = (panic, w)

infixl 5 ◌>>=◌ ◌>>◌
abbrev pub ◌>>=◌ : {S A B : Type 0} → M S A → (A → M S B) → M S B
◌>>=◌ m f w = let (r, w') = m w in then_do f r w'

abbrev pub ◌>>◌ : {S B : Type 0} → M S (Unit {0}) → M S B → M S B
m >> k = m >>= λ _. k

-- `if !test { return nil, e }`
abbrev pub guard : {S : Type 0} → Bool → Error → M S (Unit {0})
guard true e = pure tt
guard false e = fail e

-- The value of a pointer that is checked for nil.
abbrev pub require : {S A : Type 0} → Option A → Error → M S A
require none e = fail e
require (some a) e = pure a

abbrev pub wrapped : {S A : Type 0} → String → List Str → Outcome A → S → Outcome A × S
wrapped format args (ok a) w = (ok a, w)
wrapped format args (err e) w = (err (wrapf format args e), w)
wrapped format args panic w = (panic, w)

-- `if err != nil { return fmt.Errorf(format, args..., err) }`
abbrev pub wrap : {S A : Type 0} → String → List Str → M S A → M S A
wrap format args m w = let (r, w') = m w in wrapped format args r w'

abbrev pub cleaned : {S A : Type 0} → M S (Unit {0}) → Outcome A → S → Outcome A × S
cleaned undo (ok a) w = (ok a, w)
cleaned undo (err e) w = (err e, (undo w).1)
cleaned undo panic w = (panic, w)

-- A call whose error makes the code run `undo`, drop what `undo` returns, and fail.
abbrev pub on_error : {S A : Type 0} → M S (Unit {0}) → M S A → M S A
on_error undo m w = let (r, w') = m w in cleaned undo r w'

abbrev pub from_sum : {S A : Type 0} → Error ⊎ A → M S A
from_sum (inl e) = fail e
from_sum (inr a) = pure a

abbrev pub done : Option Error → Outcome (Unit {0})
done none = ok tt
done (some e) = err e

module _ {N : Netlink} where
  -- A call of netlink that changes the kernel's state.
  abbrev pub call : (N.State → Option Error × N.State) → M (World N) (Unit {0})
  call f w = let (e, s) = f w.net in (done e, record w { net = s })

  abbrev pub link_by_name : Str → M (World N) Link
  link_by_name n w = from_sum (N.link_by_name w.net n) w

  abbrev pub link_add : Link → M (World N) (Unit {0})
  link_add l = call (λ s. N.link_add s l)

  abbrev pub link_del : Link → M (World N) (Unit {0})
  link_del l = call (λ s. N.link_del s l)

  abbrev pub link_set_up : Link → M (World N) (Unit {0})
  link_set_up l = call (λ s. N.link_set_up s l)

  abbrev pub link_set_down : Link → M (World N) (Unit {0})
  link_set_down l = call (λ s. N.link_set_down s l)

  abbrev pub link_set_mtu : Link → ℤ → M (World N) (Unit {0})
  link_set_mtu l m = call (λ s. N.link_set_mtu s l m)

-- `s[:n]`, which panics past the end of `s`.
abbrev pub slice_to : {S : Type 0} → ℕ → Str → M S Str
slice_to n s w = if leb n (length s) then (ok (take n s), w) else (panic, w)
