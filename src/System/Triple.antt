-- ===== src/System/Triple.antt =====
-- Pre- and postconditions of steps: from a state with `P`, a value leaves a state with `Q`, an
-- error one with `E`, and a panic only where `X` holds. One rule for each combinator.
use dra_multi_things.Base.{
  ℕ, Str, String, List, Bool, true, false, Option, none, some, ◌≡◌, refl, leb, length, take,
  if◌then◌else◌, subst,
}
use dra_multi_things.System.Errors.{Error, Outcome, ok, err, panic}
use dra_multi_things.System.Monad.{
  M, pure, then_do, ◌>>=◌, guard, require, wrapped, wrap, cleaned, on_error, slice_to,
}

abbrev pub Post : {S A : Type 0} → (A → S → Type 0) → (S → Type 0) → Type 0 → Outcome A → S → Type 0
Post Q E X (ok a) w = Q a w
Post Q E X (err e) w = E w
Post Q E X panic w = X

pub record Triple {S A : Type 0} (P : S → Type 0) (m : M S A) (Q : A → S → Type 0) (E : S → Type 0)
    (X : Type 0) : Type 0 where
  pub holds : (w : S) → P w → Post Q E X (m w).0 (m w).1

module _ {S A : Type 0} {Q : A → S → Type 0} {E : S → Type 0} {X : Type 0} where
  then-Post :
      {B : Type 0} {R : B → S → Type 0} (f : A → M S B) (r : Outcome A) (w : S)
      → ((a : A) → Triple (Q a) (f a) R E X)
      → Post Q E X r w
      → Post R E X (then_do f r w).0 (then_do f r w).1
  then-Post f (ok a) w h p = (h a).holds w p
  then-Post f (err e) w h p = p
  then-Post f panic w h p = p

module _ {S A : Type 0} (Q : A → S → Type 0) (E : S → Type 0) (X : Type 0) where
  wrapped-Post :
      (format : String) (args : List Str) (r : Outcome A) (w : S)
      → Post Q E X r w
      → Post Q E X (wrapped format args r w).0 (wrapped format args r w).1
  wrapped-Post f l (ok a) w p = p
  wrapped-Post f l (err e) w p = p
  wrapped-Post f l panic w p = p

  cleaned-Post :
      (F : S → Type 0) (undo : M S (Unit {0})) (r : Outcome A) (w : S)
      → ((v : S) → F v → E (undo v).1)
      → Post Q F X r w
      → Post Q E X (cleaned undo r w).0 (cleaned undo r w).1
  cleaned-Post F undo (ok a) w h p = p
  cleaned-Post F undo (err e) w h p = h w p
  cleaned-Post F undo panic w h p = p

module _ {S A : Type 0} {P : S → Type 0} {Q : A → S → Type 0} {E : S → Type 0} {X : Type 0} where
  pub bind :
      {B : Type 0} {R : B → S → Type 0} {m : M S A} {f : A → M S B}
      → Triple P m Q E X
      → ((a : A) → Triple (Q a) (f a) R E X)
      → Triple P (m >>= f) R E X
  bind {m} {f} h k = record { holds = λ w p. then-Post f (m w).0 (m w).1 k (h.holds w p) }

  pub wrap_rule :
      (format : String) (args : List Str) {m : M S A}
      → Triple P m Q E X
      → Triple P (wrap format args m) Q E X
  wrap_rule format args {m} h = record {
    holds = λ w p. wrapped-Post Q E X format args (m w).0 (m w).1 (h.holds w p);
  }

  pub on_error_rule :
      {F : S → Type 0} (undo : M S (Unit {0})) {m : M S A}
      → Triple P m Q F X
      → ((v : S) → F v → E (undo v).1)
      → Triple P (on_error undo m) Q E X
  on_error_rule {F} undo {m} h k = record {
    holds = λ w p. cleaned-Post Q E X F undo (m w).0 (m w).1 k (h.holds w p);
  }

  pub pure_rule : (a : A) → ((w : S) → P w → Q a w) → Triple P (pure a) Q E X
  pure_rule a h = record { holds = h }

  -- A fact that the precondition carries along and that does not speak of the state.
  pub assuming : {C : Type 0} {m : M S A} → (C → Triple P m Q E X) → Triple (λ w. P w × C) m Q E X
  assuming h = record { holds = λ w p. (h p.1).holds w p.0 }

slice-Post :
    {S : Type 0} (P : S → Type 0) (b : Bool) (r : Str) (w : S)
    → P w
    → let out : Outcome Str × S = if b then (ok r, w) else (panic, w) in
      Post (λ x v. P v × (x ≡ r)) P (b ≡ false) out.0 out.1
slice-Post P true r w p = (p, refl)
slice-Post P false r w p = refl

module _ {S : Type 0} {P : S → Type 0} where
  pub require_rule :
      {X A : Type 0} (o : Option A) (e : Error)
      → Triple P (require o e) (λ a w. P w × (o ≡ some a)) P X
  require_rule none e = record { holds = λ w p. p }
  require_rule (some a) e = record { holds = λ w p. (p, refl) }

  pub guard_rule : {X : Type 0} (b : Bool) (e : Error) → Triple P (guard b e) (λ _. P) P X
  guard_rule true e = record { holds = λ w p. p }
  guard_rule false e = record { holds = λ w p. p }

  -- The one step that can panic: a slice past the end of a text.
  pub slice_to_rule :
      (n : ℕ) (s : Str)
      → Triple P (slice_to n s) (λ r w. P w × (r ≡ take n s)) P (leb n (length s) ≡ false)
  slice_to_rule n s = record { holds = λ w p. slice-Post P (leb n (length s)) (take n s) w p }

any-Post : {S A : Type 0} (r : Outcome A) (w : S) → Post (λ _ _. Unit) (λ _. Unit) Unit r w
any-Post (ok a) w = tt
any-Post (err e) w = tt
any-Post panic w = tt

module _ {S A : Type 0} where
  -- Nothing is known of a step.
  pub any_rule : {P : S → Type 0} (m : M S A) → Triple P m (λ _ _. Unit) (λ _. Unit) Unit
  any_rule m = record { holds = λ w p. any-Post (m w).0 (m w).1 }

  module _ {P : S → Type 0} {Q : A → S → Type 0} {E : S → Type 0} {X : Type 0} {m : M S A}
      (t : Triple P m Q E X) (w : S) (p : P w) where
    -- What a triple says of a value, of an error and of a panic.
    pub value_holds : {a : A} → (m w).0 ≡ ok a → Q a (m w).1
    value_holds h = subst (λ o. Post Q E X o (m w).1) h (t.holds w p)

    pub error_holds : {e : Error} → (m w).0 ≡ err e → E (m w).1
    error_holds h = subst (λ o. Post Q E X o (m w).1) h (t.holds w p)

    pub panic_holds : (m w).0 ≡ panic → X
    panic_holds h = subst (λ o. Post Q E X o (m w).1) h (t.holds w p)

module _ {S A : Type 0} {P : S → Type 0} {Q : A → S → Type 0} {E : S → Type 0} {X : Type 0} where
  pub if_rule :
      (b : Bool) {m k : M S A}
      → Triple P m Q E X
      → Triple P k Q E X
      → Triple P (if b then m else k) Q E X
  if_rule true h g = h
  if_rule false h g = g

Unit-Post :
    {S A : Type 0} (Q : A → S → Type 0) (E : S → Type 0) (X : Type 0) (o : Outcome A) (w : S)
    → Post Q E X o w
    → Post (λ _ _. Unit) (λ _. Unit) X o w
Unit-Post Q E X (ok a) w p = tt
Unit-Post Q E X (err e) w p = tt
Unit-Post Q E X panic w p = p

module _ {S A : Type 0} {P : S → Type 0} {Q : A → S → Type 0} {E : S → Type 0} {X : Type 0} where
  -- What is known of a value and of an error is forgotten.
  pub weaken : {m : M S A} → Triple P m Q E X → Triple P m (λ _ _. Unit) (λ _. Unit) X
  weaken {m} t = record { holds = λ w p. Unit-Post Q E X (m w).0 (m w).1 (t.holds w p) }

relaxed-Post :
    {S A : Type 0} (Q : A → S → Type 0) (E : S → Type 0) (X : Type 0) (o : Outcome A) (w : S)
    → Post Q E X o w
    → Post Q E Unit o w
relaxed-Post Q E X (ok a) w p = p
relaxed-Post Q E X (err e) w p = p
relaxed-Post Q E X panic w p = tt

module _ {S A : Type 0} {P : S → Type 0} {Q : A → S → Type 0} {E : S → Type 0} {X : Type 0} where
  -- What is known of a panic is forgotten.
  pub relax : {m : M S A} → Triple P m Q E X → Triple P m Q E Unit
  relax {m} t = record { holds = λ w p. relaxed-Post Q E X (m w).0 (m w).1 (t.holds w p) }

error-Post :
    {S A : Type 0} (Q : A → S → Type 0) (E F : S → Type 0) (X : Type 0) (o : Outcome A) (w : S)
    → ((v : S) → E v → F v)
    → Post Q E X o w
    → Post Q F X o w
error-Post Q E F X (ok a) w f p = p
error-Post Q E F X (err e) w f p = f w p
error-Post Q E F X panic w f p = p

module _ {S A : Type 0} {P : S → Type 0} {Q : A → S → Type 0} {E : S → Type 0} {X : Type 0} where
  -- A consequence of what is known of an error.
  pub error_rule :
      {F : S → Type 0} {m : M S A} → Triple P m Q E X → ((v : S) → E v → F v) → Triple P m Q F X
  error_rule {F} {m} t f = record {
    holds = λ w p. error-Post Q E F X (m w).0 (m w).1 f (t.holds w p);
  }
