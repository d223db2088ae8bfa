-- ===== src/System/Errors.antt =====
-- Go errors as values, and the three ways in which a call can end.
use dra_multi_things.Base.{Bool, true, false, String, Str, List}

-- An error of a package that is not modelled, or `fmt.Errorf` with its format and arguments, or
-- with a wrapped error for `%w`.
pub data Error : Type 0 where
  system : Str → Error
  errorf : String → List Str → Error
  wrapf : String → List Str → Error → Error
  -- `%v` of a slice of two errors.
  both : String → Error → Error → Error

-- A value, an error, or a run-time panic.
pub data Outcome {ℓ} (A : Type ℓ) : Type ℓ where
  ok : A → Outcome A
  err : Error → Outcome A
  panic : Outcome A

abbrev pub is_err {ℓ} : {A : Type ℓ} → Outcome A → Bool
is_err (ok a) = false
is_err (err e) = true
is_err panic = false
