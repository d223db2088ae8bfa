-- ===== src/Driver/Server/Answers.antt =====
-- The answers to the claims of one call (pkg/driver/driver.go).
use dra_multi_things.Base.{
  ◌≡◌, Str, str_eq, Bool, true, false, ◌||◌, List, [], ◌∷◌, contains, Option, none, some, inl, inr,
  arith,
}
use dra_multi_things.Base.Dict.{Dict, lookup, insert, lookup-insert}
use dra_multi_things.Driver.Claim.{ResourceClaim}
use dra_multi_things.Driver.Server.{
  ClaimResult, prepare_one, prepare_all, unprepare_one, unprepare_all,
}
use dra_multi_things.Driver.Server.Idempotent.{Outcome-cases}
use dra_multi_things.Driver.Store.{Driver, DriverState}
use dra_multi_things.System.Errors.{Error, ok}
use dra_multi_things.System.Netlink.{Netlink}

abbrev pub is_some {ℓ} : {A : Type ℓ} → Option A → Bool
is_some none = false
is_some (some a) = true

-- The UIDs of claims.
abbrev pub uids_of : List ResourceClaim → List Str
uids_of [] = []
uids_of (rc ∷ claims) = rc.uid ∷ uids_of claims

module _ {N : Netlink} (dr : Driver N) where
  pub prepare_all-answers :
      (claims : List ResourceClaim) (old : Dict Str ClaimResult) (d : DriverState N)
      {results : Dict Str ClaimResult} (k : Str)
      → (prepare_all dr claims old d).0 ≡ ok results
      → is_some (lookup k results) ≡ (contains (uids_of claims) k || is_some (lookup k old))
  unfolding prepare_all
  prepare_all-answers [] old d k h = ground arith
  prepare_all-answers (rc ∷ claims) old d {results} k h =
      elim (Outcome-cases (prepare_one dr rc d).0) [
        | inl (r, q) ↦ ground (
          arith,
          prepare_all-answers claims (insert rc.uid r old) (prepare_one dr rc d).1
              {results = results} k (rw (q, prepare_all) at h),
          lookup-insert k rc.uid r old,
        )
        | inr (inl (e, q)) ↦ absurd (ground arith)
        | inr (inr q) ↦ absurd (ground arith)
      ]

  pub unprepare_all-answers :
      (uids : List Str) (old : Dict Str (Option Error)) (d : DriverState N)
      {results : Dict Str (Option Error)} (k : Str)
      → (unprepare_all dr uids old d).0 ≡ ok results
      → is_some (lookup k results) ≡ (contains uids k || is_some (lookup k old))
  unfolding unprepare_all
  unprepare_all-answers [] old d k h = ground arith
  unprepare_all-answers (uid ∷ uids) old d {results} k h =
      elim (Outcome-cases (unprepare_one dr uid d).0) [
        | inl (r, q) ↦ ground (
          arith,
          unprepare_all-answers uids (insert uid r old) (unprepare_one dr uid d).1
              {results = results} k (rw (q, unprepare_all) at h),
          lookup-insert k uid r old,
        )
        | inr (inl (e, q)) ↦ absurd (ground arith)
        | inr (inr q) ↦ absurd (ground arith)
      ]
