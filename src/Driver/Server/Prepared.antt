-- ===== src/Driver/Server/Prepared.antt =====
-- What the kubelet relies on: the driver is a set of prepared claims, which its answers determine
-- (pkg/driver/driver.go).
use dra_multi_things.Base.{
  ◌≡◌, Str, str_eq, ◌==◌, Bool, true, false, ◌&&◌, ◌||◌, not, List, [], ◌∷◌, Option, none, some,
  ◌⊎◌, inl, inr,
}
use dra_multi_things.Base.Dict.{Dict, lookup}
use dra_multi_things.Driver.Claim.{ResourceClaim}
use dra_multi_things.Driver.Codec.{decode_allocation}
use dra_multi_things.Driver.Server.{ClaimResult, devices, failed}
use dra_multi_things.Driver.Store.{is_state_file}
use dra_multi_things.Handler.{AllocationInfo}
use dra_multi_things.System.Errors.{Error}
use dra_multi_things.System.Os.{Os, Content, read_file}

abbrev pub ClaimSet : Type 0
ClaimSet = Str → Bool

-- The answers of one call.
pub data Answers : Type 0 where
  prepared : Dict Str ClaimResult → Answers
  released : Dict Str (Option Error) → Answers

-- A claim that is answered with devices is prepared, one that is answered with an error is not, and
-- any other is as before.
abbrev pub if_devices : Option ClaimResult → Bool → Bool
if_devices none old = old
if_devices (some (devices _)) old = true
if_devices (some (failed _)) old = false

-- A claim that is released without an error is not prepared, one that is not is, and any other is
-- as before.
abbrev pub if_released : Option (Option Error) → Bool → Bool
if_released none old = old
if_released (some none) old = false
if_released (some (some _)) old = true

abbrev pub after_answers : Answers → ClaimSet → ClaimSet
after_answers (prepared results) s k = if_devices (lookup k results) (s k)
after_answers (released results) s k = if_released (lookup k results) (s k)

-- A file holds an allocation for the claim.
abbrev pub is_for : Str → Option AllocationInfo → Bool
is_for k none = false
is_for k (some a) = not (a.claim_uid == []) && (a.claim_uid == k)

abbrev pub holds_claim : Error ⊎ Content → Str → Bool
holds_claim (inl _) k = false
holds_claim (inr c) k = is_for k (decode_allocation c)

-- The claims with an allocation in the files of the driver.
abbrev pub in_files : Str → Os → Dict Str Content → ClaimSet
in_files name os [] k = false
in_files name os ((path, _) ∷ files) k =
    (is_state_file name path && holds_claim (read_file os path) k) || in_files name os files k

-- A call: the claims that it adds from the files, and what it answers.
pub record Event : Type 0 where
  pub found : ClaimSet
  pub answers : Answers

abbrev pub with_found : Event → ClaimSet → ClaimSet
with_found e s k = e.found k || s k

-- The set after a sequence of calls, the latest one first.
abbrev pub replay : List Event → ClaimSet → ClaimSet
replay [] s k = s k
replay (e ∷ earlier) s k = after_answers e.answers (with_found e (replay earlier s)) k

-- Preparing takes no claim out of a set, and releasing adds none.
abbrev pub Grows : ClaimSet → ClaimSet → Type 0
Grows s t = (k : Str) → s k ≡ true → t k ≡ true

abbrev pub IsFair : Answers → ClaimSet → ClaimSet → Type 0
IsFair (prepared results) s t = Grows s t
IsFair (released results) s t = Grows t s

-- Every call of the sequence does so.
abbrev pub AllFair : List Event → ClaimSet → Type 0
AllFair [] s = Unit
AllFair (e ∷ earlier) s =
    IsFair e.answers (with_found e (replay earlier s)) (replay (e ∷ earlier) s) × AllFair earlier s

-- The two calls of the kubelet.
pub data Call : Type 0 where
  prepare : List ResourceClaim → Call
  unprepare : List Str → Call
