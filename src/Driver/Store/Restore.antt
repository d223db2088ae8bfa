-- ===== src/Driver/Store/Restore.antt =====
-- What `restoreAllocations` finds again (pkg/driver/driver.go).
use dra_multi_things.Base.{
  ◌∷◌, ◌≡◌, ◌≢◌, refl, ap, Str, str_eq, if◌then◌else◌, true, [], Option, none, some, ◌⊎◌, inl, inr,
  arith, Option-cases, Bool-cases,
}
use dra_multi_things.Base.Dict.{Dict, lookup, lookup-insert, lookup-nil, lookup-cons}
use dra_multi_things.Driver.Codec.{decode_allocation}
use dra_multi_things.Driver.Store.{
  DriverState, can_list, glob_files, is_state_file, restore_file, restore_files,
  restore_allocations,
}
use dra_multi_things.Handler.{AllocationInfo}
use dra_multi_things.System.Errors.{Error}
use dra_multi_things.System.Netlink.{Netlink}
use dra_multi_things.System.Os.{Os, Content, read_file}

-- The claim that a file's content is for.
abbrev pub claim_of : Option AllocationInfo → Str
claim_of none = []
claim_of (some a) = a.claim_uid

abbrev pub claim_in : Error ⊎ Content → Str
claim_in (inl e) = []
claim_in (inr c) = claim_of (decode_allocation c)

module _ (name : Str) (os : Os) (p : Str) (c : Content) (a : AllocationInfo) where
  abbrev stepped : Str → Dict Str AllocationInfo → Dict Str AllocationInfo
  stepped path acc = if is_state_file name path then restore_file (read_file os path) acc else acc

  step_self :
      (acc : Dict Str AllocationInfo)
      → is_state_file name p ≡ true
      → read_file os p ≡ inr c
      → decode_allocation c ≡ some a
      → a.claim_uid ≢ []
      → lookup a.claim_uid (stepped p acc) ≡ some a
  unfolding restore_file
  step_self acc m r q n =
      rw (m, r, q, restore_file) (ground (arith, lookup-insert a.claim_uid a.claim_uid a acc))

  restored_other :
      (x : Error ⊎ Content) (acc : Dict Str AllocationInfo)
      → claim_in x ≢ a.claim_uid
      → lookup a.claim_uid (restore_file x acc) ≡ lookup a.claim_uid acc
  unfolding restore_file
  restored_other (inl e) acc n = refl
  restored_other (inr k) acc n = elim (Option-cases (decode_allocation k)) [
    | inl q ↦ rw (q, restore_file) refl
    | inr (b, q) ↦
        rw (q, restore_file)
          (ground (arith, lookup-insert a.claim_uid b.claim_uid b acc, ap claim_of q))
  ]

  -- A file of another claim.
  stepped_other :
      (q : Str) (acc : Dict Str AllocationInfo)
      → (is_state_file name q ≡ true → claim_in (read_file os q) ≢ a.claim_uid)
      → lookup a.claim_uid (stepped q acc) ≡ lookup a.claim_uid acc
  stepped_other q acc n = elim (Bool-cases (is_state_file name q)) [
    | inl m ↦ rw m (restored_other (read_file os q) acc (n m))
    | inr m ↦ rw m refl
  ]

  -- One file holds an allocation, and no other file one for its claim.
  module _ (m : is_state_file name p ≡ true) (r : read_file os p ≡ inr c)
      (d : decode_allocation c ≡ some a) (n : a.claim_uid ≢ [])
      (u : (q : Str)
        → q ≢ p
        → is_state_file name q ≡ true
        → claim_in (read_file os q) ≢ a.claim_uid) where
    stepped_keeps :
        (q : Str) (acc : Dict Str AllocationInfo)
        → lookup a.claim_uid acc ≡ some a
        → lookup a.claim_uid (stepped q acc) ≡ some a
    stepped_keeps q acc l = elim (str_eq.dec q p) [
      | yes e ↦ rw e (step_self acc m r d n)
      | no ne ↦ rw (stepped_other q acc (u q ne)) l
    ]

    restore_files_keeps :
        (files : Dict Str Content) (acc : Dict Str AllocationInfo)
        → lookup a.claim_uid acc ≡ some a
        → lookup a.claim_uid (restore_files name os files acc) ≡ some a
    unfolding restore_files
    restore_files_keeps [] acc l = l
    restore_files_keeps ((q, k) ∷ files) acc l =
        restore_files_keeps files (stepped q acc) (stepped_keeps q acc l)

    restore_files_finds :
        (files : Dict Str Content) (acc : Dict Str AllocationInfo)
        → lookup p files ≡ some c
        → lookup a.claim_uid (restore_files name os files acc) ≡ some a
    unfolding restore_files
    restore_files_finds [] acc l = ground (arith, lookup-nil {V = Content} p)
    restore_files_finds ((q, k) ∷ files) acc l = elim (str_eq.dec q p) [
      | yes e ↦ restore_files_keeps files (stepped q acc) (rw e (step_self acc m r d n))
      | no ne ↦ restore_files_finds files (stepped q acc) (ground (arith, lookup-cons p q k files))
    ]

  lookup-read_file : read_file os p ≡ inr c → lookup p os.files ≡ some c
  unfolding read_file
  lookup-read_file r = ground arith

-- If the directory can be listed, a file that `restoreAllocations` reads holds the allocation of a claim, with a UID that is not
-- empty, and no other file that it reads holds an allocation for this claim, then the driver tracks
-- this allocation after restoring, whatever it tracked before.
pub restore_allocations-restores :
    {N : Netlink} (name : Str) (d : DriverState N) (p : Str) (c : Content) (a : AllocationInfo)
    → can_list d.world.os ≡ true
    → is_state_file name p ≡ true
    → read_file d.world.os p ≡ inr c
    → decode_allocation c ≡ some a
    → a.claim_uid ≢ []
    → ((q : Str)
        → q ≢ p
        → is_state_file name q ≡ true
        → claim_in (read_file d.world.os q) ≢ a.claim_uid)
    → lookup a.claim_uid (restore_allocations name d).allocations ≡ some a
unfolding restore_allocations glob_files
restore_allocations-restores name d p c a l m r e n u = rw l (
    restore_files_finds name d.world.os p c a m r e n u d.world.os.files d.allocations
      (lookup-read_file name d.world.os p c a r))
