-- ===== src/Driver/Store/Transparent.antt =====
-- A driver that starts beside files that mirror an earlier driver's allocations
-- (pkg/driver/driver.go).
use dra_multi_things.Base.{
  ◌≡◌, ◌≢◌, refl, sym, ap, ◌∙◌, Str, str_eq, take, length, leb, true, [], ◌∷◌, some, none, inl, inr,
  ◌⊎◌, Bool-cases, Option-cases, arith,
}
use dra_multi_things.Base.Dict.{Dict, lookup, lookup-nil, lookup-insert}
use dra_multi_things.Driver.Codec.{encode_allocation, decode_allocation}
use dra_multi_things.Driver.Codec.RoundTrip.{decode_allocation-encode_allocation}
use dra_multi_things.Driver.Store.{
  can_list, glob_files, cdi_dir, Driver, DriverState, is_state_file, state_path, restore_file,
  restore_files, restore_allocations, new,
}
use dra_multi_things.Driver.Store.Mirror.{Mirrors}
use dra_multi_things.Driver.Store.Paths.{NoSeparator, NoSeparator-NoSlash}
use dra_multi_things.Driver.Store.Restore.{claim_in, claim_of}
use dra_multi_things.Driver.Store.Sidecar.{started, restores}
use dra_multi_things.Handler.{AllocationInfo}
use dra_multi_things.System.Errors.{Error}
use dra_multi_things.System.Netlink.{Netlink}
use dra_multi_things.System.Os.{stats, Os, writes, reads, Content, read_file}
use dra_multi_things.System.World.{World}

module _ (k : Str) where
  restore_file-other :
      (x : Error ⊎ Content) (acc : Dict Str AllocationInfo)
      → (k ≢ [] → claim_in x ≢ k)
      → lookup k (restore_file x acc) ≡ lookup k acc
  unfolding restore_file
  restore_file-other (inl e) acc n = refl
  restore_file-other (inr c) acc n = elim (Option-cases (decode_allocation c)) [
    | inl q ↦ rw (q, restore_file) refl
    | inr (b, q) ↦ elim (str_eq.dec b.claim_uid []) [
      | yes e ↦ rw (q, restore_file) (ground arith)
      | no ne ↦
          let other : b.claim_uid ≢ k = λ e. n (λ z. ne (e ∙ z)) (ap claim_of q ∙ e) in
          rw (q, restore_file) (ground (arith, lookup-insert k b.claim_uid b acc, other))
    ]
  ]

  restore_files-other :
      (name : Str) (os : Os) (files : Dict Str Content) (acc : Dict Str AllocationInfo)
      → ((q : Str) → is_state_file name q ≡ true → k ≢ [] → claim_in (read_file os q) ≢ k)
      → lookup k (restore_files name os files acc) ≡ lookup k acc
  unfolding restore_files
  restore_files-other name os [] acc n = refl
  restore_files-other name os ((q, c) ∷ files) acc n = elim (Bool-cases (is_state_file name q)) [
    | inl m ↦
        rw m
          (restore_files-other name os files _ n ∙ restore_file-other (read_file os q) acc (n q m))
    | inr m ↦ rw m (restore_files-other name os files acc n)
  ]

module _ {N : Netlink} (dr : Driver N) (U : Str → Type 0)
    (long : (x : Str) → U x → (leb 8 (length x) ≡ true) × NoSeparator (take 8 x))
    (apart : (x y : Str) → U x → U y → take 8 x ≡ take 8 y → x ≡ y) (A : Dict Str AllocationInfo)
    (w : World N) (m : Mirrors dr.driver_name U long apart A w.os) where
  -- What a file that the driver restores from holds.
  claims :
      (q : Str)
      → is_state_file dr.driver_name q ≡ true
      → (claim_in (read_file w.os q) ≡ [])
        ⊎ ((v : Str) × ((b : AllocationInfo) × ((q ≡ state_path dr.driver_name (take 8 v))
                × ((lookup v A ≡ some b) × (claim_in (read_file w.os q) ≡ v)))))
  unfolding read_file
  claims q i = elim (Option-cases (lookup q w.os.files)) [
    | inl n ↦ inl (ground (arith, m.obeys reads q))
    | inr (c, l) ↦
        let (v, (b, (e, k))) = m.only q c i l in
        let (u, (claimed, (distinct, saved))) = m.held v b k in
        let held : some c ≡ some (encode_allocation b) =
          sym l ∙ ap (λ x. lookup x w.os.files) e ∙ saved in
        let same : c ≡ encode_allocation b = cc in
        let found : read_file w.os q ≡ inr c = ground (arith, m.obeys reads q) in
        let claim : claim_in (read_file w.os q) ≡ v =
          ap claim_in found
          ∙ ap (λ x. claim_of (decode_allocation x)) same
          ∙ ap claim_of (decode_allocation-encode_allocation b distinct.1 distinct.0)
          ∙ claimed in
        inr (v, (b, (e, (k, claim))))
  ]

  -- A file for a claim is that of the claim, which has an allocation.
  claim-held :
      (q k : Str)
      → is_state_file dr.driver_name q ≡ true
      → k ≢ []
      → claim_in (read_file w.os q) ≡ k
      → (q ≡ state_path dr.driver_name (take 8 k)) × (lookup k A ≢ none)
  claim-held q k i ne z = elim (claims q i) [
    | inl n ↦ absurd (ne (sym z ∙ n))
    | inr (v, (b, (e, (l, c)))) ↦
        let same : v ≡ k = sym c ∙ z in
        (
          e ∙ ap (λ x. state_path dr.driver_name (take 8 x)) same,
          λ n.
              let none_some : none ≡ some b = sym n ∙ ap (λ x. lookup x A) (sym same) ∙ l in
              absurd (ground arith),
        )
  ]

  not_empty : (k : Str) → U k → k ≢ []
  not_empty k u e = let l = (long k u).0 in absurd (ground arith)

  can : can_list w.os ≡ true
  unfolding can_list
  can = ground (arith, m.obeys stats cdi_dir, m.obeys reads cdi_dir)

  -- A driver that restores from the files tracks what they mirror, if it tracks nothing else.
  pub restore_allocations-same :
      (d : DriverState N)
      → d.world ≡ w
      → ((k : Str) → lookup k A ≡ none → lookup k d.allocations ≡ none)
      → (k : Str) → lookup k (restore_allocations dr.driver_name d).allocations ≡ lookup k A
  unfolding restore_allocations glob_files
  restore_allocations-same d e h k = elim (Option-cases (lookup k A)) [
    | inl n ↦
        restore_files-other k dr.driver_name d.world.os (glob_files d.world.os) d.allocations
          (λ q i ne. rw e (λ z. (claim-held q k i ne z).1 n))
        ∙ (h k n ∙ sym n)
    | inr (a, l) ↦
        let (u, (claimed, (distinct, saved))) = m.held k a l in
        restores dr k a d claimed distinct ((long k u).0, λ _. rw e saved) (rw e can)
          (NoSeparator-NoSlash (take 8 k) (long k u).1)
          (rw e (m.obeys writes (state_path dr.driver_name (take 8 k))))
          (rw e (m.obeys reads (state_path dr.driver_name (take 8 k))))
          (λ q ne i. rw e (λ z. ne (claim-held q k i (not_empty k u) z).0))
        ∙ sym l
  ]

  pub started-Mirrors : (k : Str) → lookup k (started dr w).allocations ≡ lookup k A
  unfolding new
  started-Mirrors = restore_allocations-same (new w) refl (λ k n. lookup-nil {V = AllocationInfo} k)
