-- ===== src/Driver/Store/Mirror.antt =====
-- The sidecar files of all claims that the driver tracks (pkg/driver/driver.go).
use dra_multi_things.Base.{
  ◌≡◌, ◌≢◌, subst, sym, ap, ◌∙◌, Str, str_eq, take, length, leb, true, false, some, none, arith,
}
use dra_multi_things.Base.Dict.{
  Dict, NodupKeys, lookup, insert, erase, lookup-insert, lookup-insert_self, lookup-erase,
}
use dra_multi_things.Driver.Codec.{encode_allocation}
use dra_multi_things.Driver.Codec.RoundTrip.{IsPortable}
use dra_multi_things.Driver.Store.{is_state_file, state_path, spec_path}
use dra_multi_things.Driver.Store.Paths.{
  NoSeparator, NoSeparator-NoSlash, state_path-IsState, spec_path-not_state, state_path_inj,
}
use dra_multi_things.Handler.{AllocationInfo}
use dra_multi_things.System.Os.{Os, Call, Content}

module _ (name : Str) (U : Str → Type 0)
    (long : (x : Str) → U x → (leb 8 (length x) ≡ true) × NoSeparator (take 8 x))
    (apart : (x y : Str) → U x → U y → take 8 x ≡ take 8 y → x ≡ y) where
  abbrev pub path_of : Str → Str
  path_of uid = state_path name (take 8 uid)

  -- The allocation is in the file of the claim, and can be read back from it.
  abbrev pub Held : Str → AllocationInfo → Os → Type 0
  Held uid a os =
      U uid
      × ((a.claim_uid ≡ uid)
          × ((NodupKeys a.metadata × IsPortable a)
              × (lookup (path_of uid) os.files ≡ some (encode_allocation a))))

  -- Each allocation is in the file of its claim, and the driver restores from no other file.
  pub record Mirrors (A : Dict Str AllocationInfo) (os : Os) : Type 0 where
    pub obeys : (c : Call) (p : Str) → os.refuses c p ≡ false
    pub held : (uid : Str) (a : AllocationInfo) → lookup uid A ≡ some a → Held uid a os
    pub only :
        (p : Str) (c : Content)
        → is_state_file name p ≡ true
        → lookup p os.files ≡ some c
        → (uid : Str) × ((a : AllocationInfo) × ((p ≡ path_of uid) × (lookup uid A ≡ some a)))

  path_of_inj : (x y : Str) → U x → U y → path_of x ≡ path_of y → x ≡ y
  path_of_inj x y u v e = apart x y u v (
      state_path_inj name (take 8 x) (take 8 y) (NoSeparator-NoSlash (take 8 x) (long x u).1)
        (NoSeparator-NoSlash (take 8 y) (long y v).1) e)

  -- A step on the files that leaves all but those of one claim.
  pub record Elsewhere (uid : Str) (s t : Os) : Type 0 where
    pub refuses : t.refuses ≡ s.refuses
    pub files :
        (q : Str)
        → q ≢ spec_path name (take 8 uid)
        → q ≢ path_of uid
        → lookup q t.files ≡ lookup q s.files

  not_spec : (uid q : Str) → U uid → is_state_file name q ≡ true → q ≢ spec_path name (take 8 uid)
  not_spec uid q u m e = let f = spec_path-not_state name (take 8 uid) (long uid u).1 in absurd cc

  other_path :
      (x y : Str) {s t : Os}
      → U x
      → U y
      → y ≢ x
      → Elsewhere x s t
      → lookup (path_of y) t.files ≡ lookup (path_of y) s.files
  other_path x y u v n f =
      f.files (path_of y)
        (not_spec x (path_of y) u
          (state_path-IsState name (take 8 y) (NoSeparator-NoSlash (take 8 y) (long y v).1)))
        (λ e. n (path_of_inj y x v u e))

  Held-Elsewhere :
      (x y : Str) (a : AllocationInfo) {s t : Os}
      → U x
      → y ≢ x
      → Elsewhere x s t
      → Held y a s
      → Held y a t
  Held-Elsewhere x y a u n f (v, (c, (k, w))) = (v, (c, (k, other_path x y u v n f ∙ w)))

  -- A claim is added with its file.
  pub insert-Mirrors :
      (A : Dict Str AllocationInfo) (s t : Os) (uid : Str) (a : AllocationInfo)
      → Mirrors A s
      → Elsewhere uid s t
      → Held uid a t
      → Mirrors (insert uid a A) t
  insert-Mirrors A s t uid a m f h = record {
    obeys = λ x p. ap (λ g. g x p) f.refuses ∙ m.obeys x p;
    held = λ v b l. elim (str_eq.dec uid v) [
      | yes e ↦
          let q : a ≡ b = ground (arith, lookup-insert v uid a A) in
          subst (λ x. Held x b t) e (subst (λ y. Held uid y t) q h)
      | no n ↦
          let k : lookup v A ≡ some b = ground (arith, lookup-insert v uid a A) in
          Held-Elsewhere uid v b h.0 (λ e. n (sym e)) f (m.held v b k)
    ];
    only = λ p c i l. elim (str_eq.dec p (path_of uid)) [
      | yes e ↦ (uid, (a, (e, lookup-insert_self uid a A)))
      | no n ↦
          let (v, (b, (e, k))) = m.only p c i (sym (f.files p (not_spec uid p h.0 i) n) ∙ l) in
          let ne : uid ≢ v = λ q. n (e ∙ ap path_of (sym q)) in
          (v, (b, (e, ground (arith, lookup-insert v uid a A, ne, k))))
    ];
  }

  -- A claim is dropped with its file.
  pub erase-Mirrors :
      (A : Dict Str AllocationInfo) (s t : Os) (uid : Str)
      → Mirrors A s
      → U uid
      → Elsewhere uid s t
      → lookup (path_of uid) t.files ≡ none
      → Mirrors (erase uid A) t
  erase-Mirrors A s t uid m u f w = record {
    obeys = λ x p. ap (λ g. g x p) f.refuses ∙ m.obeys x p;
    held = λ v b l. elim (str_eq.dec uid v) [
      | yes e ↦ absurd (ground (arith, lookup-erase v uid A))
      | no n ↦
          let k : lookup v A ≡ some b = ground (arith, lookup-erase v uid A) in
          Held-Elsewhere uid v b u (λ e. n (sym e)) f (m.held v b k)
    ];
    only = λ p c i l. elim (str_eq.dec p (path_of uid)) [
      | yes e ↦ absurd (ground (arith, ap (λ x. lookup x t.files) e))
      | no n ↦
          let (v, (b, (e, k))) = m.only p c i (sym (f.files p (not_spec uid p u i) n) ∙ l) in
          let ne : uid ≢ v = λ q. n (e ∙ ap path_of (sym q)) in
          (v, (b, (e, ground (arith, lookup-erase v uid A, ne, k))))
    ];
  }

  -- Only what the driver tracks counts, not the order in which it holds it.
  pub same-Mirrors :
      (A B : Dict Str AllocationInfo) (s : Os)
      → ((k : Str) → lookup k B ≡ lookup k A)
      → Mirrors A s
      → Mirrors B s
  same-Mirrors A B s e m = record {
    obeys = m.obeys;
    held = λ v b l. m.held v b (sym (e v) ∙ l);
    only = λ p c i l. let (v, (b, (q, k))) = m.only p c i l in (v, (b, (q, e v ∙ k)));
  }
