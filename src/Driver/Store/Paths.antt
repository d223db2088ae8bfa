-- ===== src/Driver/Store/Paths.antt =====
-- Where the driver keeps the files of a claim, and which of them it reads again
-- (pkg/driver/driver.go).
use dra_multi_things.Base.{
  ℕ, ◌<◌, ◌≡◌, ◌≢◌, refl, ap, sym, ◌∙◌, false, Str, str_eq, nat_eq, lit, true, List, [], ◌∷◌, ◌++◌,
  some, length, length-append, All, All-append, arith,
}
use dra_multi_things.Base.FilePath.{split_slash, clean, rooted, filepath_join}
use dra_multi_things.Base.Strings.{replace_byte, has_prefix}
use dra_multi_things.Driver.Store.{
  cdi_dir, file_name_of, file_prefix, state_path, spec_path, middle_matches, strip, is_state_file,
}

-- A text without a slash.
abbrev pub NoSlash : Str → Type 0
NoSlash s = All (λ b. b ≢ b'/') s

replace_byte-NoSlash : (s : Str) → NoSlash (replace_byte b'/' b'-' s)
unfolding replace_byte
replace_byte-NoSlash [] = tt
replace_byte-NoSlash (b ∷ s) = (ground arith, replace_byte-NoSlash s)

split_slash-NoSlash : (s : Str) → NoSlash s → split_slash s ≡ s ∷ []
unfolding split_slash
split_slash-NoSlash [] n = refl
split_slash-NoSlash (b ∷ s) (n, ns) = ground (arith, split_slash-NoSlash s ns)

append_nil : (s : Str) → s ++ [] ≡ s
append_nil [] = refl
append_nil (b ∷ s) = ap (λ t. b ∷ t) (append_nil s)

abbrev file_of : Str → List Str
file_of f = f ∷ lit "cdi" ∷ lit "etc" ∷ []

split_slash-cdi_dir :
    (f : Str)
    → NoSlash f
    → split_slash (b'/' ∷ (cdi_dir ++ (b'/' ∷ (f ++ []))))
      ≡ [] ∷ [] ∷ lit "etc" ∷ lit "cdi" ∷ f ∷ []
unfolding split_slash cdi_dir lit nat_eq
split_slash-cdi_dir f n = rw (append_nil f, split_slash-NoSlash f n) refl

clean-cdi_dir :
    (a b c : ℕ) (s : Str)
    → clean [] ([] ∷ [] ∷ lit "etc" ∷ lit "cdi" ∷ (a ∷ b ∷ c ∷ s) ∷ []) ≡ file_of (a ∷ b ∷ c ∷ s)
unfolding clean lit
clean-cdi_dir a b c s = ground arith

-- A file of the directory of CDI.
join-cdi_dir :
    (a b c : ℕ) (s : Str)
    → NoSlash (a ∷ b ∷ c ∷ s)
    → filepath_join (cdi_dir ∷ (a ∷ b ∷ c ∷ s) ∷ []) ≡ cdi_dir ++ (b'/' ∷ a ∷ b ∷ c ∷ s)
unfolding filepath_join cdi_dir lit rooted
join-cdi_dir a b c s n = rw (split_slash-cdi_dir (a ∷ b ∷ c ∷ s) n, clean-cdi_dir a b c s) refl

join-cdi_dir_long :
    (f : Str) → NoSlash f → 2 < length f → filepath_join (cdi_dir ∷ f ∷ []) ≡ cdi_dir ++ (b'/' ∷ f)
join-cdi_dir_long (a ∷ b ∷ c ∷ f) n l = join-cdi_dir a b c f n
join-cdi_dir_long (a ∷ b ∷ []) n l = absurd (omega arith)
join-cdi_dir_long (a ∷ []) n l = absurd (omega arith)
join-cdi_dir_long [] n l = absurd (omega arith)

strip-append : (p s : Str) → strip (p ++ s) p ≡ some s
strip-append [] s = refl
strip-append (c ∷ p) s = ground (arith, strip-append p s)

middle_matches-alone : middle_matches (lit ".alloc.json") ≡ true
unfolding middle_matches lit str_eq nat_eq
middle_matches-alone = refl

middle_matches-suffix : (m : Str) → NoSlash m → middle_matches (m ++ lit ".alloc.json") ≡ true
unfolding middle_matches
middle_matches-suffix [] n = middle_matches-alone
middle_matches-suffix (b ∷ m) (n, ns) = ground (arith, middle_matches-suffix m ns)

-- The dash between the driver's part of a file name and the claim's.
at_dash : (n u t : Str) → (n ++ (b'-' ∷ u)) ++ t ≡ (n ++ lit "-") ++ (u ++ t)
unfolding lit
at_dash [] u t = refl
at_dash (b ∷ n) u t = ap (λ s. b ∷ s) (at_dash n u t)

middle_matches_json_alone : middle_matches (lit ".json") ≡ false
unfolding middle_matches has_prefix lit str_eq nat_eq
middle_matches_json_alone = refl

-- A text with neither a slash nor a dot, like the first bytes of a UID.
abbrev pub NoSeparator : Str → Type 0
NoSeparator s = All (λ b. (b ≢ b'/') × (b ≢ b'.')) s

pub NoSeparator-NoSlash : (s : Str) → NoSeparator s → NoSlash s
NoSeparator-NoSlash [] n = tt
NoSeparator-NoSlash (b ∷ s) (n, ns) = (n.0, NoSeparator-NoSlash s ns)

middle_matches_json : (m : Str) → NoSeparator m → middle_matches (m ++ lit ".json") ≡ false
unfolding middle_matches lit
middle_matches_json [] n = middle_matches_json_alone
middle_matches_json (b ∷ m) (n, ns) = ground (arith, middle_matches_json m ns)

suffix-NoSlash : NoSlash (lit ".alloc.json") × NoSlash (lit ".json")
unfolding lit
suffix-NoSlash = (ground arith, ground arith)

module _ (name uid8 : Str) (n : NoSlash uid8) where
  module _ (suffix : Str) (k : NoSlash suffix) (l : 1 < length suffix) where
    file_name : Str
    file_name = file_prefix name uid8 ++ suffix

    file_name-NoSlash : NoSlash file_name
    unfolding file_name file_prefix file_name_of
    file_name-NoSlash =
        All-append _ (file_prefix name uid8) suffix
          (All-append _ (file_name_of name) (b'-' ∷ uid8) (replace_byte-NoSlash name)
            (ground arith, n))
          k

    file_name_long : 2 < length file_name
    unfolding file_name file_prefix
    file_name_long = omega (
      arith,
      length-append (file_prefix name uid8) suffix,
      length-append (file_name_of name) (b'-' ∷ uid8),
    )

    -- How the driver takes the path of a file apart.
    path-parts :
        filepath_join (cdi_dir ∷ file_name ∷ [])
        ≡ (cdi_dir ++ (b'/' ∷ (file_name_of name ++ lit "-"))) ++ (uid8 ++ suffix)
    unfolding file_name file_prefix cdi_dir lit
    path-parts =
        rw
          (
            join-cdi_dir_long file_name file_name-NoSlash file_name_long,
            at_dash (file_name_of name) uid8 suffix,
          )
          refl

    path-matches :
        is_state_file name (filepath_join (cdi_dir ∷ file_name ∷ []))
        ≡ middle_matches (uid8 ++ suffix)
    unfolding is_state_file
    path-matches =
        rw
          (
            path-parts,
            is_state_file,
            strip-append (cdi_dir ++ (b'/' ∷ (file_name_of name ++ lit "-"))) (uid8 ++ suffix),
          )
          refl

  -- The sidecar file of a claim is one that the driver reads again.
  pub state_path-IsState : is_state_file name (state_path name uid8) ≡ true
  unfolding state_path file_name lit
  state_path-IsState =
      path-matches (lit ".alloc.json") suffix-NoSlash.0 (omega arith) ∙ middle_matches-suffix uid8 n

suffix_long : 1 < length (lit ".alloc.json")
unfolding lit
suffix_long = omega arith

append_cancel : (u v s : Str) → u ++ s ≡ v ++ s → u ≡ v
append_cancel [] [] s e = refl
append_cancel [] (c ∷ v) s e =
    let l : length s ≡ length ((c ∷ v) ++ s) = ap length e in
    absurd (omega (arith, l, length-append v s))
append_cancel (b ∷ u) [] s e =
    let l : length ((b ∷ u) ++ s) ≡ length s = ap length e in
    absurd (omega (arith, l, length-append u s))
append_cancel (b ∷ u) (c ∷ v) s e = ground (arith, append_cancel u v s)

-- Claims with different bytes have different files.
pub state_path_inj :
    (name u v : Str) → NoSlash u → NoSlash v → state_path name u ≡ state_path name v → u ≡ v
unfolding state_path file_name
state_path_inj name u v n m e =
    let sfx = lit ".alloc.json" in
    let before = cdi_dir ++ (b'/' ∷ (file_name_of name ++ lit "-")) in
    let left = path-parts name u n sfx suffix-NoSlash.0 suffix_long in
    let right = path-parts name v m sfx suffix-NoSlash.0 suffix_long in
    let same : some (u ++ sfx) ≡ some (v ++ sfx) =
      sym (strip-append before (u ++ sfx))
      ∙ ap (λ p. strip p before) (sym left ∙ e ∙ right)
      ∙ strip-append before (v ++ sfx) in
    append_cancel u v sfx cc

-- The CDI spec of a claim is not.
pub spec_path-not_state :
    (name uid8 : Str) → NoSeparator uid8 → is_state_file name (spec_path name uid8) ≡ false
unfolding spec_path file_name lit
spec_path-not_state name uid8 n =
    path-matches name uid8 (NoSeparator-NoSlash uid8 n) (lit ".json") suffix-NoSlash.1 (omega arith)
    ∙ middle_matches_json uid8 n
