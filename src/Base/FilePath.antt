-- ===== src/Base/FilePath.antt =====
-- `filepath.Join` on rooted paths, and `filepath.Base`.
use Prim.Native.Nat.{ℕ}
use dra_multi_things.Base.Text.{Str, str_eq, nat_eq, ◌==◌, lit, if◌then◌else◌}
use mathlib.Core.List.{List, [], ◌∷◌, ◌++◌}

-- A byte in front of the first element.
abbrev in_first : ℕ → List Str → List Str
in_first b [] = (b ∷ []) ∷ []
in_first b (p ∷ ps) = (b ∷ p) ∷ ps

-- The elements between the slashes.
unfoldable pub split_slash : Str → List Str
split_slash [] = [] ∷ []
split_slash (b ∷ s) = let rest = split_slash s in if b == b'/' then [] ∷ rest else in_first b rest

abbrev drop_first : List Str → List Str
drop_first [] = []
drop_first (p ∷ ps) = ps

-- `filepath.Clean` on the elements of a rooted path; the kept ones are held last first.
unfoldable pub clean : List Str → List Str → List Str
unfolding lit
clean kept [] = kept
clean kept (p ∷ ps) =
    clean
      (if p == []
        then kept
        else if p == lit "."
        then kept
        else if p == lit ".."
        then drop_first kept
        else p ∷ kept)
      ps

-- The path of elements held last first.
unfoldable pub rooted : List Str → Str
rooted [] = []
rooted (p ∷ ps) = rooted ps ++ (b'/' ∷ p)

abbrev joined : List Str → Str
joined [] = []
joined (p ∷ ps) = b'/' ∷ (p ++ joined ps)

abbrev or_root : Str → Str
or_root [] = b'/' ∷ []
or_root (b ∷ s) = b ∷ s

-- `filepath.Join(elem...)`, whose first element begins with a slash.
unfoldable pub filepath_join : List Str → Str
unfolding clean split_slash rooted
filepath_join ps = or_root (rooted (clean [] (split_slash (joined ps))))

abbrev first_or : Str → List Str → Str
first_or d [] = d
first_or d (p ∷ ps) = p

-- The last element that is not empty.
unfoldable pub last_of : Str → List Str → Str
last_of d [] = d
last_of d (p ∷ ps) = last_of (if p == [] then d else p) ps

-- `filepath.Base`: `.` for the empty path, `/` for one of slashes only.
unfoldable pub filepath_base : Str → Str
unfolding last_of split_slash lit
filepath_base p = if p == [] then lit "." else last_of (lit "/") (split_slash p)
