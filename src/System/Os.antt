-- ===== src/System/Os.antt =====
-- The calls of package os: files by their path, directories with the names of their entries in
-- order, and symbolic links. `refuses` says at which paths the system refuses a call.
use dra_multi_things.Base.{
  Str, str_eq, if◌then◌else◌, Bool, true, false, List, [], Option, none, some, ◌⊎◌, inl, inr,
}
use dra_multi_things.Base.Dict.{Dict, lookup, insert, erase}
use dra_multi_things.Base.Int.{ℤ}
use dra_multi_things.System.Errors.{Error, system}

-- A JSON document, as `encoding/json` reads and writes it. `frac` is a number that is no integer.
mutual
  pub data Json : Type 0 where
    null : Json
    bool : Bool → Json
    num : ℤ → Json
    frac : Json
    str : Str → Json
    arr : Items → Json
    obj : Fields → Json

  pub data Items : Type 0 where
    nil : Items
    cons : Json → Items → Items

  pub data Fields : Type 0 where
    end : Fields
    field : Str → Json → Fields → Fields

-- What a file holds: a JSON document, or plain text. The text of JSON is not modelled: a JSON
-- document read as text is empty, and plain text read as JSON is malformed. The program reads each
-- of its files in one of the two ways only.
pub data Content : Type 0 where
  json : Json → Content
  text : Str → Content

-- `string(data)` of a file that is read as text.
abbrev pub text_of : Content → Str
text_of (text s) = s
text_of (json _) = []

pub data Call : Type 0 where
  stats reads writes removes makes : Call

pub record Os : Type 0 where
  pub files : Dict Str Content
  pub dirs : Dict Str (List Str)
  pub symlinks : Dict Str Str
  pub refuses : Call → Str → Bool

-- The error of `*os.PathError`.
abbrev refused {ℓ} : {A : Type ℓ} → Str → Error ⊎ A
refused p = inl (system p)

abbrev or_missing {ℓ} : {A : Type ℓ} → Str → Option A → Error ⊎ A
or_missing p none = refused p
or_missing p (some a) = inr a

unfoldable pub read_file : Os → Str → Error ⊎ Content
read_file os p = if os.refuses reads p then refused p else or_missing p (lookup p os.files)

abbrev or_none : Error ⊎ List Str → List Str
or_none (inl _) = []
or_none (inr entries) = entries

unfoldable pub read_dir : Os → Str → Error ⊎ List Str
read_dir os p = if os.refuses reads p then refused p else or_missing p (lookup p os.dirs)

-- The entries of a directory, and none if it cannot be read.
abbrev pub entries_of : Os → Str → List Str
entries_of os p = or_none (read_dir os p)

unfoldable pub readlink : Os → Str → Error ⊎ Str
readlink os p = if os.refuses reads p then refused p else or_missing p (lookup p os.symlinks)

abbrev present {ℓ} : {A : Type ℓ} → Option A → Bool
present none = false
present (some a) = true

-- `os.Stat` succeeds.
unfoldable pub stat : Os → Str → Bool
stat os p =
    if os.refuses stats p
    then false
    else if present (lookup p os.files)
    then true
    else if present (lookup p os.dirs)
    then true
    else present (lookup p os.symlinks)

-- `os.WriteFile`, which is refused, if at all, when the file is opened: the old content stays.
unfoldable pub write_file : Os → Str → Content → Option Error × Os
write_file os p c =
    if os.refuses writes p
    then (some (system p), os)
    else (none, record os { files = insert p c os.files })

unfoldable pub remove : Os → Str → Os
remove os p = if os.refuses removes p then os else record os { files = erase p os.files }

-- `os.MkdirAll` fails.
unfoldable pub mkdir_all : Os → Str → Option Error
mkdir_all os p = if os.refuses makes p then some (system p) else none
