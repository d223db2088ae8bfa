-- ===== src/Handler/Registry/Laws.antt =====
-- What `Register` does to `Get` (pkg/handler/registry.go).
use dra_multi_things.Base.{
  ◌≡◌, refl, Str, str_eq, ◌==◌, if◌then◌else◌, ◌&&◌, List, [], ◌∷◌, some, contains, arith,
}
use dra_multi_things.Base.Dict.{Dict, lookup, insert, lookup-insert, lookup-nil}
use dra_multi_things.Handler.{DeviceType, DeviceHandler}
use dra_multi_things.Handler.Registry.{HandlerRegistry, kinds_of, register_kinds, register, get}

module _ {S : Type 0} where
  lookup-register_kinds :
      (h : DeviceHandler S) (kinds : List Str) (m : Dict Str (DeviceHandler S)) (k : Str)
      → lookup k (register_kinds h kinds m) ≡ (if contains kinds k then some h else lookup k m)
  unfolding register_kinds
  lookup-register_kinds h [] m k = refl
  lookup-register_kinds h (kind ∷ kinds) m k =
      ground (arith, lookup-register_kinds h kinds (insert kind h m) k, lookup-insert k kind h m)

  -- After `Register(h)`, `Get` returns `h` for the type of `h` and any of its kinds, and what it
  -- returned before for every other type or kind.
  pub get-register :
      (h : DeviceHandler S) (r : HandlerRegistry S) (typ : DeviceType) (kind : Str)
      → get typ kind (register h r)
        ≡ (if (h.typ == typ) && contains h.kinds kind then some h else get typ kind r)
  unfolding get register
  get-register h r typ kind = ground (
    arith,
    lookup-nil {V = DeviceHandler S} kind,
    lookup-insert typ h.typ (register_kinds h h.kinds (kinds_of h.typ r)) r,
    lookup-register_kinds h h.kinds (kinds_of h.typ r) kind,
  )
