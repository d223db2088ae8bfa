-- ===== src/Handler/Registry.antt =====
-- pkg/handler/registry.go: from a device type and a kind to the handler.
pub mod Laws
use dra_multi_things.Base.{
  ◌≡◌, Str, str_eq, ◌==◌, if◌then◌else◌, List, [], ◌∷◌, Option, none, some, map, ◌⊎◌, inl, inr,
}
use dra_multi_things.Base.Dict.{Dict, lookup, insert}
use dra_multi_things.Handler.{DeviceType, DeviceHandler}
use dra_multi_things.System.Errors.{Error, errorf}

-- `HandlerRegistry.handlers`: type → kind → handler.
abbrev pub HandlerRegistry : Type 0 → Type 0
HandlerRegistry S = Dict DeviceType (Dict Str (DeviceHandler S))

module _ {S : Type 0} where
  -- `NewHandlerRegistry`
  abbrev pub new_handler_registry : HandlerRegistry S
  new_handler_registry = []

  abbrev kinds_of : DeviceType → HandlerRegistry S → Dict Str (DeviceHandler S)
  kinds_of typ r = elim (lookup typ r) [ none ↦ [] | some m ↦ m ]

  -- The loop over `h.Kinds()`, on the map of the handler's type.
  unfoldable pub register_kinds :
      DeviceHandler S → List Str → Dict Str (DeviceHandler S) → Dict Str (DeviceHandler S)
  register_kinds h [] m = m
  register_kinds h (kind ∷ kinds) m = register_kinds h kinds (insert kind h m)

  unfoldable pub register : DeviceHandler S → HandlerRegistry S → HandlerRegistry S
  register h r = insert h.typ (register_kinds h h.kinds (kinds_of h.typ r)) r

  -- `Get`; `none` is the nil handler.
  unfoldable pub get : DeviceType → Str → HandlerRegistry S → Option (DeviceHandler S)
  get typ kind r = elim (lookup typ r) [ none ↦ none | some m ↦ lookup kind m ]

  unfoldable pub must_get : DeviceType → Str → HandlerRegistry S → Error ⊎ DeviceHandler S
  must_get typ kind r = elim (get typ kind r) [
    | none ↦ inl (errorf "no handler registered for type=%s kind=%s" (typ ∷ kind ∷ []))
    | some h ↦ inr h
  ]

  unfoldable pub list_registered : HandlerRegistry S → Dict DeviceType (List Str)
  list_registered [] = []
  list_registered ((typ, kinds) ∷ r) = (typ, map (λ (k, _). k) kinds) ∷ list_registered r
