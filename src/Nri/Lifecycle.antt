-- ===== src/Nri/Lifecycle.antt =====
-- pkg/nri/plugin.go: how the plugin is made. The stub of the NRI package is a parameter.
use dra_multi_things.Base.{◌≡◌, refl, Str, lit, [], Option, none, some}
use dra_multi_things.System.Errors.{Error, wrapf, Outcome, ok, err}

unfoldable pub plugin_name : Str
unfolding lit
plugin_name = lit "dra-rdma"

unfoldable pub plugin_idx : Str
unfolding lit
plugin_idx = lit "90"

-- `NewPlugin`, where `new_stub` is `stub.New` with the name and the index of the plugin.
unfoldable pub new_plugin : (Str → Str → Option Error) → Outcome (Unit {0})
unfolding plugin_name plugin_idx
new_plugin new_stub = elim (new_stub plugin_name plugin_idx) [
  | none ↦ ok tt
  | some e ↦ err (wrapf "failed to create NRI stub: %w" [] e)
]

-- The plugin is made exactly when its stub is.
pub new_plugin-none :
    (new_stub : Str → Str → Option Error)
    → new_stub plugin_name plugin_idx ≡ none
    → new_plugin new_stub ≡ ok tt
unfolding new_plugin
new_plugin-none new_stub h = rw (h, new_plugin) refl

pub new_plugin-some :
    (new_stub : Str → Str → Option Error) {e : Error}
    → new_stub plugin_name plugin_idx ≡ some e
    → new_plugin new_stub ≡ err (wrapf "failed to create NRI stub: %w" [] e)
unfolding new_plugin
new_plugin-some new_stub h = rw (h, new_plugin) refl
