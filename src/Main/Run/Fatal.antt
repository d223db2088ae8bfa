-- ===== src/Main/Run/Fatal.antt =====
-- What a process that ends by a fatal error leaves behind (cmd/dra-driver/main.go).
use dra_multi_things.Base.{◌≡◌, ◌≢◌, [], ◌∷◌, ◌++◌, some, inl, inr, arith, ◌⊎◌, ap, ◌∙◌}
use dra_multi_things.Driver.Server.Idempotent.{Outcome-cases}
use dra_multi_things.Driver.Store.{new}
use dra_multi_things.Main.Run.{Flags, Platform, Process, run, launch}
use dra_multi_things.Main.Run.Ends.{
  IsLaunched, mode, helper_started, NriReady-cases, operate-fails, run-launched, run-finished,
  launch-IsLaunched,
}
use dra_multi_things.Nri.Lifecycle.{plugin_name, plugin_idx}
use dra_multi_things.System.Errors.{Error, err, panic}
use dra_multi_things.System.Netlink.{Netlink}
use dra_multi_things.System.World.{exclusive}

module _ {N : Netlink} (p : Platform) (flags : Flags) (s : Process N) where
  launch-returns : (launch p flags s).0 ≢ panic
  unfolding launch new
  launch-returns h = absurd (ground arith)

  -- What a launch that fails has done.
  launch-actions :
      {e : Error} → (launch p flags s).0 ≡ err e → (launch p flags s).1.actions ≡ s.actions
  unfolding launch new
  launch-actions h = ground arith

  -- The node runs in exclusive mode, the making of the NRI plugin failed, and the only thing done is
  -- the start of the helper.
  abbrev pub LeavesHelper : Type 0
  LeavesHelper =
      (IsLaunched p flags s × (mode p flags s ≡ exclusive))
      × (((x : Error) × (p.new_stub plugin_name plugin_idx ≡ some x))
          × ((run p flags s).1.actions ≡ s.actions ++ (helper_started p flags s ∷ [])))

  failed-launch : {e : Error} → (launch p flags s).0 ≡ err e → (run p flags s).1.actions ≡ s.actions
  unfolding run
  failed-launch {e} q = let same = launch-actions {e = e} q in ground arith

  failed-nri : {e : Error} → (run p flags s).0 ≡ err e → IsLaunched p flags s → LeavesHelper
  failed-nri h r = elim (NriReady-cases p flags s) [
    | inl n ↦ absurd (let same = run-finished p flags s r n in ground arith)
    | inr (m, (x, q)) ↦ (
      (r, m),
      (
        (x, q),
        ap (λ y. y.1.actions) (run-launched p flags s r ∙ operate-fails p flags s {e = x} m q),
      ),
    )
  ]

  -- A process that ends by a fatal error has published nothing. Either it has done nothing, or every
  -- call up to the start of the helper succeeded, the mode is exclusive, the making of the NRI
  -- plugin failed, and the only thing done is the start of the helper, which nothing stops.
  pub run_fatal :
      {e : Error}
      → (run p flags s).0 ≡ err e
      → ((run p flags s).1.actions ≡ s.actions) ⊎ LeavesHelper
  run_fatal {e} h = elim (Outcome-cases (launch p flags s).0) [
    | inl (n, q) ↦ inr (failed-nri {e = e} h (launch-IsLaunched p flags s {n = n} q))
    | inr (inl (x, q)) ↦ inl (failed-launch {e = x} q)
    | inr (inr q) ↦ absurd (launch-returns q)
  ]
