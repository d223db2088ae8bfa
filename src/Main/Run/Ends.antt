-- ===== src/Main/Run/Ends.antt =====
-- How the process ends, and what it has started and stopped by then (cmd/dra-driver/main.go).
use dra_multi_things.Base.{
  ◌≡◌, ◌≢◌, ◌↔◌, refl, Bool, true, Str, str_eq, ◌==◌, lit, [], ◌∷◌, ◌++◌, List, none, some, inl,
  inr, false, Bool-cases, arith, Option-cases, ◌⊎◌, ap, sym, ◌∙◌,
}
use dra_multi_things.Base.FilePath.{filepath_join}
use dra_multi_things.Driver.Publisher.{DriverResources, discover_resources}
use dra_multi_things.Driver.Server.Idempotent.{Outcome-cases}
use dra_multi_things.Driver.Store.{new}
use dra_multi_things.Main.{build_handler_registry}
use dra_multi_things.Main.Run.{
  Flags, Platform, Action, Process, Ending, stopped, waiting, run, launch, operate, or_env, rolling,
  start_helper, start_nri, publish_resources, stop_helper, stop_nri,
}
use dra_multi_things.Nri.Lifecycle.{new_plugin-none, new_plugin-some, plugin_name, plugin_idx}
use dra_multi_things.Nri.Tracker.{new_rdma_netns_tracker}
use dra_multi_things.Rdma.Mode.{detect_netns_mode}
use dra_multi_things.System.Errors.{Error, wrapf, ok, err}
use dra_multi_things.System.Netlink.{Netlink}
use dra_multi_things.System.Os.{mkdir_all}
use dra_multi_things.System.World.{World, NetnsMode, shared, exclusive}
use mathlib.Core.List.{append_assoc}

cases : (m : NetnsMode) → (m ≡ shared) ⊎ (m ≡ exclusive)
cases shared = inl refl
cases exclusive = inr refl

module _ {N : Netlink} where
  abbrev nri_started : NetnsMode → List (Action N)
  nri_started shared = []
  nri_started exclusive = start_nri ∷ []

  -- What is stopped: nothing by a process that waits.
  abbrev all_stopped : Ending → NetnsMode → List (Action N)
  all_stopped waiting m = []
  all_stopped stopped shared = stop_helper ∷ []
  all_stopped stopped exclusive = stop_helper ∷ stop_nri ∷ []

-- How the process is left, if no call fails.
abbrev pub ending : Bool → Ending
ending true = stopped
ending false = waiting

module _ {N : Netlink} (p : Platform) (flags : Flags) (s : Process N) where
  abbrev pub node : Str
  node = or_env flags.node_name (p.getenv (lit "NODE_NAME"))

  -- The world with the tracker of the process, and the mode of the node.
  abbrev pub world : World N
  world = record s.driver.world { tracker = new_rdma_netns_tracker }

  abbrev pub mode : NetnsMode
  mode = (detect_netns_mode world).0

  -- The node has a name, and every call up to the start of the helper succeeds.
  pub record IsLaunched : Type 0 where
    pub named : node ≢ []
    pub configured : p.in_cluster_config ≡ none
    pub connected : p.new_for_config ≡ none
    pub directory :
        mkdir_all world.os (filepath_join (lit "/var/lib/kubelet/plugins" ∷ flags.driver_name ∷ []))
        ≡ none
    pub helper : p.start_helper ≡ none

  abbrev pub helper_started : Action N
  helper_started =
      start_helper
        (record {
          driver_name = flags.driver_name;
          registry = build_handler_registry;
          spec_json = p.spec_json;
        })
        (record {
          driver_name = flags.driver_name;
          node_name = node;
          rolling_update = rolling (or_env flags.pod_uid (p.getenv (lit "POD_UID")));
        })

  abbrev resources : DriverResources
  resources = (discover_resources flags.driver_name node (detect_netns_mode world).1).0

  -- The actions of a process that meets no fatal error: the helper is started first, the NRI plugin
  -- in exclusive mode only, and what was started is stopped, if at all, after the devices are
  -- published.
  abbrev pub session : Ending → List (Action N)
  session e =
      helper_started ∷ (nri_started mode ++ (publish_resources resources ∷ all_stopped e mode))

  -- The state behind the helper.
  abbrev launched : Process N
  launched = record s { actions = s.actions ++ (helper_started ∷ []); driver = new world }

  nonempty : (x : Str) → x ≢ [] → (x == []) ≡ false
  nonempty x n = ground arith

  empty : (x : Str) → (x == []) ≡ false → x ≢ []
  empty x e = ground arith

  launch_lem : IsLaunched → launch p flags s ≡ (ok node, launched)
  unfolding launch new
  launch_lem r = rw (nonempty node r.named, r.configured, r.connected, r.directory, r.helper) refl

  abbrev dir : Str
  dir = filepath_join (lit "/var/lib/kubelet/plugins" ∷ flags.driver_name ∷ [])

  pub launch-IsLaunched : {n : Str} → (launch p flags s).0 ≡ ok n → IsLaunched
  unfolding launch new
  launch-IsLaunched h = elim (Bool-cases (node == [])) [
    | inl e ↦ absurd (let g = rw e at h in cc)
    | inr e ↦ elim (Option-cases p.in_cluster_config) [
      | inr (_, q) ↦ absurd (let g = rw (e, q) at h in cc)
      | inl a ↦ elim (Option-cases p.new_for_config) [
        | inr (_, q) ↦ absurd (let g = rw (e, a, q) at h in cc)
        | inl b ↦ elim (Option-cases (mkdir_all world.os dir)) [
          | inr (_, q) ↦ absurd (let g = rw (e, a, b, q) at h in cc)
          | inl c ↦ elim (Option-cases p.start_helper) [
            | inr (_, q) ↦ absurd (let g = rw (e, a, b, c, q) at h in cc)
            | inl d ↦ record {
              named = empty node e;
              configured = a;
              connected = b;
              directory = c;
              helper = d;
            }
          ]
        ]
      ]
    ]
  ]

  -- The state after the detection of the mode.
  abbrev detected : Process N
  detected = record {
    actions = s.actions ++ (helper_started ∷ []);
    driver = new (detect_netns_mode world).1;
  }

  -- The state after that, if no call fails.
  abbrev finished : Process N
  finished = record {
    actions = s.actions ++ session (ending p.signalled);
    driver = new (discover_resources flags.driver_name node (detect_netns_mode world).1).1;
  }

  operate-shared :
      mode ≡ shared
      → operate p flags.driver_name node launched ≡ (ok (ending p.signalled), finished)
  unfolding operate new
  operate-shared e = elim (Bool-cases p.signalled) [
    | inl q ↦ rw (e, q) (simp append_assoc)
    | inr q ↦ rw (e, q) (simp append_assoc)
  ]

  operate-exclusive :
      mode ≡ exclusive
      → p.new_stub plugin_name plugin_idx ≡ none
      → operate p flags.driver_name node launched ≡ (ok (ending p.signalled), finished)
  unfolding operate new
  operate-exclusive e h = elim (Bool-cases p.signalled) [
    | inl q ↦ rw (e, q, new_plugin-none p.new_stub h) (simp append_assoc)
    | inr q ↦ rw (e, q, new_plugin-none p.new_stub h) (simp append_assoc)
  ]

  pub operate-fails :
      {e : Error}
      → mode ≡ exclusive
      → p.new_stub plugin_name plugin_idx ≡ some e
      → operate p flags.driver_name node launched ≡ (
        err (
            wrapf "Failed to create NRI plugin: %v" []
              (wrapf "failed to create NRI stub: %w" [] e)),
        detected,
      )
  unfolding operate new
  operate-fails e h = rw (e, new_plugin-some p.new_stub h) refl

  mode-cases : (mode ≡ shared) ⊎ (mode ≡ exclusive)
  mode-cases = cases mode

  -- The NRI plugin can be made, if it is needed.
  abbrev pub NriReady : Type 0
  NriReady = (mode ≡ shared) ⊎ (p.new_stub plugin_name plugin_idx ≡ none)

  operate-finished :
      NriReady → operate p flags.driver_name node launched ≡ (ok (ending p.signalled), finished)
  operate-finished (inl e) = operate-shared e
  operate-finished (inr h) = elim mode-cases [
    | inl e ↦ operate-shared e
    | inr e ↦ operate-exclusive e h
  ]

  -- The NRI plugin is ready, or it is needed and cannot be made.
  pub NriReady-cases :
      NriReady ⊎ ((mode ≡ exclusive) × ((x : Error) × (p.new_stub plugin_name plugin_idx ≡ some x)))
  NriReady-cases = elim mode-cases [
    | inl e ↦ inl (inl e)
    | inr e ↦ elim (Option-cases (p.new_stub plugin_name plugin_idx)) [
      | inl q ↦ inl (inr q)
      | inr r ↦ inr (e, r)
    ]
  ]

  operate-NriReady : {e : Ending} → (operate p flags.driver_name node launched).0 ≡ ok e → NriReady
  operate-NriReady h = elim NriReady-cases [
    | inl r ↦ r
    | inr (e, (x, q)) ↦ absurd (let g = operate-fails {e = x} e q in cc)
  ]

  -- A process that is launched does what `operate` does.
  pub run-launched : IsLaunched → run p flags s ≡ operate p flags.driver_name node launched
  unfolding run
  run-launched r = rw (launch_lem r) refl

  run-IsLaunched : {e : Ending} → (run p flags s).0 ≡ ok e → IsLaunched
  unfolding run
  run-IsLaunched h = elim (Outcome-cases (launch p flags s).0) [
    | inl (n, q) ↦ launch-IsLaunched {n = n} q
    | inr (inl (e, q)) ↦ absurd (ground arith)
    | inr (inr q) ↦ absurd (ground arith)
  ]

  pub run-finished : IsLaunched → NriReady → run p flags s ≡ (ok (ending p.signalled), finished)
  run-finished r n = run-launched r ∙ operate-finished n

  run-ready : {e : Ending} → (run p flags s).0 ≡ ok e → IsLaunched × NriReady
  run-ready {e} h =
      let r = run-IsLaunched {e = e} h in
      (r, operate-NriReady {e = e} (ap (λ x. x.0) (sym (run-launched r)) ∙ h))

  ending_of : (e : Ending) → (run p flags s).0 ≡ ok e → e ≡ ending p.signalled
  ending_of e h =
      let (r, n) = run-ready {e = e} h in
      let done : ok e ≡ ok (ending p.signalled) = sym h ∙ ap (λ x. x.0) (run-finished r n) in cc

  -- The process meets no fatal error exactly when the node has a name, every call up to the start of
  -- the helper succeeds and, unless the mode is shared, so does the making of the NRI plugin. It is
  -- then stopped if a signal comes, and waits for one for good if none comes.
  pub run_iff :
      (e : Ending)
      → ((run p flags s).0 ≡ ok e) ↔ ((IsLaunched × NriReady) × (e ≡ ending p.signalled))
  run_iff e = (
    (λ h. (run-ready {e = e} h, ending_of e h)),
    (λ h. ap (λ x. x.0) (run-finished h.0.0 h.0.1) ∙ ap (λ x. ok x) (sym h.1)),
  )

  -- A process that was stopped by a signal has done exactly this: it started the helper with the
  -- node's name and the registry of all handlers, then the NRI plugin if the mode is exclusive,
  -- published what DiscoverResources finds after that, stopped the helper, and the NRI plugin if it
  -- was started. One that waits for a signal has done the same, but stopped nothing.
  pub run-session :
      (e : Ending) → (run p flags s).0 ≡ ok e → (run p flags s).1.actions ≡ s.actions ++ session e
  run-session e h =
      let (r, n) = run-ready {e = e} h in
      ap (λ x. x.1.actions) (run-finished r n)
      ∙ ap (λ x. s.actions ++ session x) (sym (ending_of e h))
