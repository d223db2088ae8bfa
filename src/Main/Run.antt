-- ===== src/Main/Run.antt =====
-- cmd/dra-driver/main.go: `run`, from the flags to the shutdown. What the process does to the
-- kubelet and to NRI is a list of actions; the packages behind them are a parameter.
pub mod Ends
pub mod Fatal
use dra_multi_things.Base.{
  Str, str_eq, ◌==◌, if◌then◌else◌, not, lit, Bool, true, false, List, [], ◌∷◌, ◌++◌, Option, none,
  some,
}
use dra_multi_things.Base.FilePath.{filepath_join}
use dra_multi_things.Driver.Publisher.{DriverResources, discover_resources}
use dra_multi_things.Driver.Store.{Driver, CdiSpec, DriverState, new, new_driver}
use dra_multi_things.Main.{build_handler_registry}
use dra_multi_things.Nri.Lifecycle.{new_plugin}
use dra_multi_things.Nri.Tracker.{new_rdma_netns_tracker}
use dra_multi_things.Rdma.Mode.{detect_netns_mode}
use dra_multi_things.System.Errors.{Error, errorf, ok}
use dra_multi_things.System.Monad.{M, pure, done, guard, wrap, ◌>>=◌, ◌>>◌}
use dra_multi_things.System.Netlink.{Netlink}
use dra_multi_things.System.Os.{Json, mkdir_all}
use dra_multi_things.System.World.{NetnsMode, shared, exclusive}

-- `--driver-name`, `--node-name` and `--pod-uid`
pub record Flags : Type 0 where
  pub driver_name : Str
  pub node_name : Str
  pub pod_uid : Str

-- What the packages around the program do: the environment, the Kubernetes client, the kubelet
-- plugin helper and the NRI stub. `some` error is a call that fails. `signalled` tells whether a
-- signal to stop the process comes at all.
pub record Platform : Type 0 where
  pub getenv : Str → Str
  pub in_cluster_config : Option Error
  pub new_for_config : Option Error
  pub start_helper : Option Error
  pub new_stub : Str → Str → Option Error
  pub spec_json : CdiSpec → Json
  pub signalled : Bool

-- `kubeletplugin.Option`, but for the client.
pub record Options : Type 0 where
  pub driver_name : Str
  pub node_name : Str
  pub rolling_update : Option Str

-- What the process does, in order. What the kubelet and others do meanwhile is left out.
pub data Action (N : Netlink) : Type 0 where
  start_helper : Driver N → Options → Action N
  start_nri : Action N
  publish_resources : DriverResources → Action N
  stop_helper : Action N
  stop_nri : Action N

-- How `run` is left: it has returned, or it blocks on `<-ctx.Done()` for good.
pub data Ending : Type 0 where
  stopped : Ending
  waiting : Ending

-- The state of the process, and of the driver behind the helper.
pub record Process (N : Netlink) : Type 0 where
  pub actions : List (Action N)
  pub driver : DriverState N

abbrev or_env : Str → Str → Str
or_env flag env = if flag == [] then env else flag

abbrev rolling : Str → Option Str
rolling pod_uid = if not (pod_uid == []) then some pod_uid else none

module _ {N : Netlink} where
  -- A call of another package, which has no effect on the state of the model.
  abbrev attempt : Option Error → M (Process N) (Unit {0})
  attempt e s = (done e, s)

  abbrev act : Action N → M (Process N) (Unit {0})
  act a s = (ok tt, record s { actions = s.actions ++ (a ∷ []) })

  abbrev plugin_dir : Str → M (Process N) (Unit {0})
  plugin_dir path s = (done (mkdir_all s.driver.world.os path), s)

  -- The driver, over the registry with a tracker of its own.
  abbrev create_driver : Platform → Str → M (Process N) (Driver N)
  create_driver p driver_name s = (
    ok (new_driver driver_name build_handler_registry p.spec_json),
    record s { driver = new (record s.driver.world { tracker = new_rdma_netns_tracker }) },
  )

  abbrev detect : M (Process N) NetnsMode
  detect s =
      let (mode, w) = detect_netns_mode s.driver.world in
      (ok mode, record s { driver = record s.driver { world = w } })

  abbrev discover : Str → Str → M (Process N) DriverResources
  discover driver_name node_name s =
      let (resources, w) = discover_resources driver_name node_name s.driver.world in
      (ok resources, record s { driver = record s.driver { world = w } })

  abbrev plugin_made : (Str → Str → Option Error) → M (Process N) (Unit {0})
  plugin_made new_stub s = (new_plugin new_stub, s)

  -- The NRI plugin, in exclusive mode only.
  unfoldable pub start_nri_plugin : Platform → NetnsMode → M (Process N) (Unit {0})
  start_nri_plugin p shared = pure tt
  start_nri_plugin p exclusive = do
    wrap "Failed to create NRI plugin: %v" [] (plugin_made p.new_stub)
    act start_nri

  -- `defer nriPlugin.Stop()`
  unfoldable pub stop_nri_plugin : NetnsMode → M (Process N) (Unit {0})
  stop_nri_plugin shared = pure tt
  stop_nri_plugin exclusive = act stop_nri

  -- The first half of `run`: the driver is made, and the helper of the kubelet plugin started. An
  -- error is a call of `klog.Fatal`, which ends the process at once.
  unfoldable pub launch : Platform → Flags → M (Process N) Str
  unfolding lit
  launch p flags = do
    let node_name = or_env flags.node_name (p.getenv (lit "NODE_NAME"))
    guard (not (node_name == []))
        (errorf "node-name is required (use --node-name or NODE_NAME env var)" [])
    let pod_uid = or_env flags.pod_uid (p.getenv (lit "POD_UID"))
    dr ← create_driver p flags.driver_name
    wrap "Failed to get in-cluster config: %v" [] (attempt p.in_cluster_config)
    wrap "Failed to create Kubernetes client: %v" [] (attempt p.new_for_config)
    let dir = filepath_join (lit "/var/lib/kubelet/plugins" ∷ flags.driver_name ∷ [])
    wrap "Failed to create plugin directory %s: %v" (dir ∷ []) (plugin_dir dir)
    wrap "Failed to start kubelet plugin: %v" [] (attempt p.start_helper)
    act (
        Action.start_helper dr (record {
          driver_name = flags.driver_name;
          node_name = node_name;
          rolling_update = rolling pod_uid;
        }))
    pure node_name

  -- `<-ctx.Done()`, and the deferred calls once a signal has cancelled the context.
  unfoldable pub await_signal : Bool → NetnsMode → M (Process N) Ending
  unfolding stop_nri_plugin
  await_signal false mode = pure waiting
  await_signal true mode = do act stop_helper; stop_nri_plugin mode; pure stopped

  -- The second half: the NRI plugin is started and the devices are published; a publication that
  -- fails is only logged. Then the process waits for a signal.
  unfoldable pub operate : Platform → Str → Str → M (Process N) Ending
  unfolding start_nri_plugin await_signal
  operate p driver_name node_name = do
    mode ← detect
    start_nri_plugin p mode
    resources ← discover driver_name node_name
    act (publish_resources resources)
    await_signal p.signalled mode

  unfoldable pub run : Platform → Flags → M (Process N) Ending
  run p flags = launch p flags >>= operate p flags.driver_name
