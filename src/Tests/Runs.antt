-- ===== src/Tests/Runs.antt =====
-- Runs of the process with the small kernel, whose mode is exclusive (cmd/dra-driver/main.go).
use dra_multi_things.Base.{
  ap, ◌∙◌, ◌⊎◌, ◌≡◌, ◌↔◌, ◌++◌, refl, str_eq, lit, true, false, [], Option, none, some, inr, arith,
}
use dra_multi_things.Main.Run.{Flags, Platform, Process, stopped, run}
use dra_multi_things.Main.Run.Ends.{
  IsLaunched, NriReady, ending, session, run_iff, run-session, run-launched, operate-fails,
}
use dra_multi_things.Main.Run.Fatal.{LeavesHelper, run_fatal}
use dra_multi_things.Rdma.Mode.{detect_netns_mode, mode_of}
use dra_multi_things.System.Errors.{Error, errorf, wrapf, ok, err}
use dra_multi_things.System.Os.{null, mkdir_all}
use dra_multi_things.Tests.Kernel.{kernel}

abbrev flags : Flags
flags = record { driver_name = lit "dra.example.com"; node_name = lit "node-1"; pod_uid = [] }

abbrev platform : Option Error → Platform
platform stub = record {
  getenv = λ _. [];
  in_cluster_config = none;
  new_for_config = none;
  start_helper = none;
  new_stub = λ _ _. stub;
  spec_json = λ _. null;
  signalled = true;
}

abbrev empty_process : Process (kernel true)
empty_process = record {
  actions = [];
  driver = record {
    allocations = [];
    world = record {
      net = record { links = []; namespace = 0 };
      os = record { files = []; dirs = []; symlinks = []; refuses = λ _ _. false };
      tracker = record { pending = []; active = [] };
      cached_mode = none;
    };
  };
}

launched : (stub : Option Error) → IsLaunched (platform stub) flags empty_process
unfolding mkdir_all lit
launched stub = record {
  named = ground arith;
  configured = refl;
  connected = refl;
  directory = refl;
  helper = refl;
}

abbrev no_socket : Error
no_socket = errorf "no socket" []

run_iff_example : ((run (platform none) flags empty_process).0 ≡ ok stopped) ↔ (
    (IsLaunched (platform none) flags empty_process × NriReady (platform none) flags empty_process)
    × (stopped ≡ ending (platform none).signalled))
run_iff_example = run_iff (platform none) flags empty_process stopped

run-session_example :
    (run (platform none) flags empty_process).1.actions
    ≡ empty_process.actions ++ session (platform none) flags empty_process stopped
run-session_example =
    run-session (platform none) flags empty_process stopped
      ((run_iff (platform none) flags empty_process stopped).1 ((launched none, inr refl), refl))

fails :
    (run (platform (some no_socket)) flags empty_process).0
    ≡ err (
        wrapf "Failed to create NRI plugin: %v" []
          (wrapf "failed to create NRI stub: %w" [] no_socket))
unfolding detect_netns_mode mode_of lit str_eq
fails =
    ap (λ y. y.0)
      (run-launched (platform (some no_socket)) flags empty_process (launched (some no_socket))
        ∙ operate-fails (platform (some no_socket)) flags empty_process {e = no_socket} refl refl)

run_fatal_example :
    ((run (platform (some no_socket)) flags empty_process).1.actions ≡ empty_process.actions)
    ⊎ LeavesHelper (platform (some no_socket)) flags empty_process
run_fatal_example =
    run_fatal (platform (some no_socket)) flags empty_process
      {e = wrapf "Failed to create NRI plugin: %v" []
        (wrapf "failed to create NRI stub: %w" [] no_socket)}
      fails
