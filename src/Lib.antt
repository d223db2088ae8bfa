-- ===== src/Lib.antt =====
-- Verification of the DRA multi-device driver: a Kubernetes kubelet plugin that prepares network
-- interfaces and RDMA devices for ResourceClaims and injects them by CDI.
--
-- The parts and how they interact. The driver (pkg/driver/driver.go) gets claims from the kubelet.
-- For each it reads the configuration, finds the handler by type and kind in the registry
-- (pkg/handler/registry.go, filled by cmd/dra-driver/main.go), lets the handler prepare the
-- device, and writes a CDI spec and a sidecar file with the allocation, which it reads back on
-- every call. The netdev handlers create links or take existing ones; the uverbs handler exposes
-- an RDMA device and, if the kernel keeps RDMA devices in one network namespace, registers a
-- pending move in the tracker (pkg/nri/tracker.go); the RoCE handler composes the two. The NRI
-- plugin (pkg/nri/plugin.go) consumes pending moves when a pod sandbox runs and returns devices
-- when it stops. The publisher (pkg/driver/publisher.go) tells Kubernetes which devices the node
-- has; the process (cmd/dra-driver/main.go) makes all of these and starts and stops them.
--
-- Files:
--   Base          strings as lists of bytes, maps as association lists, integers, file paths,
--                 UTF-8 as Go's unicode/utf8 reads it
--   System        errors and panics, the netlink and os packages, the state that handlers share,
--                 the step monad and its rules for pre- and postconditions
--   Handler       pkg/handler/types.go; Handler/Registry: pkg/handler/registry.go
--   Netdev        pkg/handler/netdev, one file for each handler; Netdev/Create: what they share
--   Rdma          pkg/handler/rdma: Mode (system.go), Uverbs and Namespaces (uverbs.go)
--   Combo         pkg/handler/combo/roce.go
--   Nri           pkg/nri: Tracker (tracker.go), Plugin and Uuid (plugin.go)
--   Driver        pkg/driver/driver.go: Claim (reading a ResourceClaim), Codec (the JSON forms of
--                 pkg/handler/types.go), Store (files), Server (the two calls of the kubelet);
--                 Driver/Server/Prepared: the set of claims that the driver stands for;
--                 Driver/Store/Paths, Frame and Sidecar: the files of a claim;
--                 Driver/Store/Mirror and Transparent, Driver/Server/Mirrored: the files of all
--                 claims; Driver/Server/Restart: the driver that starts beside them;
--                 Driver/Publisher: pkg/driver/publisher.go
--   Main          buildHandlerRegistry of cmd/dra-driver/main.go, and the driver with it;
--                 Main/Every: all of its handlers; Main/Files: the files under them;
--                 Main/Repeat and Main/Recall: claims that are prepared twice;
--                 Main/Restart and Main/Life: the driver that starts again;
--                 Main/Run: the process (Ends and Fatal: how it ends), with Nri/Lifecycle for
--                 `NewPlugin` of pkg/nri/plugin.go
--   Tests         a small kernel, and runs in it
--
-- A Go method on a receiver is a function that takes the state and returns the new one: names are
-- those of the code in snake case (`PrepareResourceClaims` is `prepare_resource_claims`). A call
-- that can fail returns an `Outcome`: a value, an error, or a run-time panic, such as the slice
-- `claimUID[:8]` of a shorter text. Loops are recursions on the list that is ranged over, so that
-- no fuel is needed.
--
-- Parameters. The netlink and netns packages are the record `System.Netlink.Netlink` over an
-- unknown kernel state; `IsLawful` states what rtnetlink documents of the names of links,
-- `DeletesCleanly` that it refuses no deletion of a link that it shows, and
-- `Nri.Plugin.Stop.KeepsNamespace` what is documented of network namespaces. The JSON form of a
-- CDI spec is a parameter of the driver, and the packages behind the process (the environment, the
-- Kubernetes client, the kubelet plugin helper, the NRI stub) are the record `Main.Run.Platform`.
-- `Platform.signalled` tells whether a signal to stop the process comes: `run` blocks on
-- `<-ctx.Done()` for good if none does. The quantities of a device are the texts that `resource.MustParse` gets. Tests/Kernel gives a
-- kernel that satisfies all of these.
--
-- Bounds and simplifications. A Go int is an integer without overflow: the code only compares
-- ints, sets one bit of one, reads one in the range of an int64, and narrows one to 16 bits, which
-- are written out. A map is an association list whose order stands for any order of iteration. A
-- file holds a JSON document or plain text, as the program reads it; the text of JSON is not
-- modelled, but its strings are those of encoding/json: each byte that is not part of valid UTF-8
-- becomes the replacement rune, in writing as in reading. Keys are matched with ASCII letters
-- folded. A write that fails is refused when the file is opened and leaves the file as it was; a
-- disk that fills up half-way is not modelled. `strings.TrimSpace` trims ASCII white space, which is
-- all that sysfs writes. Driver names hold no metacharacters of file patterns, and the files that
-- match are read in the order of the list of files, where `filepath.Glob` sorts them; like Glob,
-- the model finds none if the system refuses to stat or to list the directory. Mutexes make each method of the tracker one step; goroutines
-- interleave in `Nri.Tracker.Invariant.Step`. Logs, handles that are closed, locks on OS threads
-- and file modes are left out.
--
-- Not modelled: `main`, which declares the flags, `Run` and `Stop` of pkg/nri/plugin.go, which
-- only call the NRI stub and are actions of the process, `HandleError`, which only logs, tests and
-- manifests.
pub mod Base
pub mod Nri
pub mod System
pub mod Handler
pub mod Netdev
pub mod Rdma
pub mod Combo
pub mod Driver
pub mod Main
pub mod Tests
