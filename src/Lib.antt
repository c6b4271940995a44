-- ===== src/Lib.antt =====
-- A model of MeshSync (meshery/meshsync): the program that discovers the resources of a
-- Kubernetes cluster, keeps watching them, and publishes each as a message over a broker or into
-- a snapshot file.
--
-- The parts and how they interact. A discovery (Handler.Discovery, meshsync/discovery.go) reads
-- the configured pipelines, which come from the defaults or from the watch list of a custom
-- resource (Config, internal/config), plans one informer for each pipeline that the output
-- filter lets pass (Pipeline.Plan), and runs the plan (Pipeline.Steps, internal/pipeline). The
-- informers call the event handlers (Pipeline.Handlers), which convert an object (Model,
-- pkg/model) and hand it to a writer (Output, internal/output), usually a deduplicator around
-- the broker's or the file's writer. The handler (Handler, meshsync) reacts to the watch of
-- custom resource definitions by changing the configured pipelines and asking for a new
-- discovery, and to requests by starting and stopping exec and log sessions.
--
-- Which file models what (a child module models a part of its parent's code or proves
-- statements about it):
-- - Common: shared names, lists, texts, integers, and Go's maps as association lists. Errors:
--   Go's error values. Broker: the event types of the broker.
-- - Config: internal/config/types.go; Config/Pipelines its methods on pipelines; Config/Defaults
--   and Config/Defaults/Templates internal/config/default_config.go; Config/WatchList and
--   Config/CustomResource internal/config/crd_config.go and config_local.go; Config/Provider
--   internal/config/config.go; Config/Filtration the output filters and
--   internal/config/pluralise.go.
-- - Model: pkg/model/model.go; Model/Convert ParseList, Model/Secrets the redaction, and
--   Model/Identity SetID of pkg/model/model_converter.go; Model/Service pkg/model/process.go and
--   pkg/model/preprocessor.go.
-- - Output: internal/output/output.go and the writers that pass a call on; Output/Composite,
--   Output/ContentDeduplicator, Output/InMemory and Output/Streaming the files of
--   internal/output with these names; Output/Yaml internal/file/yaml_writer.go.
-- - Pipeline/Handlers: internal/pipeline/handlers.go; Pipeline/Plan
--   internal/pipeline/pipeline.go; Pipeline/Steps internal/pipeline/step.go.
-- - Handler/Discovery: startDiscovery of meshsync/discovery.go; Handler/CrdWatch,
--   Handler/Backoff and Handler/Slices the watch of custom resource definitions and the slices
--   of meshsync/handlers.go, with the endless loop of WatchCRDs in Handler/CrdWatch/Loop;
--   Handler/Sessions meshsync/sessions.go, with the requests of meshsync/exec.go and
--   meshsync/logstream.go.
-- - Handler/RunLoop: Run and debounce, Handler/Listening: ListenToRequests, and
--   Handler/Requests: handleRequest and its cases, of meshsync/handlers.go.
-- - Handler/ExecSession: the goroutines of streamSession of meshsync/exec.go. Handler/Streams:
--   the goroutines of streamLogs of meshsync/logstream.go. Handler/ActivePool: streamChannelPool of
--   meshsync/exec.go. Handler/Stores: listStoreObjects. Handler/Factories: the informer factories
--   of New, UpdateInformer and ShutdownInformer. Handler/Resync: the resync channel of
--   internal/channels/system.go.
-- - Snapshot: internal/file/file.go.
-- - Startup: pkg/lib/meshsync. Startup/Options its options.go, Startup/Health its health.go, and
--   the rest its meshsync.go: Startup/Outputs the writers of both output modes, Startup/Run the
--   function Run with its checks, its releases and its stop, Startup/Delivery and
--   Startup/Consumer an informer's events through the writers into the snapshot files and to the
--   messages that the broker takes.
-- - ClusterId: pkg/utils/utils.go. CommandLine: the flags of main.go.
-- - Tests: runs on concrete inputs.
-- A function keeps its name, in this language's spelling, and the state that it changes is an
-- argument and part of its result. A panic is the result none.
--
-- There is no fuel: the loops over lists are structural recursion, the search for a snapshot's
-- name has the 1024 turns of the source, and the endless loops are functions of the sequence of
-- events that they meet, for every such sequence. The waits of the CRD watch stay below four
-- minutes in nanoseconds, far from the bounds of int64.
--
-- Not modelled: client-go, meshkit, the pipeline library, encoding/json, jsonparser, sha256,
-- base64 and the operating system, which are arguments of the definitions that use them, with what
-- is relied on as named hypotheses; logging; the constructors of error values; the other types of
-- internal/channels, whose only operations are those of Go's channels; the SPDY connection and the
-- terminal of an exec session, of which the bytes and the endings are arguments. Nothing is
-- supposed of whether a message that the broker took is delivered. In the loop of Run,
-- UpdateInformer is taken to find a client. Calls of a writer come one at a time: the locks of the
-- source guard each access, and the events of one resource arrive in order from one informer.
pub mod Common
pub mod Errors
pub mod Broker
pub mod Config
pub mod Model
pub mod Output
pub mod Pipeline
pub mod Handler
pub mod Snapshot
pub mod ClusterId
pub mod Startup
pub mod CommandLine
pub mod Tests
