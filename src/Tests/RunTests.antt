-- ===== src/Tests/RunTests.antt =====
-- Run of pkg/lib/meshsync/meshsync.go on a small environment.
use meshsync.Common.{
  ◌++◌, String, ◌≡◌, ◌≢◌, eq_false, refl, true, false, ◌&&◌, Option, none, some, List, [], ◌∷◌,
  ◌==◌, if◌then◌else◌,
}
use meshsync.Common.Int.{negsuc}
use meshsync.Common.Dict.{lookup, has}
use meshsync.Errors.{Error, message, Result, ok, err}
use meshsync.Config.{MeshsyncConfig, global_resource_key}
use meshsync.Config.Defaults.{default_pipelines, default_events, backfill}
use meshsync.Config.WatchList.{
  filter_whitelisted_pipelines, index_func, pipelines_at, populate_configs_from_map, populate_list,
  validate_lists,
}
use meshsync.Config.WatchList.Populate.{is_stage, selected_by}
use meshsync.Config.CustomResource.{get_meshsync_crd_configs}
use meshsync.Model.{KubernetesResource}
use meshsync.Output.{Call}
use meshsync.Output.Streaming
use meshsync.Output.Streaming.Once.{firsts}
use meshsync.Output.Streaming.Once
use meshsync.Output.Yaml.{contents, open_file}
use meshsync.Broker
use meshsync.Startup
use meshsync.Startup.{determine_use_crd_flag, Attempt}
use meshsync.Startup.Health.{handler}
use meshsync.Startup.Options.{
  Options, OptionsSetter, output_mode_broker, with_output_mode, with_output_file_name, set_options,
}
use meshsync.Startup.Outputs.{extended_name, file_output}
use meshsync.Startup.Outputs.Contents.{output_files}
use meshsync.Startup.Outputs.Documents.{documents}
use meshsync.Startup.Run.Externals.{Env}
use meshsync.Startup.Run.Configure.{crd_configs_of, value_or_nil, configure}
use meshsync.Startup.Run.Writers.{set_outputs}
use meshsync.Startup.Run.{run}
use meshsync.Startup.Run.Effects.{
  World, Stored, Held, Outcome, returned, waiting, ◌>>=◌, lift, fail_if, when, finish,
}
use meshsync.Startup.Run.Releases.{run_releases, HasReleased}
use meshsync.Startup.Run.Settings.{Accepts, ReadsLists, configure_selects, second_run_narrows}
use meshsync.Startup.Run.Ready.{ready_with_broker, succeeded}
use meshsync.Tests.Fixtures.{call_for}

abbrev never : String → String → Option Error
never name bytes = none

abbrev as_uid : KubernetesResource → Result String
as_uid obj = ok obj.kind

abbrev three_calls : List Call
three_calls = call_for "a" Broker.add ∷ call_for "a" Broker.update ∷ call_for "b" Broker.add ∷ []

output_files_example :
    let after =
      (Once.run (file_output never as_uid true "snap.yaml") three_calls (Streaming.new [])).real in
    (contents after "snap.yaml"
      ≡ contents [] "snap.yaml"
        ++ documents never as_uid "snap.yaml" (firsts (λ u. false) three_calls))
    × (contents after (extended_name "snap.yaml")
        ≡ contents [] (extended_name "snap.yaml")
          ++ (if true then documents never as_uid (extended_name "snap.yaml") three_calls else []))
output_files_example = output_files never as_uid "snap.yaml" true three_calls []

abbrev nothing_stored : Stored
nothing_stored = record { server = none; broker_url = ""; resources = none; listeners = none }

-- A cluster whose custom resource has this whitelist.
abbrev env : String → Env (Unit {0}) (Unit {0}) (Unit {0}) String (Unit {0})
env white = record {
  new_client = λ kube_config. ok tt;
  crd_at_flag = λ k. ok (some (("spec", "spec") ∷ []));
  crd_at_config = λ k. ok (some (("spec", "spec") ∷ []));
  object = λ v. some (("watch-list", v) ∷ []);
  is_nil = λ v. false;
  marshal = λ v. ok v;
  unmarshal = λ text. ok (("whitelist", white) ∷ []);
  decode_names = λ text. ok [];
  decode_resources = λ text. ok (record { resource = text; events = default_events } ∷ []);
  new_config = λ provider. ok (some nothing_stored);
  set_object = λ key. none;
  broker_url = "nats://broker:4222";
  broker_content_dedup = "";
  parse_bool = λ text. err (message "invalid syntax");
  parse_host = λ url. ok "broker";
  attempts =
      λ url. record { answer = ok (record { status_code = 200; status = "200 OK" }); now = 0 } ∷ [];
  start = 0;
  nats_new = λ url. ok tt;
  mesh_sync = "meshsync-data";
  publish = λ subject m b. (none, b);
  marshal_json = as_uid;
  sum256 = λ text. text;
  marshal_yaml = as_uid;
  exists = λ name. false;
  current_date = "20250101";
  openable = λ name. none;
  disk = never;
  cancelled = λ c. false;
  interrupted = true;
}

abbrev defaults : Options (Unit {0}) (Unit {0})
defaults = record {
  output_mode = "";
  stop_after_duration = negsuc 0;
  kube_config = none;
  output_file_name = "";
  output_extended_file = true;
  broker_handler = none;
  context = tt;
  only_k8s_namespaces = [];
  only_k8s_resources = [];
  version = "v1";
  ping_endpoint = ":8222/connz";
  meshkit_config_provider = "viper";
}

abbrev to_file : List (Option (OptionsSetter (Unit {0}) (Unit {0})))
to_file = some (with_output_mode "file") ∷ none ∷ some (with_output_file_name "snap.yaml") ∷ []

abbrev nothing_held : Held
nothing_held = record {
  serving = false;
  informers = false;
  extended_file = false;
  main_file = false;
}

abbrev at_first : World (Unit {0}) (Unit {0})
at_first = record {
  globals = record {
    server = ("port", "11000") ∷ [];
    pipelines = default_pipelines;
    listeners = [];
  };
  stored = nothing_stored;
  health = record { ready = false };
  files = [];
  output = record { output = none };
  handler = none;
  goroutines = [];
  stop_closed = false;
  held = nothing_held;
  deferred = [];
}

not_waiting : (o : Outcome (Unit {0})) → o ≡ returned tt → o ≢ waiting
not_waiting o e f = cc

file_run_ends : (run (env "pods.v1.") defaults to_file at_first).0 ≡ returned tt
unfolding run set_options ◌>>=◌ lift fail_if when finish open_file determine_use_crd_flag
file_run_ends = refl

run_releases_example : HasReleased (run (env "pods.v1.") defaults to_file at_first).1.held
run_releases_example =
    run_releases (env "pods.v1.") defaults to_file at_first (refl, refl, refl) refl
      (not_waiting _ file_run_ends)

ready_with_broker_example :
    let options = with_output_mode output_mode_broker defaults in
    let (o, after) = set_outputs (env "pods.v1.") options at_first in
    (has after.output.output ≡ succeeded o)
    × ((handler after.health "/readyz").status
        ≡ (if options.output_mode == output_mode_broker && succeeded o then 200 else 503))
    × ((handler after.health "/healthz").status ≡ 200)
ready_with_broker_example =
    ready_with_broker (env "pods.v1.") (with_output_mode output_mode_broker defaults) at_first refl
      refl

-- The watch list with this one resource.
abbrev listing : String → MeshsyncConfig
listing white = record {
  black_list = [];
  pipelines = [];
  listeners = [];
  white_list = record { resource = white; events = default_events } ∷ [];
}

abbrev pods_name : String
pods_name = "pods.v1."

abbrev nodes_name : String
nodes_name = "nodes.v1."

pods_given : pods_name ≢ ""
pods_given e = cc

nodes_given : nodes_name ≢ ""
nodes_given e = cc

reads : (white : String) → white ≢ "" → ReadsLists (env white) tt (listing white)
unfolding crd_configs_of value_or_nil determine_use_crd_flag get_meshsync_crd_configs
    Startup.get_meshsync_crd_configs populate_configs_from_map populate_list validate_lists lookup
reads white nonempty = (refl, λ templates. rw (eq_false white "" nonempty) refl)

accepted : (white : String) → Accepts (env white) defaults tt nothing_stored
accepted white = (refl, refl, refl, refl, refl)

configure_selects_example :
    let after = (configure (env "pods.v1.") defaults at_first).1 in
    (after.stored.resources ≡ some after.globals.pipelines)
    × (pipelines_at after.globals.pipelines global_resource_key ≡ (
        if is_stage global_resource_key
        then selected_by (listing "pods.v1.") (pipelines_at default_pipelines global_resource_key)
        else []))
configure_selects_example =
    configure_selects (env "pods.v1.") defaults tt nothing_stored (listing "pods.v1.") at_first
      global_resource_key (accepted "pods.v1.") (reads "pods.v1." pods_given)

-- The process after a Run that watched the nodes only.
abbrev second_start : World (Unit {0}) (Unit {0})
second_start = record at_first {
  globals = (configure (env "nodes.v1.") defaults at_first).1.globals;
}

second_run_narrows_example :
    pipelines_at
      (configure (env "pods.v1.") defaults second_start).1.globals.pipelines
      global_resource_key
    ≡ selected_by
        (listing "pods.v1.")
        (selected_by (listing "nodes.v1.") (pipelines_at default_pipelines global_resource_key))
second_run_narrows_example =
    second_run_narrows (env "nodes.v1.") (env "pods.v1.") defaults defaults tt tt nothing_stored
      nothing_stored (listing "nodes.v1.") (listing "pods.v1.") at_first second_start
      global_resource_key (accepted "nodes.v1.") (accepted "pods.v1.")
      (reads "nodes.v1." nodes_given) (reads "pods.v1." pods_given) refl refl

-- The second Run asks for the pods, and watches nothing.
second_run_watches_nothing :
    selected_by
      (listing "pods.v1.")
      (selected_by (listing "nodes.v1.") (pipelines_at default_pipelines global_resource_key))
    ≡ []
unfolding filter_whitelisted_pipelines index_func default_pipelines backfill pipelines_at lookup
second_run_watches_nothing = refl
