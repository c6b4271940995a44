-- ===== src/Startup/Run.antt =====
-- Run of pkg/lib/meshsync/meshsync.go, statement by statement: its parts are in Configure and Writers.
pub mod Effects
pub mod Externals
pub mod Configure
pub mod Writers
pub mod Kept
pub mod Careful
pub mod Ready
pub mod Releases
pub mod Settings
use meshsync.Startup.Run.Externals.{Env}
use meshsync.Startup.Run.Configure.{configure}
use meshsync.Startup.Run.Writers.{set_outputs}
use meshsync.Common.{
  ℕ, String, Bool, true, false, not, ◌||◌, Option, none, some, List, [], ◌∷◌, ◌==◌, contains,
  if◌then◌else◌,
}
use meshsync.Common.Int.{is_pos}
use meshsync.Common.Dict.{Dict, lookup, insert}
use meshsync.Common.Text.{concat, join}
use meshsync.Errors.{Error, message, Result, ok, err}
use meshsync.Config.{
  PipelineConfigs, ResourceConfig, ListenerConfig, MeshsyncConfig, resources_key, listeners_key,
}
use meshsync.Config.CustomResource.{get_meshsync_crd_configs, get_meshsync_crd_configs_local}
use meshsync.Config.Filtration.{new_output_namespace_set, new_output_resource_set}
use meshsync.Config.WatchList.{is_empty}
use meshsync.Model.{KubernetesResource}
use meshsync.Output.{Write, Message, Processor, new_processor, set_output}
use meshsync.Output.ContentDeduplicator
use meshsync.Output.ContentDeduplicator.{hash_resource}
use meshsync.Output.Streaming
use meshsync.Output.Yaml
use meshsync.Output.Yaml.{Files}
use meshsync.Snapshot.{generate_unique_file_name_for_snapshot}
use meshsync.Startup
use meshsync.Startup.{
  Attempt, broker_host, connectivity_test, broker_content_dedup_enabled, determine_use_crd_flag,
}
use meshsync.Startup.Options.{
  Options, OptionsSetter, allowed_output_modes, output_mode_broker, output_mode_file, set_options,
}
use meshsync.Startup.Health.{new_health_server, mark_ready}
use meshsync.Startup.Outputs.{default_format, extended_name, file_output, broker_output}
use meshsync.Startup.Run.Effects.{
  Globals, Stored, Sinks, Held, Goroutine, watch_crds, run_handler, listen_to_requests, Deferred,
  stop_health, shutdown_informer, close_extended, World, Outcome, returned, failed, panicked,
  waiting, Action, ◌>>=◌, ◌>>◌, pure, panic, wait, modify, gets, lift, fail_if, when, go, finish,
}

module _ {H C K V B : Type 0} (env : Env H C K V B) where
  abbrev A : Type 0 → Type 0
  A = Action H B

  unfoldable pub check_output_mode : Options H C → A (Unit {0})
  check_output_mode options =
      if contains allowed_output_modes options.output_mode then pure tt else (λ w. (
        failed (
            message (
              concat (
                "unsupported output mode \""
                ∷ options.output_mode
                ∷ "\", supported list is ["
                ∷ join ", " allowed_output_modes
                ∷ "]"
                ∷ []))),
        w,
      ))

  unfoldable pub start_health : A (Unit {0})
  start_health = modify λ w. record w {
    health = new_health_server;
    held = record w.held { serving = true };
    deferred = stop_health ∷ w.deferred;
  }

  -- meshsync.New, and the deferred call of ShutdownInformer. It has no error: GetListOptionsFunc
  -- never returns one.
  unfoldable pub new_handler : Options H C → Option H → A (Unit {0})
  new_handler options br = modify λ w. record w {
    handler = some (record {
      broker = br;
      output_filtration = record {
        namespace_set = new_output_namespace_set options.only_k8s_namespaces;
        resource_set = new_output_resource_set options.only_k8s_resources;
      };
    });
    held = record w.held { informers = true };
    deferred = shutdown_informer ∷ w.deferred;
  }

  -- The select: the timer is there if the duration is not negative.
  unfoldable pub await_end : Options H C → A (Unit {0})
  await_end options =
      if is_pos options.stop_after_duration || env.interrupted || env.cancelled options.context
      then pure tt
      else wait

  unfoldable pub serve : Options H C → Bool → A (Unit {0})
  unfolding await_end
  serve options use_crd_flag = do
    when use_crd_flag (go watch_crds)
    go run_handler
    when (options.output_mode == output_mode_broker) (go listen_to_requests)
    await_end options
    modify λ w. record w { stop_closed = true }

  unfoldable pub run_body : Options H C → A (Unit {0})
  unfolding check_output_mode start_health configure set_outputs new_handler serve
  run_body options = do
    check_output_mode options
    start_health
    use_crd_flag ← configure env options
    br ← set_outputs env options
    new_handler options br
    serve options use_crd_flag

  -- `defaults` are DefautOptions.
  unfoldable pub run :
      Options H C → List (Option (OptionsSetter H C)) → World H B → Outcome (Unit {0}) × World H B
  unfolding run_body
  run defaults setters w = finish (run_body (set_options setters defaults) w)
