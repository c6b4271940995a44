-- ===== src/Startup/Run/Configure.antt =====
-- The part of Run (pkg/lib/meshsync/meshsync.go) from the kube client to the configuration.
use meshsync.Startup.Run.Externals.{Env}
use meshsync.Common.{String, Bool, Option, none, some, if◌then◌else◌}
use meshsync.Common.Dict.{Dict, insert}
use meshsync.Errors.{Result, ok, err}
use meshsync.Config.{PipelineConfigs, MeshsyncConfig, resources_key, listeners_key}
use meshsync.Config.CustomResource.{get_meshsync_crd_configs, get_meshsync_crd_configs_local}
use meshsync.Config.WatchList.{is_empty}
use meshsync.Startup
use meshsync.Startup.{
  Attempt, broker_host, connectivity_test, broker_content_dedup_enabled, determine_use_crd_flag,
}
use meshsync.Startup.Options.{Options}
use meshsync.Startup.Run.Effects.{
  Globals, Stored, World, Action, ◌>>=◌, ◌>>◌, pure, panic, modify, gets, lift, fail_if,
}

abbrev pub server_key : String
server_key = "server-config"

unfoldable pub assign_configs : Option MeshsyncConfig → Globals → Globals
assign_configs none g = g
assign_configs (some crd_configs) g = record g {
  pipelines = crd_configs.pipelines;
  listeners = if is_empty crd_configs.listeners then g.listeners else crd_configs.listeners;
}

-- Of a configuration and an error, the configuration, nil if there is an error.
unfoldable pub value_or_nil : Result MeshsyncConfig → Option MeshsyncConfig
value_or_nil (err e) = none
value_or_nil (ok c) = some c

module _ {H C K V B : Type 0} (env : Env H C K V B) where
  abbrev A : Type 0 → Type 0
  A = Action H B

  unfoldable pub crd_configs_of : Bool → K → Dict PipelineConfigs → Option MeshsyncConfig
  crd_configs_of use_crd_flag kube_client templates = value_or_nil (
      Startup.get_meshsync_crd_configs use_crd_flag
        (get_meshsync_crd_configs env.object env.is_nil env.marshal env.unmarshal env.decode_names
          env.decode_resources templates (env.crd_at_config kube_client))
        (get_meshsync_crd_configs_local env.object env.is_nil env.marshal env.unmarshal
          env.decode_names env.decode_resources templates))

  -- cfg.SetObject: a call of a nil provider panics.
  unfoldable pub set_object : Option Stored → String → (World H B → World H B) → A (Unit {0})
  set_object none key store = panic
  set_object (some cfg) key store = fail_if (env.set_object key) >> modify store

  unfoldable pub set_server : String → A (Unit {0})
  set_server version = modify λ w. record w {
    globals = record w.globals { server = insert w.globals.server "version" version };
  }

  unfoldable pub seed : Option Stored → Option MeshsyncConfig → Options H C → A (Unit {0})
  unfolding set_object set_server
  seed cfg crd_configs options = do
    set_server options.version
    set_object cfg server_key
        (λ w. record w { stored = record w.stored { server = some w.globals.server } })
    modify λ w. record w { globals = assign_configs crd_configs w.globals }
    modify λ w. record w { stored = record w.stored { broker_url = env.broker_url } }
    set_object cfg resources_key
        (λ w. record w { stored = record w.stored { resources = some w.globals.pipelines } })
    set_object cfg listeners_key
        (λ w. record w { stored = record w.stored { listeners = some w.globals.listeners } })

  -- From the kube client to the configuration: whether the custom resource is there.
  unfoldable pub configure : Options H C → A Bool
  unfolding seed
  configure options = do
    kube_client ← lift (env.new_client options.kube_config)
    let use_crd_flag = determine_use_crd_flag (env.crd_at_flag kube_client)
    crd_configs ← gets (λ w. crd_configs_of use_crd_flag kube_client w.globals.pipelines)
    cfg ← lift (env.new_config options.meshkit_config_provider)
    seed cfg crd_configs options
    pure use_crd_flag
