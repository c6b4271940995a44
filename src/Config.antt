-- ===== src/Config.antt =====
-- internal/config/types.go and internal/config/error.go: pipeline, listener and resource
-- configurations. The children model the rest of internal/config.
pub mod Pipelines
pub mod Defaults
pub mod WatchList
pub mod Filtration
pub mod CustomResource
pub mod Provider
use meshsync.Common.{String, List}
use meshsync.Common.Dict.{Dict}
use meshsync.Errors.{Error, coded}

pub record PipelineConfig : Type 0 where
  pub name : String
  pub publish_to : String
  pub events : List String

abbrev pub PipelineConfigs : Type 0
PipelineConfigs = List PipelineConfig

pub record ListenerConfig : Type 0 where
  pub name : String
  pub connection_name : String
  pub publish_to : String
  pub subscribe_to : String
  pub events : List String

pub record ResourceConfig : Type 0 where
  pub resource : String
  pub events : List String

-- A nil map reads as an empty one.
pub record MeshsyncConfig : Type 0 where
  pub black_list : List String
  pub pipelines : Dict PipelineConfigs
  pub listeners : Dict ListenerConfig
  pub white_list : List ResourceConfig

abbrev pub global_resource_key : String
global_resource_key = "global"

abbrev pub local_resource_key : String
local_resource_key = "local"

abbrev pub resources_key : String
resources_key = "resources"

abbrev pub listeners_key : String
listeners_key = "listeners"

abbrev pub log_stream : String
log_stream = "log-stream"

abbrev pub exec_shell : String
exec_shell = "exec-shell"

abbrev pub request_stream : String
request_stream = "request-stream"

unfoldable pub err_init_config : Error → Error
err_init_config e = coded "1000" "Error while initializing MeshSync configuration. " e
