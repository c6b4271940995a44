-- ===== src/Pipeline/Steps.antt =====
-- internal/pipeline/step.go: what the steps do to the informer factory. The factory of client-go
-- is seen by the informers that have been asked for, the handlers added to each, and whether
-- Start was called. `parse_resource_arg` is ParseResourceArg of apimachinery, `none` for a nil
-- GVR; `wait_for_cache_sync` is the answer of WaitForCacheSync, which the steps only log.
pub mod Discovery
use meshsync.Common.{String, Bool, true, false, Option, none, some, List, [], ◌∷◌, ◌++◌}
use meshsync.Common.Dict.{Dict, insert}
use meshsync.Errors.{Error, message}
use meshsync.Config.{PipelineConfig, err_init_config}
use meshsync.Pipeline.Plan.{Step, register, start}

pub record GroupVersionResource : Type 0 where
  pub group : String
  pub version : String
  pub resource : String

-- One entry for each handler added: the resource of the informer and the config of the handler.
pub record Factory : Type 0 where
  pub handlers : List (GroupVersionResource × PipelineConfig)
  pub started : Bool

-- The store of an informer is named by its resource. `data` is nil before the first step.
abbrev pub Stores : Type 0
Stores = Dict GroupVersionResource

-- `Result` of the pipeline library, with the field `Data`.
pub record StepResult : Type 0 where
  pub error : Option Error
  pub stores : Option Stores

abbrev stores_or_new : Option Stores → Stores
stores_or_new none = []
stores_or_new (some stores) = stores

module _ (parse_resource_arg : String → Option GroupVersionResource) where
  register_informer :
      PipelineConfig → Option GroupVersionResource → Option Stores → Factory → StepResult × Factory
  register_informer config none request f = (
    record {
      error = some (err_init_config (message "error parsing resource arg, gvr not found"));
      stores = none;
    },
    f,
  )
  register_informer config (some gvr) request f = (
    record { error = none; stores = some (insert (stores_or_new request) config.name gvr) },
    record f { handlers = f.handlers ++ (gvr, config) ∷ [] },
  )

  -- The two Exec methods.
  unfoldable pub exec : Step → Option Stores → Factory → StepResult × Factory
  unfolding register_informer
  exec (register config) request f =
      register_informer config (parse_resource_arg config.name) request f
  exec start request f = (record { error = none; stores = request }, record f { started = true })
