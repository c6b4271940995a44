-- ===== src/Handler/Discovery.antt =====
-- startDiscovery of meshsync/discovery.go: one run of the discovery pipeline. `run_pipeline` is Run
-- of the pipeline library.
pub mod Outcome
pub mod Defaults
use meshsync.Common.{Option, none, some, List}
use meshsync.Common.Dict.{Dict}
use meshsync.Errors.{Error, Result, ok, err}
use meshsync.Config.{PipelineConfigs}
use meshsync.Config.Filtration.{OutputFiltrationContainer}
use meshsync.Pipeline.Plan
use meshsync.Pipeline.Plan.{Stage}
use meshsync.Pipeline.Steps.{Factory, Stores, StepResult}

-- The fields of the handler that a discovery changes: the stores, and the factory.
pub record State : Type 0 where
  pub stores : Stores
  pub informer : Factory

unfoldable pub keep_result : Stores → Option Error → Option Stores → Factory → State
keep_result old (some e) stores f = record { stores = old; informer = f }
keep_result old none none f = record { stores = old; informer = f }
keep_result old none (some stores) f = record { stores = stores; informer = f }

module _ (run_pipeline : List Stage → Factory → StepResult × Factory) where
  unfoldable pub start_discovery :
      OutputFiltrationContainer → Result (Dict PipelineConfigs) → State → State
  unfolding keep_result
  start_discovery output_filtration (err e) h = h
  start_discovery output_filtration (ok pipeline_configs) h =
      let (result, f) = run_pipeline (Plan.new pipeline_configs output_filtration) h.informer in
      keep_result h.stores result.error result.stores f
