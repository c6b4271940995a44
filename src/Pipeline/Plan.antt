-- ===== src/Pipeline/Plan.antt =====
-- internal/pipeline/pipeline.go: the stages of a discovery. A step is the pipeline config whose
-- informer it registers, or the start of all informers.
pub mod Selected
use meshsync.Common.{
  String, Bool, true, false, not, ◌||◌, Option, none, some, List, [], ◌∷◌, ◌++◌, ◌==◌,
  if◌then◌else◌,
}
use meshsync.Common.Dict.{Dict}
use meshsync.Common.Text.{split}
use meshsync.Config.{PipelineConfig, PipelineConfigs, global_resource_key, local_resource_key}
use meshsync.Config.WatchList.{is_empty, pipelines_at}
use meshsync.Config.Filtration.{OutputFiltrationContainer}
use meshsync.Config.Filtration

pub data Step : Type 0 where
  register : PipelineConfig → Step
  start : Step

pub record Stage : Type 0 where
  pub name : String
  pub steps : List Step

-- parts[0]: strings.Split gives at least one part.
first_part : List String → String
first_part [] = ""
first_part (part ∷ parts) = part

unfoldable pub should_filter_out_by_name : String → Dict Bool → Bool
unfolding first_part
should_filter_out_by_name name resources_set =
    if is_empty resources_set
    then false
    else not (Filtration.contains resources_set (first_part (split b'.' name)))

-- The loop that adds the steps of a stage.
unfoldable pub register_steps : PipelineConfigs → Dict Bool → List Step
register_steps [] resources_set = []
register_steps (config ∷ configs) resources_set =
    let rest = register_steps configs resources_set in
    if should_filter_out_by_name config.name resources_set then rest else register config ∷ rest

stage_if_any : Stage → List Stage
stage_if_any stage = if is_empty stage.steps then [] else stage ∷ []

unfoldable pub new : Dict PipelineConfigs → OutputFiltrationContainer → List Stage
unfolding stage_if_any
new pl_configs output_filtration =
    let gdstage : Stage = record {
      name = global_resource_key;
      steps =
          register_steps (pipelines_at pl_configs global_resource_key)
            output_filtration.resource_set;
    } in
    let ldstage : Stage = record {
      name = local_resource_key;
      steps =
          register_steps (pipelines_at pl_configs local_resource_key)
            output_filtration.resource_set;
    } in
    let strt_infmrs : Stage = record { name = "StartInformers"; steps = start ∷ [] } in
    stage_if_any gdstage ++ (stage_if_any ldstage ++ strt_infmrs ∷ [])
