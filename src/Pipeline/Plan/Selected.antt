-- ===== src/Pipeline/Plan/Selected.antt =====
-- The order of the steps that internal/pipeline/pipeline.go plans.
use meshsync.Common.{
  ◌≡◌, refl, ap, sym, ◌∙◌, Bool, true, not, List, [], ◌∷◌, ◌++◌, arith, keep, map,
}
use mathlib.Core.Path.{ap₂}
use mathlib.Core.List.{append-nil, append_assoc}
use meshsync.Common.Dict.{Dict}
use meshsync.Config.{PipelineConfigs, global_resource_key, local_resource_key}
use meshsync.Config.WatchList.{pipelines_at, is_empty}
use meshsync.Config.Filtration.{OutputFiltrationContainer}
use meshsync.Pipeline.Plan.{
  Step, register, start, Stage, should_filter_out_by_name, register_steps, stage_if_any, new,
}

-- All steps, in the order in which the stages have them.
abbrev pub all_steps : List Stage → List Step
all_steps [] = []
all_steps (stage ∷ stages) = stage.steps ++ all_steps stages

abbrev pub selected : Dict Bool → PipelineConfigs → PipelineConfigs
selected resources_set = keep (λ p. not (should_filter_out_by_name p.name resources_set))

register_steps-selected :
    (configs : PipelineConfigs) (resources_set : Dict Bool)
    → register_steps configs resources_set ≡ map register (selected resources_set configs)
unfolding register_steps
register_steps-selected [] resources_set = refl
register_steps-selected (p ∷ configs) resources_set =
    ground (arith, register_steps-selected configs resources_set)

all_steps-append : (xs ys : List Stage) → all_steps (xs ++ ys) ≡ all_steps xs ++ all_steps ys
all_steps-append [] ys = refl
all_steps-append (x ∷ xs) ys =
    ap (λ l. x.steps ++ l) (all_steps-append xs ys)
    ∙ sym (append_assoc x.steps (all_steps xs) (all_steps ys))

nil-of-is_empty : (l : List Step) → is_empty l ≡ true → l ≡ []
nil-of-is_empty [] h = refl
nil-of-is_empty (x ∷ l) h = cc

all_steps-stage_if_any : (stage : Stage) → all_steps (stage_if_any stage) ≡ stage.steps
unfolding stage_if_any
all_steps-stage_if_any stage = ground (arith, nil-of-is_empty stage.steps, append-nil stage.steps)

-- The plan registers an informer for each selected config exactly once, the global ones before the
-- local ones and each in the order of the configuration, and starts the informers once, after all
-- registrations.
pub plan_registers_then_starts :
    (pl_configs : Dict PipelineConfigs) (f : OutputFiltrationContainer)
    → all_steps (new pl_configs f)
      ≡ map register (selected f.resource_set (pipelines_at pl_configs global_resource_key))
        ++ (map register (selected f.resource_set (pipelines_at pl_configs local_resource_key))
            ++ start ∷ [])
unfolding new
plan_registers_then_starts pl_configs f =
    all_steps-append (stage_if_any global) (stage_if_any local ++ starting ∷ [])
    ∙ ap₂ ◌++◌
        (all_steps-stage_if_any global
          ∙ register_steps-selected (pipelines_at pl_configs global_resource_key) f.resource_set)
        (all_steps-append (stage_if_any local) (starting ∷ [])
          ∙ ap (λ l. l ++ start ∷ [])
              (all_steps-stage_if_any local
                ∙ register_steps-selected (pipelines_at pl_configs local_resource_key)
                    f.resource_set))
  where
    global : Stage
    global = record {
      name = global_resource_key;
      steps = register_steps (pipelines_at pl_configs global_resource_key) f.resource_set;
    }

    local : Stage
    local = record {
      name = local_resource_key;
      steps = register_steps (pipelines_at pl_configs local_resource_key) f.resource_set;
    }

    starting : Stage
    starting = record { name = "StartInformers"; steps = start ∷ [] }
