-- ===== src/Handler/Discovery/Outcome.antt =====
-- What a discovery (meshsync/discovery.go) leaves behind.
use meshsync.Common.{
  String, ◌≡◌, ◌≢◌, refl, ap, sym, ◌∙◌, true, not, Option, none, some, List, [], ◌∷◌, ◌++◌, arith,
  map, any,
}
use mathlib.Core.List.{append_assoc, map-append}
use meshsync.Common.Dict.{Dict, lookup, has}
use meshsync.Errors.{Error, ok}
use meshsync.Config.{PipelineConfigs, global_resource_key, local_resource_key}
use meshsync.Config.Pipelines.{contains}
use meshsync.Config.WatchList.{pipelines_at}
use meshsync.Config.Filtration.{OutputFiltrationContainer}
use meshsync.Pipeline.Plan
use meshsync.Pipeline.Plan.{Step, Stage, register, start}
use meshsync.Pipeline.Plan.Selected.{all_steps, selected, plan_registers_then_starts}
use meshsync.Pipeline.Steps.{GroupVersionResource, Factory, Stores, StepResult, exec}
use meshsync.Pipeline.Steps.Discovery.{
  run_steps, parses, AllParse, handled, store_of, stores_after, factory_after, run-registers,
  store_of-stores_after, handled-factory_after, run-unparsed, parses-contains,
}
use meshsync.Handler.Discovery.{State, start_discovery, keep_result}

-- The configs whose informers a discovery registers.
abbrev pub watched : Dict PipelineConfigs → OutputFiltrationContainer → PipelineConfigs
watched cfgs f =
    selected f.resource_set (pipelines_at cfgs global_resource_key)
    ++ selected f.resource_set (pipelines_at cfgs local_resource_key)

planned :
    (cfgs : Dict PipelineConfigs) (f : OutputFiltrationContainer)
    → all_steps (Plan.new cfgs f) ≡ map register (watched cfgs f) ++ start ∷ []
planned cfgs f =
    plan_registers_then_starts cfgs f
    ∙ (sym (
          append_assoc
            (map register (selected f.resource_set (pipelines_at cfgs global_resource_key)))
            (map register (selected f.resource_set (pipelines_at cfgs local_resource_key)))
            (start ∷ []))
        ∙ ap (λ l. l ++ start ∷ [])
            (sym (
              map-append register (selected f.resource_set (pipelines_at cfgs global_resource_key))
                (selected f.resource_set (pipelines_at cfgs local_resource_key)))))

keep_result-informer :
    (old : Stores) (e : Option Error) (o : Option Stores) (f : Factory)
    → (keep_result old e o f).informer ≡ f
unfolding keep_result
keep_result-informer old (some e) o f = refl
keep_result-informer old none none f = refl
keep_result-informer old none (some stores) f = refl

keep_result-failed :
    (old : Stores) (e : Option Error) (o : Option Stores) (f : Factory)
    → e ≢ none
    → (keep_result old e o f).stores ≡ old
unfolding keep_result
keep_result-failed old (some e) o f h = refl
keep_result-failed old none o f h = absurd (h refl)

lookup-keep_result :
    (parse_resource_arg : String → Option GroupVersionResource) (old : Stores) (o : Option Stores)
    (f : Factory) (name : String) (v : Option GroupVersionResource)
    → store_of parse_resource_arg o name ≡ v
    → has v ≡ true
    → lookup (keep_result old none o f).stores name ≡ v
unfolding keep_result
lookup-keep_result parse_resource_arg old none f name v e h = absurd (ground (arith, e))
lookup-keep_result parse_resource_arg old (some stores) f name v e h = e

module _ (parse_resource_arg : String → Option GroupVersionResource)
    (run_pipeline : List Stage → Factory → StepResult × Factory)
    (runs_in_order : (stages : List Stage) (f : Factory)
      → run_pipeline stages f ≡ run_steps parse_resource_arg (all_steps stages) none f) where
  runs :
      (cfgs : Dict PipelineConfigs) (f : OutputFiltrationContainer) (informer : Factory)
      → run_pipeline (Plan.new cfgs f) informer
        ≡ run_steps parse_resource_arg (map register (watched cfgs f) ++ start ∷ []) none informer
  runs cfgs f informer =
      runs_in_order _ informer
      ∙ ap (λ l. run_steps parse_resource_arg l none informer) (planned cfgs f)

  start-run :
      (request : Option Stores) (f : Factory)
      → run_steps parse_resource_arg (start ∷ []) request f
        ≡ (record { error = none; stores = request }, record f { started = true })
  unfolding run_steps exec
  start-run request f = refl

  finished :
      (cfgs : Dict PipelineConfigs) (f : OutputFiltrationContainer) (informer : Factory)
      → AllParse parse_resource_arg (watched cfgs f)
      → run_pipeline (Plan.new cfgs f) informer ≡ (
        record { error = none; stores = stores_after parse_resource_arg (watched cfgs f) none },
        record (factory_after parse_resource_arg (watched cfgs f) informer) { started = true },
      )
  finished cfgs f informer h =
      runs cfgs f informer
      ∙ (run-registers parse_resource_arg (watched cfgs f) (start ∷ []) none informer h
          ∙ start-run _ _)

  -- If the pipeline library runs the planned steps in order up to the first error, and the name of
  -- every watched config parses, then the informers of all of them are registered, in order, and
  -- started, and under each watched name the handler has the store of the resource that the name
  -- parses to.
  pub discovery_completes :
      (cfgs : Dict PipelineConfigs) (f : OutputFiltrationContainer) (h : State) (name : String)
      → AllParse parse_resource_arg (watched cfgs f)
      → contains (watched cfgs f) name ≡ true
      → let after = start_discovery run_pipeline f (ok cfgs) h in
        (handled parse_resource_arg after.informer
          ≡ handled parse_resource_arg h.informer ++ watched cfgs f)
        × (after.informer.started ≡ true)
        × (lookup after.stores name ≡ parse_resource_arg name)
  unfolding start_discovery
  discovery_completes cfgs f h name good there = rw (finished cfgs f h.informer good) (
      let (all, same) = handled-factory_after parse_resource_arg (watched cfgs f) h.informer good in
      let stores = stores_after parse_resource_arg (watched cfgs f) none in
      let informer : Factory =
        record (factory_after parse_resource_arg (watched cfgs f) h.informer) { started = true } in
      (
        ap (handled parse_resource_arg) (keep_result-informer h.stores none stores informer) ∙ all,
        ap (λ (i : Factory). i.started) (keep_result-informer h.stores none stores informer),
        lookup-keep_result parse_resource_arg h.stores stores informer name
            (parse_resource_arg name)
            (store_of-stores_after parse_resource_arg (watched cfgs f) none name good
              ∙ ground (arith, there))
            (parses-contains parse_resource_arg (watched cfgs f) name good there),
      ))

  -- If the pipeline library runs the planned steps in order up to the first error, and the name of
  -- one watched config does not parse, the handler keeps its old stores, and no
  -- informer is started: none of the others either.
  pub discovery_fails :
      (cfgs : Dict PipelineConfigs) (f : OutputFiltrationContainer) (h : State)
      → any (λ p. not (parses parse_resource_arg p)) (watched cfgs f) ≡ true
      → let after = start_discovery run_pipeline f (ok cfgs) h in
        (after.stores ≡ h.stores) × (after.informer.started ≡ h.informer.started)
  unfolding start_discovery
  discovery_fails cfgs f h bad = rw (runs cfgs f h.informer) (
      let (result, after) =
        run_steps parse_resource_arg (map register (watched cfgs f) ++ start ∷ []) none
          h.informer in
      let (fails, same) =
        run-unparsed parse_resource_arg (watched cfgs f) (start ∷ []) none h.informer bad in
      (
        keep_result-failed h.stores result.error result.stores after fails,
        ap (λ (i : Factory). i.started)
              (keep_result-informer h.stores result.error result.stores after)
            ∙ same,
      ))
