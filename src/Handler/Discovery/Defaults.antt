-- ===== src/Handler/Discovery/Defaults.antt =====
-- The discovery over the default pipelines of internal/config/default_config.go, one of which,
-- "service.apis", is not of the form resource.version.group.
use meshsync.Common.{
  ℕ, zero, suc, ◌≤◌, String, ◌≡◌, refl, ap, ◌∙◌, Bool, true, false, not, Option, none, some, List,
  [], ◌∷◌, arith, any, any-append, keep, length,
}
use meshsync.Common.Dict.{lookup, has}
use meshsync.Common.Text.{split}
use meshsync.Errors.{ok}
use meshsync.Config.{PipelineConfig, global_resource_key, local_resource_key}
use meshsync.Config.Defaults.{default_pipelines, default_events, backfill}
use meshsync.Config.Defaults.Templates.{default_publishing_subject}
use meshsync.Config.WatchList.{pipelines_at}
use meshsync.Config.Filtration.{OutputFiltrationContainer}
use meshsync.Pipeline.Plan.{Stage, should_filter_out_by_name}
use meshsync.Pipeline.Plan.Selected.{all_steps, selected}
use meshsync.Pipeline.Steps.{GroupVersionResource, Factory, StepResult}
use meshsync.Pipeline.Steps.Discovery.{run_steps, parses}
use meshsync.Handler.Discovery.{State, start_discovery}
use meshsync.Handler.Discovery.Outcome.{watched, discovery_fails}

module _ {ℓ} {A : Type ℓ} where
  abbrev at : List A → ℕ → Option A
  at [] n = none
  at (x ∷ xs) zero = some x
  at (x ∷ xs) (suc n) = at xs n

  any-keep :
      (p q : A → Bool) (xs : List A) (n : ℕ) (x : A)
      → at xs n ≡ some x
      → q x ≡ true
      → p x ≡ true
      → any p (keep q xs) ≡ true
  any-keep p q [] n x e h k = cc
  any-keep p q (y ∷ xs) zero x e h k = ground (arith, e)
  any-keep p q (y ∷ xs) (suc n) x e h k = ground (arith, any-keep p q xs n x e h k)

abbrev service_apis : PipelineConfig
service_apis = record {
  name = "service.apis";
  publish_to = default_publishing_subject;
  events = default_events;
}

has_service_apis : at (pipelines_at default_pipelines local_resource_key) 12 ≡ some service_apis
unfolding default_pipelines backfill pipelines_at lookup
has_service_apis = refl

two_parts : length (split b'.' "service.apis") ≡ 2
unfolding split
two_parts = refl

watched_fails :
    (parse_resource_arg : String → Option GroupVersionResource) (f : OutputFiltrationContainer)
    → parse_resource_arg "service.apis" ≡ none
    → should_filter_out_by_name "service.apis" f.resource_set ≡ false
    → any (λ p. not (parses parse_resource_arg p)) (watched default_pipelines f) ≡ true
watched_fails parse_resource_arg f h k =
    any-append (λ p. not (parses parse_resource_arg p))
      (selected f.resource_set (pipelines_at default_pipelines global_resource_key))
      (selected f.resource_set (pipelines_at default_pipelines local_resource_key))
    ∙ ground (
      arith,
      any-keep (λ p. not (parses parse_resource_arg p))
          (λ p. not (should_filter_out_by_name p.name f.resource_set))
          (pipelines_at default_pipelines local_resource_key) 12 service_apis has_service_apis
          (ap not k) (ap (λ o. not (has o)) h),
    )

-- A discovery over the default pipelines, if the output filter does not leave out "service", keeps
-- the old stores and starts no informer, whatever the handler's state, for every parser that gives
-- no resource for a name of at most two parts, if the pipeline library runs the planned steps in
-- order up to the first error.
pub default_discovery_fails :
    (parse_resource_arg : String → Option GroupVersionResource)
    (run_pipeline : List Stage → Factory → StepResult × Factory)
    (runs_in_order : (stages : List Stage) (f : Factory)
      → run_pipeline stages f ≡ run_steps parse_resource_arg (all_steps stages) none f)
    (needs_two_dots : (name : String)
      → length (split b'.' name) ≤ 2
      → parse_resource_arg name ≡ none)
    (f : OutputFiltrationContainer) (h : State)
    → should_filter_out_by_name "service.apis" f.resource_set ≡ false
    → let after = start_discovery run_pipeline f (ok default_pipelines) h in
      (after.stores ≡ h.stores) × (after.informer.started ≡ h.informer.started)
default_discovery_fails parse_resource_arg run_pipeline runs_in_order needs_two_dots f h kept =
    discovery_fails parse_resource_arg run_pipeline runs_in_order default_pipelines f h (
      watched_fails parse_resource_arg f (needs_two_dots "service.apis" (ground (arith, two_parts)))
        kept)
