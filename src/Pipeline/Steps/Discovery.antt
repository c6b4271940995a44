-- ===== src/Pipeline/Steps/Discovery.antt =====
-- What a run of the planned steps does. The pipeline library runs the stages, and the steps of a
-- stage that is not concurrent, one after another, hands the data of each result to the next step,
-- and stops at the first error: `run_steps` says so of the steps in order.
use meshsync.Common.{
  String, ◌≡◌, ◌≢◌, refl, ap, sym, ◌∙◌, inl, inr, Bool, true, false, not, Option, none, some,
  Option-cases, Bool-cases, List, [], ◌∷◌, ◌++◌, arith, map, any, All, ◌==◌, eq_iff, if◌then◌else◌,
}
use mathlib.Core.List.{append-nil, append_assoc, map-append}
use mathlib.Core.Path.{subst}
use meshsync.Common.Dict.{lookup, insert, has, lookup-insert, lookup-nil}
use meshsync.Config.{PipelineConfig, PipelineConfigs}
use meshsync.Config.Pipelines.{contains}
use meshsync.Pipeline.Plan.{Step, register}
use meshsync.Pipeline.Steps.{GroupVersionResource, Factory, Stores, StepResult, stores_or_new, exec}

module _ (parse_resource_arg : String → Option GroupVersionResource) where
  unfoldable pub run_steps : List Step → Option Stores → Factory → StepResult × Factory
  run_steps [] request f = (record { error = none; stores = request }, f)
  run_steps (step ∷ steps) request f =
      let (r, f') = exec parse_resource_arg step request f in
      elim r.error [ none ↦ run_steps steps r.stores f' | some e ↦ (r, f') ]

  abbrev pub parses : PipelineConfig → Bool
  parses p = has (parse_resource_arg p.name)

  abbrev pub AllParse : PipelineConfigs → Type 0
  AllParse = All (λ p. parses p ≡ true)

  with_store : Option Stores → String → Option GroupVersionResource → Option Stores
  with_store request name none = request
  with_store request name (some gvr) = some (insert (stores_or_new request) name gvr)

  with_handler : Factory → PipelineConfig → Option GroupVersionResource → Factory
  with_handler f p none = f
  with_handler f p (some gvr) = record f { handlers = f.handlers ++ (gvr, p) ∷ [] }

  -- The data after the registrations of these configs, and the factory.
  pub stores_after : PipelineConfigs → Option Stores → Option Stores
  stores_after [] request = request
  stores_after (p ∷ ps) request =
      stores_after ps (with_store request p.name (parse_resource_arg p.name))

  pub factory_after : PipelineConfigs → Factory → Factory
  factory_after [] f = f
  factory_after (p ∷ ps) f = factory_after ps (with_handler f p (parse_resource_arg p.name))

  run-register :
      (p : PipelineConfig) (steps : List Step) (request : Option Stores) (f : Factory)
      → parses p ≡ true
      → run_steps (register p ∷ steps) request f
        ≡ run_steps steps
            (with_store request p.name (parse_resource_arg p.name))
            (with_handler f p (parse_resource_arg p.name))
  unfolding run_steps exec with_store with_handler
  run-register p steps request f h = ground arith

  pub run-registers :
      (ps : PipelineConfigs) (steps : List Step) (request : Option Stores) (f : Factory)
      → AllParse ps
      → run_steps (map register ps ++ steps) request f
        ≡ run_steps steps (stores_after ps request) (factory_after ps f)
  unfolding stores_after factory_after
  run-registers [] steps request f h = refl
  run-registers (p ∷ ps) steps request f h =
      run-register p (map register ps ++ steps) request f h.0 ∙ run-registers ps steps _ _ h.1

  abbrev pub store_of : Option Stores → String → Option GroupVersionResource
  store_of none name = none
  store_of (some stores) name = lookup stores name

  store_of-stores_or_new :
      (request : Option Stores) (name : String)
      → lookup (stores_or_new request) name ≡ store_of request name
  store_of-stores_or_new none name = lookup-nil name
  store_of-stores_or_new (some stores) name = refl

  store_of-with_store :
      (request : Option Stores) (p name : String)
      → has (parse_resource_arg p) ≡ true
      → store_of (with_store request p (parse_resource_arg p)) name
        ≡ (if p == name then parse_resource_arg name else store_of request name)
  unfolding with_store
  store_of-with_store request p name h = elim (Option-cases (parse_resource_arg p)) [
    | inl none_parsed ↦ absurd (ground (arith, none_parsed))
    | inr (gvr, e) ↦
        rw (e, with_store)
          (lookup-insert (stores_or_new request) p name gvr
            ∙ ground (arith, e, eq_iff p name, store_of-stores_or_new request name))
  ]

  -- After the registrations the store of each name is that of its resource.
  pub store_of-stores_after :
      (ps : PipelineConfigs) (request : Option Stores) (name : String)
      → AllParse ps
      → store_of (stores_after ps request) name
        ≡ (if contains ps name then parse_resource_arg name else store_of request name)
  unfolding stores_after contains
  store_of-stores_after [] request name h = refl
  store_of-stores_after (p ∷ ps) request name h = ground (
    arith,
    store_of-stores_after ps (with_store request p.name (parse_resource_arg p.name)) name h.1,
    store_of-with_store request p.name name h.0,
  )

  abbrev pub handled : Factory → PipelineConfigs
  handled f = map (λ h. h.1) f.handlers

  handled-with_handler :
      (f : Factory) (p : PipelineConfig)
      → parses p ≡ true
      → (handled (with_handler f p (parse_resource_arg p.name)) ≡ handled f ++ p ∷ [])
        × ((with_handler f p (parse_resource_arg p.name)).started ≡ f.started)
  unfolding with_handler
  handled-with_handler f p h = elim (Option-cases (parse_resource_arg p.name)) [
    | inl none_parsed ↦ absurd (ground (arith, none_parsed))
    | inr (gvr, e) ↦
        rw (e, with_handler)
          (
            map-append (λ (h : GroupVersionResource × PipelineConfig). h.1) f.handlers
                ((gvr, p) ∷ []),
            refl,
          )
  ]

  pub handled-factory_after :
      (ps : PipelineConfigs) (f : Factory)
      → AllParse ps
      → (handled (factory_after ps f) ≡ handled f ++ ps)
        × ((factory_after ps f).started ≡ f.started)
  unfolding factory_after
  handled-factory_after [] f h = (sym (append-nil (handled f)), refl)
  handled-factory_after (p ∷ ps) f h =
      let (rest, same) =
        handled-factory_after ps (with_handler f p (parse_resource_arg p.name)) h.1 in
      let (one, kept) = handled-with_handler f p h.0 in
      (rest ∙ (ap (λ l. l ++ ps) one ∙ append_assoc (handled f) (p ∷ []) ps), same ∙ kept)

  pub parses-contains :
      (ps : PipelineConfigs) (name : String)
      → AllParse ps
      → contains ps name ≡ true
      → has (parse_resource_arg name) ≡ true
  unfolding contains
  parses-contains [] name h there = absurd (ground arith)
  parses-contains (p ∷ ps) name h there = elim (Bool-cases (p.name == name)) [
    | inl same ↦ ap (λ n. has (parse_resource_arg n)) (sym ((eq_iff p.name name).0 same)) ∙ h.0
    | inr other ↦ parses-contains ps name h.1 (ground (arith, other))
  ]

  stops :
      (p : PipelineConfig) (steps : List Step) (request : Option Stores) (f : Factory)
      → parses p ≡ false
      → ((run_steps (register p ∷ steps) request f).0.error ≢ none)
        × ((run_steps (register p ∷ steps) request f).1.started ≡ f.started)
  unfolding run_steps exec
  stops p steps request f h = ground arith

  -- If some config does not parse, the run ends with an error, and it has started nothing.
  pub run-unparsed :
      (ps : PipelineConfigs) (steps : List Step) (request : Option Stores) (f : Factory)
      → any (λ p. not (parses p)) ps ≡ true
      → ((run_steps (map register ps ++ steps) request f).0.error ≢ none)
        × ((run_steps (map register ps ++ steps) request f).1.started ≡ f.started)
  run-unparsed [] steps request f h = cc
  run-unparsed (p ∷ ps) steps request f h = elim (Bool-cases (parses p)) [
    | inl good ↦
        subst (λ r. (r.0.error ≢ none) × (r.1.started ≡ f.started))
          (sym (run-register p (map register ps ++ steps) request f good))
          (let (fails, same) = run-unparsed ps steps _ _ (ground (arith, good)) in
            (fails, same ∙ (handled-with_handler f p good).1))
    | inr bad ↦ stops p (map register ps ++ steps) request f bad
  ]
