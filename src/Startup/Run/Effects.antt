-- ===== src/Startup/Run/Effects.antt =====
-- The state of a Run (pkg/lib/meshsync/meshsync.go) and the actions on it. The variables of the
-- package internal/config, which outlive a Run, are its `globals`. A deferred call gives back one of
-- the things that are `held`.
use meshsync.Common.{String, Bool, true, false, Option, none, some, List, [], ◌∷◌}
use meshsync.Common.Dict.{Dict}
use meshsync.Errors.{Error, Result, ok, err}
use meshsync.Config.{PipelineConfigs, ListenerConfig}
use meshsync.Config.Filtration.{OutputFiltrationContainer}
use meshsync.Output.{Processor}
use meshsync.Output.ContentDeduplicator
use meshsync.Output.Streaming
use meshsync.Output.Yaml.{Files}
use meshsync.Startup.Health.{HealthServer}

pub record Globals : Type 0 where
  pub server : Dict String
  pub pipelines : Dict PipelineConfigs
  pub listeners : Dict ListenerConfig

-- What the configuration provider holds.
pub record Stored : Type 0 where
  pub server : Option (Dict String)
  pub broker_url : String
  pub resources : Option (Dict PipelineConfigs)
  pub listeners : Option (Dict ListenerConfig)

-- What the writers write to.
pub record Sinks (B : Type 0) : Type 0 where
  pub broker : ContentDeduplicator.State B
  pub files : Streaming.State Files

-- The health server's port and goroutine, the informers, and the two files.
pub record Held : Type 0 where
  pub serving : Bool
  pub informers : Bool
  pub extended_file : Bool
  pub main_file : Bool

pub data Deferred : Type 0 where
  stop_health shutdown_informer close_extended : Deferred

pub data Goroutine : Type 0 where
  watch_crds run_handler listen_to_requests : Goroutine

-- What meshsync.New is called with, beside the processor.
pub record Parts (H : Type 0) : Type 0 where
  pub broker : Option H
  pub output_filtration : OutputFiltrationContainer

pub record World (H B : Type 0) : Type 0 where
  pub globals : Globals
  pub stored : Stored
  pub health : HealthServer
  pub files : Files
  pub output : Processor (Sinks B)
  pub handler : Option (Parts H)
  pub goroutines : List Goroutine
  pub stop_closed : Bool
  pub held : Held
  pub deferred : List Deferred

-- A call returns, returns an error, panics, or still waits.
pub data Outcome (A : Type 0) : Type 0 where
  returned : A → Outcome A
  failed : Error → Outcome A
  panicked : Outcome A
  waiting : Outcome A

abbrev pub Action : Type 0 → Type 0 → Type 0 → Type 0
Action H B A = World H B → Outcome A × World H B

module _ {H B : Type 0} where
  -- The rest of a call, unless the part before has ended it.
  abbrev pub continue :
      {A A' : Type 0} → Outcome A × World H B → (A → Action H B A') → Outcome A' × World H B
  continue (returned a, w) f = f a w
  continue (failed e, w) f = (failed e, w)
  continue (panicked, w) f = (panicked, w)
  continue (waiting, w) f = (waiting, w)

  infixl 5 ◌>>=◌ ◌>>◌
  unfoldable pub ◌>>=◌ : {A A' : Type 0} → Action H B A → (A → Action H B A') → Action H B A'
  ◌>>=◌ m f w = continue (m w) f

  abbrev pub ◌>>◌ : {A A' : Type 0} → Action H B A → Action H B A' → Action H B A'
  m >> k = m >>= λ _. k

  abbrev pub pure : {A : Type 0} → A → Action H B A
  pure a w = (returned a, w)

  abbrev pub panic : {A : Type 0} → Action H B A
  panic w = (panicked, w)

  abbrev pub wait : {A : Type 0} → Action H B A
  wait w = (waiting, w)

  abbrev pub modify : (World H B → World H B) → Action H B (Unit {0})
  modify f w = (returned tt, f w)

  abbrev pub gets : {A : Type 0} → (World H B → A) → Action H B A
  gets f w = (returned (f w), w)

  unfoldable pub lift : {A : Type 0} → Result A → Action H B A
  lift (ok a) w = (returned a, w)
  lift (err e) w = (failed e, w)

  unfoldable pub fail_if : Option Error → Action H B (Unit {0})
  fail_if none w = (returned tt, w)
  fail_if (some e) w = (failed e, w)

  unfoldable pub when : Bool → Action H B (Unit {0}) → Action H B (Unit {0})
  when true m w = m w
  when false m w = (returned tt, w)

  abbrev pub go : Goroutine → Action H B (Unit {0})
  go g w = (returned tt, record w { goroutines = g ∷ w.goroutines })

-- One deferred call.
unfoldable pub release : Deferred → Held → Held
release stop_health held = record held { serving = false }
release shutdown_informer held = record held { informers = false }
release close_extended held = record held { extended_file = false }

-- The deferred calls, the latest first.
unfoldable pub release_all : List Deferred → Held → Held
release_all [] held = held
release_all (d ∷ ds) held = release_all ds (release d held)

-- The end of a call: its deferred calls run unless it still waits.
unfoldable pub finish : {H B A : Type 0} → Outcome A × World H B → Outcome A × World H B
finish (waiting, w) = (waiting, w)
finish (returned a, w) =
    (returned a, record w { held = release_all w.deferred w.held; deferred = [] })
finish (failed e, w) = (failed e, record w { held = release_all w.deferred w.held; deferred = [] })
finish (panicked, w) = (panicked, record w { held = release_all w.deferred w.held; deferred = [] })
