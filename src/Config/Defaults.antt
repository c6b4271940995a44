-- ===== src/Config/Defaults.antt =====
-- internal/config/default_config.go: the default pipelines, with the events that init() fills in,
-- and the default listeners.
pub mod Templates
use meshsync.Common.{String, ◌≡◌, refl, List, [], ◌∷◌, ◌≢◌, arith, All}
use meshsync.Common.Dict.{Dict}
use meshsync.Broker
use meshsync.Config.{
  PipelineConfig, PipelineConfigs, ListenerConfig, global_resource_key, local_resource_key,
  log_stream, exec_shell, request_stream,
}
use Templates.{core_pipelines, local_pipelines}

abbrev pub default_events : List String
default_events = Broker.add ∷ Broker.update ∷ Broker.delete ∷ []

abbrev events_or_default : List String → List String
events_or_default [] = default_events
events_or_default (e ∷ es) = e ∷ es

-- The loop of init() over one list of pipelines.
unfoldable pub backfill : PipelineConfigs → PipelineConfigs
backfill [] = []
backfill (p ∷ ps) = record p { events = events_or_default p.events } ∷ backfill ps

-- The package variable `Pipelines` after init().
unfoldable pub default_pipelines : Dict PipelineConfigs
unfolding backfill
default_pipelines =
    (global_resource_key, backfill core_pipelines)
    ∷ (local_resource_key, backfill local_pipelines)
    ∷ []

unfoldable pub default_listeners : Dict ListenerConfig
default_listeners =
    (
      log_stream,
      record {
        name = log_stream;
        connection_name = "meshsync-logstream";
        publish_to = "meshery.meshsync.logs";
        subscribe_to = "";
        events = [];
      },
    )
    ∷ (
      exec_shell,
      record {
        name = exec_shell;
        connection_name = "meshsync-exec";
        publish_to = "meshery.meshsync.exec";
        subscribe_to = "";
        events = [];
      },
    )
    ∷ (
      request_stream,
      record {
        name = request_stream;
        connection_name = "meshsync-request-stream";
        publish_to = "";
        subscribe_to = "meshery.meshsync.request";
        events = [];
      },
    )
    ∷ []

-- What init() does to the pipelines of one stage: each keeps its name and its subject, one that
-- lists events keeps them, and one that lists none gets the three default ones.
abbrev pub Backfilled : PipelineConfigs → PipelineConfigs → Type 0
Backfilled [] [] = Unit {0}
Backfilled (p ∷ ps) (q ∷ qs) =
    (q.name ≡ p.name)
    × (q.publish_to ≡ p.publish_to)
    × (p.events ≢ [] → q.events ≡ p.events)
    × (p.events ≡ [] → q.events ≡ default_events)
    × Backfilled ps qs
Backfilled _ _ = ⊥

pub backfill-Backfilled : (ps : PipelineConfigs) → Backfilled ps (backfill ps)
unfolding backfill
backfill-Backfilled [] = tt
backfill-Backfilled (p ∷ ps) = (refl, refl, kept p.events, filled p.events, backfill-Backfilled ps)
  where
    kept : (es : List String) → es ≢ [] → events_or_default es ≡ es
    kept [] h = absurd (h refl)
    kept (e ∷ es) h = refl

    filled : (es : List String) → es ≡ [] → events_or_default es ≡ default_events
    filled [] h = refl
    filled (e ∷ es) h = cc
