-- ===== src/Handler/CrdWatch.antt =====
-- The reaction of the handler to an event of the CRD watch: updatePipelineConfig, handleCRDEvent
-- and tmpGetGVRForCustomResources of meshsync/handlers.go. The configuration store of meshkit is a
-- parameter: `get_object` and `set_object` read and write the pipelines under the resources key.
-- `marshal` and `unmarshal` turn an event's object into JSON and that into a CRD, and `get_gvr` is
-- meshkit's GetGVRForCustomResources.
pub mod Updates
pub mod Membership
pub mod Relist
pub mod Loop
pub mod Reconnect
use meshsync.Common.{
  String, Bool, true, false, not, Option, none, some, List, [], ◌∷◌, ℕ, suc, ◌==◌, if◌then◌else◌,
}
use meshsync.Common.Dict.{Dict, insert}
use meshsync.Common.Text.{join}
use meshsync.Errors.{Error, Result, ok, err, ◌>>=◌}
use meshsync.Config.{PipelineConfig, PipelineConfigs, global_resource_key}
use meshsync.Config.Pipelines
use meshsync.Config.Defaults.{default_events}
use meshsync.Config.Defaults.Templates.{default_publishing_subject}
use meshsync.Config.WatchList.{pipelines_at}
use meshsync.Pipeline.Steps.{GroupVersionResource}

-- watch.EventType
abbrev pub added : String
added = "ADDED"

abbrev pub deleted : String
deleted = "DELETED"

pub record Crd : Type 0 where
  pub group : String
  pub resource_name : String
  pub versions : List String

-- fmt.Sprintf("%s.%s.%s", gvr.Resource, gvr.Version, gvr.Group)
unfoldable pub pipeline_name : GroupVersionResource → String
pipeline_name gvr = join "." (gvr.resource ∷ gvr.version ∷ gvr.group ∷ [])

unfoldable pub registered : String → PipelineConfig
registered name = record {
  name = name;
  publish_to = default_publishing_subject;
  events = default_events;
}

abbrev named : String → PipelineConfig
named name = record { name = name; publish_to = ""; events = [] }

-- The switch of updatePipelineConfig: the new pipelines, or none where it returns early.
unfoldable pub next_pipelines : String → String → PipelineConfigs → Option PipelineConfigs
next_pipelines event_type name pipelines =
    if event_type == added
    then (if Pipelines.contains pipelines name
        then none
        else some (Pipelines.add pipelines (registered name)))
    else (if event_type == deleted
        then (if Pipelines.contains pipelines name
            then some (Pipelines.delete pipelines (named name))
            else none)
        else none)

get_gvr_or_bare :
    (Crd → Option GroupVersionResource) → Crd → List String → Option GroupVersionResource
get_gvr_or_bare get_gvr crd [] =
    some (record { group = crd.group; version = ""; resource = crd.resource_name })
get_gvr_or_bare get_gvr crd (version ∷ versions) = get_gvr crd

-- tmpGetGVRForCustomResources
unfoldable pub tmp_get_gvr_for_custom_resources :
    (Crd → Option GroupVersionResource) → Crd → Option GroupVersionResource
unfolding get_gvr_or_bare
tmp_get_gvr_for_custom_resources get_gvr crd = get_gvr_or_bare get_gvr crd crd.versions

-- The configuration, and how many signals the resync channel has been sent.
pub record State (S : Type 0) : Type 0 where
  pub config : S
  pub resyncs : ℕ

abbrev pub parse_crd_event {ℓ} :
    {O : Type ℓ} → (O → Result String) → (String → Result Crd) → O → Result Crd
parse_crd_event marshal unmarshal object = marshal object >>= unmarshal

module _ {S : Type 0} (get_object : S → Result (Dict PipelineConfigs))
    (set_object : S → Dict PipelineConfigs → Option Error × S) where
  unfoldable pub persist : S → Dict PipelineConfigs → Option PipelineConfigs → Result Bool × S
  persist s existing none = (ok false, s)
  persist s existing (some pipelines) =
      let (e, s') = set_object s (insert existing global_resource_key pipelines) in
      elim e [ none ↦ (ok true, s') | some failed ↦ (err failed, s') ]

  unfoldable pub update_pipeline_config : String → GroupVersionResource → S → Result Bool × S
  unfolding persist
  update_pipeline_config event_type gvr s = elim (get_object s) [
    | err e ↦ (err e, s)
    | ok existing ↦
        persist s existing (
          next_pipelines event_type (pipeline_name gvr) (pipelines_at existing global_resource_key))
  ]

  unfoldable pub resync_if_changed : ℕ → Result Bool × S → State S
  resync_if_changed n (err e, s) = record { config = s; resyncs = n }
  resync_if_changed n (ok false, s) = record { config = s; resyncs = n }
  resync_if_changed n (ok true, s) = record { config = s; resyncs = suc n }

  unfoldable pub update_if_any : String → Option GroupVersionResource → State S → State S
  unfolding resync_if_changed
  update_if_any event_type none h = h
  update_if_any event_type (some gvr) h =
      resync_if_changed h.resyncs (update_pipeline_config event_type gvr h.config)

  unfoldable pub update_if_parsed :
      (Crd → Option GroupVersionResource) → String → Result Crd → State S → State S
  update_if_parsed get_gvr event_type (err e) h = h
  update_if_parsed get_gvr event_type (ok crd) h =
      update_if_any event_type (tmp_get_gvr_for_custom_resources get_gvr crd) h

  -- An event carries its type and its object, none for nil.
  unfoldable pub handle_crd_event {ℓ} :
      {O : Type ℓ} (marshal : O → Result String) (unmarshal : String → Result Crd)
      (get_gvr : Crd → Option GroupVersionResource)
      → String × Option O
      → State S
      → State S
  unfolding update_if_parsed
  handle_crd_event marshal unmarshal get_gvr (event_type, none) h = h
  handle_crd_event marshal unmarshal get_gvr (event_type, some object) h =
      update_if_parsed get_gvr event_type (parse_crd_event marshal unmarshal object) h
