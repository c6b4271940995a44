-- ===== src/Tests/PipelineTests.antt =====
-- internal/pipeline and meshsync/discovery.go on concrete inputs.
use meshsync.Common.{
  ℕ, ◌+◌, Bool, String, ◌≡◌, refl, true, false, Option, none, some, List, [], ◌∷◌, ◌++◌, ◌≤◌,
  length, arith, All, if◌then◌else◌,
}
use meshsync.Common.Dict.{Dict, lookup}
use meshsync.Common.Text.{split, join}
use meshsync.Errors.{Error, Result, ok}
use meshsync.Broker.{EventType}
use meshsync.Output
use meshsync.Output.{Call}
use meshsync.Output.ContentDeduplicator
use meshsync.Startup.Consumer.{Recorded, IsSublist, table_from, no_table}
use meshsync.Startup.Consumer.Deduplicated
use meshsync.Startup.Consumer.Deduplicated.{writer, dedup_keeps_table}
use meshsync.Output.Streaming
use meshsync.Output.Streaming.Once.{firsts, run}
use meshsync.Output.Yaml.{contents}
use meshsync.Startup.Outputs.{extended_name, file_output}
use meshsync.Startup.Outputs.Documents.{documents}
use meshsync.Startup.Delivery.{snapshot_of_informer}
use meshsync.Config.Filtration
use meshsync.Broker
use meshsync.Config.{PipelineConfigs, local_resource_key}
use meshsync.Config.Pipelines
use meshsync.Config.Defaults.{default_pipelines}
use meshsync.Config.WatchList.{pipelines_at}
use meshsync.Model.{KubernetesResource}
use meshsync.Model.Convert.{
  Codec, parse_list, read_object, read_contents, run_processor, shipped, redacts,
}
use meshsync.Model.Service.{has_processor}
use meshsync.Pipeline.Handlers.{
  Unstructured, RegisterInformer, unstructured, add_func, update_func, delete_func, publish_item,
}
use meshsync.Pipeline.Handlers.Published.{log_write, IsAllowed}
use meshsync.Pipeline.Handlers.Events.{
  Notification, added, updated, deleted, handle, handle_all, handle_all-AllAllowed, AllAllowed,
}
use meshsync.Pipeline.Plan.{Stage, should_filter_out_by_name}
use meshsync.Pipeline.Plan.Selected.{all_steps}
use meshsync.Pipeline.Steps.{GroupVersionResource, Factory, StepResult}
use meshsync.Pipeline.Steps.Discovery.{run_steps, handled}
use meshsync.Handler.Discovery.{State, start_discovery}
use meshsync.Handler.Discovery.Outcome.{discovery_completes, discovery_fails, watched}
use meshsync.Handler.Discovery.Defaults.{default_discovery_fails}
use meshsync.Tests.Fixtures.{pod, pods, everything}

-- A codec for which every text is the pod of that UID.
abbrev pods_codec : Codec String
pods_codec = record {
  unmarshal = pod;
  get = λ bytes path. none;
  object_each = λ bytes path. [];
  parse_string = λ value. none;
  uuid_from_bytes = λ value. value;
  design_id_label = "design-id";
  unmarshal_object = λ raw. none;
  marshal_texts = λ kv. none;
  unmarshal_service = λ bytes. ok bytes;
  get_endpoint = λ service. ok none;
  is_request_uri = λ url. true;
}

abbrev informer : RegisterInformer
informer = record {
  config = pods;
  cluster_id = "c1";
  output_filtration = record { namespace_set = ("shop", true) ∷ []; resource_set = [] };
}

abbrev web : String → Option Unstructured
web version = some (record { bytes = "u1"; namespace = "shop"; resource_version = version })

abbrev notifications : List Notification
notifications =
    added (unstructured (web "1"))
    ∷ updated (unstructured (web "1")) (unstructured (web "2"))
    ∷ deleted (unstructured (web "2"))
    ∷ []

handle_all-AllAllowed_example :
    AllAllowed pods_codec "" informer (handle_all pods_codec "" log_write informer notifications [])
handle_all-AllAllowed_example =
    handle_all-AllAllowed pods_codec "" informer notifications [] (refl, (refl, (refl, tt))) tt

abbrev web_one : Unstructured
web_one = record { bytes = "u1"; namespace = "shop"; resource_version = "1" }

abbrev parsed_pod : KubernetesResource
parsed_pod =
    let r = pod "u1" in
    elim r.kubernetes_resource_meta [
      | none ↦ r
      | some m ↦ record r { kubernetes_resource_meta = some (record m { labels = [] }) }
    ]

web_parses : parse_list pods_codec "" web_one.bytes Broker.add informer.cluster_id ≡ some parsed_pod
unfolding parse_list read_object read_contents run_processor shipped redacts has_processor
web_parses = refl

abbrev pod_pipelines : Dict PipelineConfigs
pod_pipelines = (local_resource_key, pods ∷ []) ∷ []

-- A parser of resource.version.group.
abbrev of_parts : List String → Option GroupVersionResource
of_parts (resource ∷ version ∷ group ∷ groups) =
    some (record { group = join "." (group ∷ groups); version = version; resource = resource })
of_parts _ = none

abbrev parse_parts : String → Option GroupVersionResource
parse_parts name = of_parts (split b'.' name)

of_parts-short : (parts : List String) → length parts ≤ 2 → of_parts parts ≡ none
of_parts-short [] h = refl
of_parts-short (a ∷ []) h = refl
of_parts-short (a ∷ b ∷ []) h = refl
of_parts-short (a ∷ b ∷ c ∷ parts) h = absurd (omega (arith, h))

abbrev run_in_order : List Stage → Factory → StepResult × Factory
run_in_order stages f = run_steps parse_parts (all_steps stages) none f

abbrev at_first : State
at_first = record { stores = []; informer = record { handlers = []; started = false } }

discovery_completes_example :
    let done = start_discovery run_in_order everything (ok pod_pipelines) at_first in
    (handled parse_parts done.informer
      ≡ handled parse_parts at_first.informer ++ watched pod_pipelines everything)
    × (done.informer.started ≡ true)
    × (lookup done.stores "pods.v1." ≡ parse_parts "pods.v1.")
unfolding pipelines_at lookup should_filter_out_by_name Pipelines.contains split
discovery_completes_example =
    discovery_completes parse_parts run_in_order (λ stages f. refl) pod_pipelines everything
      at_first "pods.v1." (refl, tt) refl

abbrev bad_pipelines : Dict PipelineConfigs
bad_pipelines = (local_resource_key, record pods { name = "pods" } ∷ pods ∷ []) ∷ []

discovery_fails_example :
    let done = start_discovery run_in_order everything (ok bad_pipelines) at_first in
    (done.stores ≡ at_first.stores) × (done.informer.started ≡ at_first.informer.started)
unfolding pipelines_at lookup should_filter_out_by_name split
discovery_fails_example =
    discovery_fails parse_parts run_in_order (λ stages f. refl) bad_pipelines everything at_first
      refl

default_discovery_fails_example :
    let done = start_discovery run_in_order everything (ok default_pipelines) at_first in
    (done.stores ≡ at_first.stores) × (done.informer.started ≡ at_first.informer.started)
default_discovery_fails_example =
    default_discovery_fails parse_parts run_in_order (λ stages f. refl)
      (λ name h. of_parts-short (split b'.' name) h) everything at_first
      (unfold should_filter_out_by_name in refl)

abbrev published_as : EventType → Call
published_as evtype = record { obj = parsed_pod; evtype = evtype; config = pods }

abbrev published_calls : List Call
published_calls =
    published_as Broker.add ∷ published_as Broker.update ∷ published_as Broker.delete ∷ []

calls_delivered :
    handle_all pods_codec "" log_write informer notifications [] ≡ some published_calls
unfolding handle_all handle add_func update_func delete_func publish_item parse_list read_object
    read_contents run_processor shipped redacts has_processor Filtration.contains lookup log_write
calls_delivered = refl

abbrev any_disk : String → String → Option Error
any_disk name bytes = none

abbrev kind_of : KubernetesResource → Result String
kind_of obj = ok obj.kind

snapshot_of_informer_example :
    let writer = file_output any_disk kind_of false "snap.yaml" in
    let after = run writer published_calls (Streaming.new []) in
    (handle_all pods_codec "" writer informer notifications (Streaming.new []) ≡ some after)
    × (contents after.real "snap.yaml"
        ≡ contents [] "snap.yaml"
          ++ documents any_disk kind_of "snap.yaml" (firsts (λ u. false) published_calls))
    × (contents after.real (extended_name "snap.yaml")
        ≡ contents [] (extended_name "snap.yaml")
          ++ (if false
              then documents any_disk kind_of (extended_name "snap.yaml") published_calls
              else []))
    × All (IsAllowed pods_codec "" informer) published_calls
snapshot_of_informer_example =
    snapshot_of_informer pods_codec "" informer any_disk kind_of "snap.yaml" false notifications
      published_calls [] (refl, (refl, (refl, tt))) calls_delivered

abbrev identity_hash : String → String
identity_hash bytes = bytes

-- A broker that counts the messages.
abbrev counting : String → Output.Message → ℕ → Option Error × ℕ
counting subject m n = (none, n + 1)

abbrev configured : Bool → Output.Write (ContentDeduplicator.State (Recorded ℕ))
configured = writer kind_of identity_hash (λ a b e. e) pods "meshsync" counting

abbrev nothing_taken : ContentDeduplicator.State (Recorded ℕ)
nothing_taken = Deduplicated.at_first kind_of identity_hash (λ a b e. e) pods "meshsync" counting 0

dedup_keeps_table_example :
    (w : ContentDeduplicator.State (Recorded ℕ)) × (v : ContentDeduplicator.State (Recorded ℕ))
    × (handle_all pods_codec "" (configured true) informer notifications nothing_taken ≡ some w)
    × (handle_all pods_codec "" (configured false) informer notifications nothing_taken ≡ some v)
    × IsSublist w.real.taken v.real.taken
    × (table_from kind_of pods no_table w.real.taken
        ≡ table_from kind_of pods no_table v.real.taken)
dedup_keeps_table_example =
    dedup_keeps_table kind_of identity_hash (λ a b e. e) pods "meshsync" counting
      (λ subject m n. refl) pods_codec "" informer notifications published_calls 0 calls_delivered
