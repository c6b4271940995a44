-- ===== src/Tests/Fixtures.antt =====
-- The values that the tests share.
use meshsync.Common.{String, Option, none, some, [], ◌∷◌}
use meshsync.Common.Int.{pos}
use meshsync.Broker.{EventType}
use meshsync.Config.{PipelineConfig}
use meshsync.Config.Defaults.{default_events}
use meshsync.Config.Filtration.{OutputFiltrationContainer}
use meshsync.Model.{
  KubernetesResource, KubernetesResourceObjectMeta, KubernetesKeyValue, kind_label,
}
use meshsync.Output.{Call}

abbrev pub app_label : KubernetesKeyValue
app_label = record { id = ""; unique_id = ""; kind = kind_label; key = "app"; value = "shop" }

-- The metadata of an object in the namespace "shop".
abbrev pub meta_of : String → String → KubernetesResourceObjectMeta
meta_of name uid = record {
  id = "";
  name = name;
  generate_name = "";
  namespace = "shop";
  self_link = "";
  uid = uid;
  resource_version = "1";
  generation = pos 1;
  creation_timestamp = "";
  deletion_timestamp = "";
  deletion_grace_period_seconds = none;
  labels = app_label ∷ [];
  annotations = [];
  owner_references = "";
  finalizers = "";
  cluster_name = "";
  managed_fields = "";
  cluster_id = "";
}

abbrev pub resource : String → Option KubernetesResourceObjectMeta → KubernetesResource
resource kind metadata = record {
  id = "";
  api_version = "v1";
  kind = kind;
  model = "";
  kubernetes_resource_meta = metadata;
  spec = none;
  status = none;
  cluster_id = "c1";
  pattern_resource = none;
  component_metadata = [];
  immutable = "";
  raw_data = "";
  binary_data = "";
  string_data = "";
  resource_type = "";
}

abbrev pub pod : String → KubernetesResource
pod uid = resource "Pod" (some (meta_of "web" uid))

abbrev pub pods : PipelineConfig
pods = record { name = "pods.v1."; publish_to = "meshery.meshsync.core"; events = default_events }

abbrev pub call_for : String → EventType → Call
call_for uid evtype = record { obj = pod uid; evtype = evtype; config = pods }

abbrev pub everything : OutputFiltrationContainer
everything = record { namespace_set = []; resource_set = [] }
