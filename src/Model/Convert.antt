-- ===== src/Model/Convert.antt =====
-- ParseList of pkg/model/model_converter.go. A resource is read twice from its JSON text: into the
-- struct, by encoding/json, and piece by piece, by jsonparser. Both are arguments. A nil pointer
-- that is written through makes the program panic: `none`.
pub mod Panics
pub mod Redaction
pub mod Kept
use meshsync.Common.{
  String, Bool, true, false, ◌&&◌, List, [], ◌∷◌, Option, none, some, ◌==◌, if◌then◌else◌,
}
use meshsync.Common.Dict.{Dict}
use meshsync.Errors.{Error, Result}
use meshsync.Broker.{EventType}
use meshsync.Model.{
  KubernetesKeyValue, kind_label, kind_annotation, KubernetesResourceObjectMeta,
  KubernetesResourceSpec, KubernetesResourceStatus, KubernetesResource,
}
use meshsync.Model.Secrets.{redact_secrets_enabled, redact_secret_data, secret_kind}
use meshsync.Model.Service.{Endpoint, has_processor, process}

-- What ObjectEach hands to its callback.
pub record Entry : Type 0 where
  pub key : String
  pub value : String
  pub is_string : Bool

-- `get` is jsonparser.Get, `none` where it fails; `object_each` lists the fields of the object at a
-- path, and nothing where ObjectEach fails.
pub record Codec (Service : Type 0) : Type 0 where
  pub unmarshal : String → KubernetesResource
  pub get : String → List String → Option String
  pub object_each : String → List String → List Entry
  pub parse_string : String → Option String
  pub uuid_from_bytes : String → String
  pub design_id_label : String
  pub unmarshal_object : String → Option (Dict String)
  pub marshal_texts : Dict String → Option String
  pub unmarshal_service : String → Result Service
  pub get_endpoint : Service → Result (Option Endpoint)
  pub is_request_uri : String → Bool

infixl 5 ◌>>=◌
abbrev pub ◌>>=◌ : {A B : Type 0} → Option A → (A → Option B) → Option B
none >>= f = none
some a >>= f = f a

abbrev or_value : String → Option String → String
or_value value none = value
or_value value (some decoded) = decoded

with_meta :
    (KubernetesResourceObjectMeta → KubernetesResourceObjectMeta)
    → KubernetesResource
    → Option KubernetesResource
with_meta f r = elim r.kubernetes_resource_meta [
  | none ↦ none
  | some m ↦ some (record r { kubernetes_resource_meta = some (f m) })
]

set_spec : Option String → KubernetesResource → Option KubernetesResource
set_spec none r = some r
set_spec (some spec) r = elim r.spec [
  | none ↦ none
  | some s ↦ some (record r { spec = some (record s { attribute = spec }) })
]

set_status : Option String → KubernetesResource → Option KubernetesResource
set_status none r = some r
set_status (some status) r = elim r.status [
  | none ↦ none
  | some s ↦ some (record r { status = some (record s { attribute = status }) })
]

set_finalizers : Option String → KubernetesResourceObjectMeta → KubernetesResourceObjectMeta
set_finalizers none m = m
set_finalizers (some finalizers) m = record m { finalizers = finalizers }

set_owner_references : Option String → KubernetesResourceObjectMeta → KubernetesResourceObjectMeta
set_owner_references none m = m
set_owner_references (some owners) m = record m { owner_references = owners }

-- A field that is overwritten where the object has it.
abbrev pub or_old : String → Option String → String
or_old old none = old
or_old old (some new) = new

module _ {Service : Type 0} (c : Codec Service) where
  json_string_value : String → Bool → String
  json_string_value value false = value
  json_string_value value true = or_value value (c.parse_string value)

  key_values : String → List Entry → List KubernetesKeyValue
  unfolding json_string_value
  key_values kind [] = []
  key_values kind (e ∷ es) =
      record {
        id = "";
        unique_id = "";
        kind = kind;
        key = e.key;
        value = json_string_value e.value e.is_string;
      }
      ∷ key_values kind es

  -- The last label of that key decides.
  pattern_resource : Option String → List Entry → Option String
  pattern_resource old [] = old
  pattern_resource old (e ∷ es) =
      pattern_resource
        (if e.key == c.design_id_label then some (c.uuid_from_bytes e.value) else old) es

  -- The text of data, binaryData or stringData that is shipped.
  unfoldable pub shipped : Bool → String → Option String → String
  shipped redact old none = old
  shipped redact old (some raw) =
      if redact then redact_secret_data c.unmarshal_object c.marshal_texts raw else raw

  -- Whether Secret contents are redacted: `env` is MESHSYNC_REDACT_SECRETS.
  unfoldable pub redacts : String → String → Bool
  redacts env kind = kind == secret_kind && redact_secrets_enabled env

  -- The part of ParseList up to the spec and the status, where a nil pointer may be met.
  read_parts :
      KubernetesResource
      → List Entry
      → List Entry
      → Option String
      → Option String
      → Option String
      → Option String
      → Option KubernetesResource
  unfolding key_values pattern_resource with_meta set_spec set_status set_finalizers
      set_owner_references
  read_parts result labels annotations finalizers owners spec status =
      with_meta (λ m. record m { labels = key_values kind_label labels })
        (record result { pattern_resource = pattern_resource result.pattern_resource labels })
      >>= with_meta (λ m. record m { annotations = key_values kind_annotation annotations })
      >>= with_meta (set_finalizers finalizers)
      >>= with_meta (set_owner_references owners)
      >>= set_spec spec
      >>= set_status status

  unfoldable pub read_object : String → Option KubernetesResource
  unfolding read_parts
  read_object bytes =
      read_parts (c.unmarshal bytes) (c.object_each bytes ("metadata" ∷ "labels" ∷ []))
        (c.object_each bytes ("metadata" ∷ "annotations" ∷ []))
        (c.get bytes ("metadata" ∷ "finalizers" ∷ []))
        (c.get bytes ("metadata" ∷ "ownerReferences" ∷ [])) (c.get bytes ("spec" ∷ []))
        (c.get bytes ("status" ∷ []))

  -- The rest of it, which cannot fail.
  unfoldable pub read_contents : String → String → String → KubernetesResource → KubernetesResource
  read_contents env bytes cluster_id r =
      let redact = redacts env r.kind in
      record r {
        immutable = or_old r.immutable (c.get bytes ("immutable" ∷ []));
        raw_data = shipped redact r.raw_data (c.get bytes ("data" ∷ []));
        binary_data = shipped redact r.binary_data (c.get bytes ("binaryData" ∷ []));
        string_data = shipped redact r.string_data (c.get bytes ("stringData" ∷ []));
        resource_type = or_old r.resource_type (c.get bytes ("type" ∷ []));
        cluster_id = cluster_id;
      }

  unfoldable pub run_processor : String → EventType → KubernetesResource → KubernetesResource
  run_processor bytes evtype r =
      if has_processor r.kind
      then (process c.is_request_uri c.unmarshal_service c.get_endpoint bytes evtype r).0
      else r

  unfoldable pub parse_list : String → String → EventType → String → Option KubernetesResource
  parse_list env bytes evtype cluster_id = do
    r ← read_object bytes
    some (run_processor bytes evtype (read_contents env bytes cluster_id r))
