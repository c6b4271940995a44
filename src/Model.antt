-- ===== src/Model.antt =====
-- pkg/model/model.go: a Kubernetes resource as it is published. The gorm and json tags are not
-- modelled. The children model the rest of pkg/model.
pub mod Identity
pub mod Secrets
pub mod Service
pub mod Convert
use meshsync.Common.{String, Bool, List, Option}
use meshsync.Common.Int.{ℤ}
use meshsync.Common.Dict.{Dict}

-- The values of `interface{}` that the metadata of a component holds.
mutual
  pub data Value : Type 0 where
    null : Value
    boolean : Bool → Value
    number : ℤ → Value
    text : String → Value
    array : Items → Value
    object : Fields → Value

  pub data Items : Type 0 where
    nil : Items
    cons : Value → Items → Items

  pub data Fields : Type 0 where
    end : Fields
    field : String → Value → Fields → Fields

pub record KubernetesKeyValue : Type 0 where
  pub id : String
  pub unique_id : String
  pub kind : String
  pub key : String
  pub value : String

abbrev pub kind_label : String
kind_label = "label"

abbrev pub kind_annotation : String
kind_annotation = "annotation"

pub record KubernetesResourceObjectMeta : Type 0 where
  pub id : String
  pub name : String
  pub generate_name : String
  pub namespace : String
  pub self_link : String
  pub uid : String
  pub resource_version : String
  pub generation : ℤ
  pub creation_timestamp : String
  pub deletion_timestamp : String
  pub deletion_grace_period_seconds : Option ℤ
  pub labels : List KubernetesKeyValue
  pub annotations : List KubernetesKeyValue
  pub owner_references : String
  pub finalizers : String
  pub cluster_name : String
  pub managed_fields : String
  pub cluster_id : String

pub record KubernetesResourceSpec : Type 0 where
  pub id : String
  pub attribute : String

pub record KubernetesResourceStatus : Type 0 where
  pub id : String
  pub attribute : String

-- `raw_data` and `resource_type` are the fields `Data` and `Type`.
pub record KubernetesResource : Type 0 where
  pub id : String
  pub api_version : String
  pub kind : String
  pub model : String
  pub kubernetes_resource_meta : Option KubernetesResourceObjectMeta
  pub spec : Option KubernetesResourceSpec
  pub status : Option KubernetesResourceStatus
  pub cluster_id : String
  pub pattern_resource : Option String
  pub component_metadata : Dict Value
  pub immutable : String
  pub raw_data : String
  pub binary_data : String
  pub string_data : String
  pub resource_type : String
