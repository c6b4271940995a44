-- ===== src/Handler/Stores.antt =====
-- listStoreObjects of meshsync/handlers.go. A store is the list of its objects, and the stores are
-- in the order in which the program ranges over them. `none` is a panic: of the type assertion to a
-- pointer, of a nil pointer, or of ParseList.
pub mod Redacted
use meshsync.Common.{String, Option, none, some, List, [], ◌∷◌, ◌++◌}
use meshsync.Common.Dict.{Dict}
use meshsync.Broker
use meshsync.Model.{KubernetesResource}
use meshsync.Model.Convert.{Codec, parse_list, ◌>>=◌}
use meshsync.Pipeline.Handlers.{
  Unstructured, Value, unstructured, deleted_final_state_unknown, other,
}

-- The loop over the stores.
unfoldable pub stored_objects : Dict (List Value) → List Value
stored_objects [] = []
stored_objects ((name, objects) ∷ stores) = objects ++ stored_objects stores

-- *obj.(*unstructured.Unstructured)
abbrev pub as_unstructured : Value → Option Unstructured
as_unstructured (unstructured object) = object
as_unstructured (deleted_final_state_unknown value) = none
as_unstructured other = none

module _ {Service : Type 0} (c : Codec Service) (env cluster_id : String) where
  -- The body of the loop over the objects.
  unfoldable pub parse_object : Value → Option KubernetesResource
  parse_object value =
      as_unstructured value >>= (λ object. parse_list c env object.bytes Broker.add cluster_id)

  unfoldable pub parse_objects : List Value → Option (List KubernetesResource)
  unfolding parse_object
  parse_objects [] = some []
  parse_objects (value ∷ values) =
      parse_object value >>= (λ r. parse_objects values >>= (λ rs. some (r ∷ rs)))

  unfoldable pub list_store_objects : Dict (List Value) → Option (List KubernetesResource)
  unfolding parse_objects
  list_store_objects stores = parse_objects (stored_objects stores)
