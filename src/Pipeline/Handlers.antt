-- ===== src/Pipeline/Handlers.antt =====
-- internal/pipeline/handlers.go. `none` is a panic: a failed type assertion, or a method called on
-- a nil pointer. Logging is left out, but not the method calls in its arguments.
pub mod Published
pub mod Events
pub mod Delivered
use meshsync.Common.{
  String, Bool, true, false, not, ◌&&◌, Option, none, some, List, [], ◌∷◌, ◌==◌, if◌then◌else◌,
  contains,
}
use meshsync.Common.Dict.{Dict}
use meshsync.Errors.{Error}
use meshsync.Broker
use meshsync.Broker.{EventType}
use meshsync.Config.{PipelineConfig}
use meshsync.Config.WatchList.{is_empty}
use meshsync.Config.Filtration.{OutputFiltrationContainer}
use meshsync.Config.Filtration
use meshsync.Model.{KubernetesResource}
use meshsync.Model.Convert.{Codec, parse_list}
use meshsync.Output.{Write}

-- What the program reads of an unstructured.Unstructured; `bytes` is its MarshalJSON.
pub record Unstructured : Type 0 where
  pub bytes : String
  pub namespace : String
  pub resource_version : String

-- The values that an informer hands to its handlers: a pointer, which may be nil, a
-- cache.DeletedFinalStateUnknown around another value, or anything else.
pub data Value : Type 0 where
  unstructured : Option Unstructured → Value
  deleted_final_state_unknown : Value → Value
  other : Value

pub record RegisterInformer : Type 0 where
  pub config : PipelineConfig
  pub cluster_id : String
  pub output_filtration : OutputFiltrationContainer

unfoldable pub check_must_skip : RegisterInformer → Option Unstructured → Bool
check_must_skip ri none = true
check_must_skip ri (some obj) =
    not (is_empty ri.output_filtration.namespace_set)
    && not (Filtration.contains ri.output_filtration.namespace_set obj.namespace)

module _ {Service S : Type 0} (c : Codec Service) (env : String) (output_writer : Write S)
    (ri : RegisterInformer) where
  write_unless : Bool → KubernetesResource → EventType → PipelineConfig → S → Option Error × S
  write_unless true r evtype config s = (none, s)
  write_unless false r evtype config s = output_writer r evtype config s

  publish_parsed :
      Option KubernetesResource → Bool → EventType → PipelineConfig → S → Option (Option Error × S)
  unfolding write_unless
  publish_parsed none skip evtype config s = none
  publish_parsed (some r) skip evtype config s = some (write_unless skip r evtype config s)

  unfoldable pub publish_item :
      Option Unstructured → EventType → PipelineConfig → S → Option (Option Error × S)
  unfolding publish_parsed check_must_skip
  publish_item none evtype config s = some (none, s)
  publish_item (some obj) evtype config s =
      if contains ri.config.events evtype
      then publish_parsed (parse_list c env obj.bytes evtype ri.cluster_id)
          (check_must_skip ri (some obj)) evtype config s
      else some (none, s)

  -- The error is logged.
  pub after : Option (Option Error × S) → Option S
  after none = none
  after (some (e, s)) = some s

  -- The log line behind the call reads the object's name.
  publish_and_log : Option Unstructured → EventType → S → Option S
  unfolding after
  publish_and_log none evtype s = none
  publish_and_log (some obj) evtype s = after (publish_item (some obj) evtype ri.config s)

  unfoldable pub add_func : Value → S → Option S
  unfolding publish_and_log
  add_func (unstructured obj) s = publish_and_log obj Broker.add s
  add_func (deleted_final_state_unknown v) s = none
  add_func other s = none

  update_objects : Option Unstructured → Option Unstructured → S → Option S
  unfolding publish_and_log
  update_objects none obj s = none
  update_objects (some old) none s = none
  update_objects (some old) (some obj) s =
      if old.resource_version == obj.resource_version
      then some s
      else publish_and_log (some obj) Broker.update s

  unfoldable pub update_func : Value → Value → S → Option S
  unfolding update_objects
  update_func (unstructured old) (unstructured obj) s = update_objects old obj s
  update_func _ _ s = none

  unwrap : Value → Value
  unwrap (deleted_final_state_unknown v) = v
  unwrap v = v

  delete_unwrapped : Value → S → Option S
  unfolding publish_and_log
  delete_unwrapped (unstructured obj) s = publish_and_log obj Broker.delete s
  delete_unwrapped (deleted_final_state_unknown v) s = some s
  delete_unwrapped other s = some s

  unfoldable pub delete_func : Value → S → Option S
  unfolding unwrap delete_unwrapped
  delete_func obj s = delete_unwrapped (unwrap obj) s
