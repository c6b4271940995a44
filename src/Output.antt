-- ===== src/Output.antt =====
-- internal/output: the `Writer` interface (output.go) and the writers that only pass a call on
-- (broker.go, file.go, processor.go). A writer is a function of the state that it changes; a
-- wrapper takes the writer that it wraps.
pub mod Composite
pub mod ContentDeduplicator
pub mod InMemory
pub mod Streaming
pub mod Yaml
use meshsync.Common.{String, Option, none, some}
use meshsync.Errors.{Error}
use meshsync.Broker.{EventType}
use meshsync.Config.{PipelineConfig}
use meshsync.Model.{KubernetesResource}

abbrev pub Write : Type 0 → Type 0
Write S = KubernetesResource → EventType → PipelineConfig → S → Option Error × S

-- One call of a writer.
pub record Call : Type 0 where
  pub obj : KubernetesResource
  pub evtype : EventType
  pub config : PipelineConfig

abbrev pub call : {S : Type 0} → Write S → Call → S → Option Error × S
call write c = write c.obj c.evtype c.config

-- The UID in the metadata, "" if there is no metadata.
unfoldable pub uid_of : KubernetesResource → String
uid_of obj = elim obj.kubernetes_resource_meta [ none ↦ "" | some m ↦ m.uid ]

-- The message that goes over the broker: `object_type` is meshkit's MeshSync.
pub record Message : Type 0 where
  pub object_type : String
  pub event_type : EventType
  pub object : KubernetesResource

-- BrokerWriter: `publish` is the broker's Publish.
module _ {B : Type 0} (mesh_sync : String) (publish : String → Message → B → Option Error × B) where
  unfoldable pub broker_write : Write B
  broker_write obj evtype config b =
      publish config.publish_to
        (record { object_type = mesh_sync; event_type = evtype; object = obj }) b

-- FileWriter: the event type is not written, nor is the number of bytes passed on.
module _ {F : Type 0} (write_data : KubernetesResource → F → Option Error × F) where
  unfoldable pub file_write : Write F
  file_write obj evtype config f = write_data obj f

-- Processor: its output is nil until SetOutput, and Write then panics: `none`.
pub record Processor (S : Type 0) : Type 0 where
  pub output : Option (Write S)

unfoldable pub new_processor : {S : Type 0} → Processor S
new_processor = record { output = none }

unfoldable pub set_output : {S : Type 0} → Processor S → Write S → Processor S
set_output p output = record { output = some output }

unfoldable pub processor_write : {S : Type 0} → Processor S → Call → S → Option (Option Error × S)
processor_write p c s = elim p.output [ none ↦ none | some write ↦ some (call write c s) ]
