-- ===== src/Startup/Outputs.antt =====
-- The writers that Run (pkg/lib/meshsync/meshsync.go) makes for its two output modes.
pub mod Documents
pub mod Contents
use meshsync.Common.{
  String, Bool, true, false, Option, none, some, List, [], ◌∷◌, ◌++◌, ◌==◌, if◌then◌else◌,
}
use meshsync.Common.Text.{concat, path_ext, trim_suffix}
use meshsync.Errors.{Error, Result}
use meshsync.Model.{KubernetesResource}
use meshsync.Output.{Write, Message, broker_write, file_write}
use meshsync.Output.Composite
use meshsync.Output.ContentDeduplicator
use meshsync.Output.Streaming
use meshsync.Output.Yaml
use meshsync.Output.Yaml.{Files}

abbrev pub default_format : String
default_format = "yaml"

unfoldable pub extension : String → String
extension filename =
    if path_ext filename == "" then concat ("." ∷ default_format ∷ []) else path_ext filename

-- The name of the file that gets every message.
unfoldable pub extended_name : String → String
unfolding extension
extended_name filename =
    concat (trim_suffix filename (extension filename) ∷ "-extended" ∷ extension filename ∷ [])

module _ (disk : String → String → Option Error)
    (marshal : KubernetesResource → Result String) where
  abbrev pub yaml_file : String → Write Files
  yaml_file name = file_write (Yaml.write disk marshal name)

  -- The writer of the extended file, beside the state of the deduplicator for the other one.
  unfoldable pub extended_writer : String → Write (Streaming.State Files)
  extended_writer name obj evtype cfg w =
      let (e, files) = yaml_file name obj evtype cfg w.real in (e, record w { real = files })

  unfoldable pub writer_pool : Bool → String → List (Write (Streaming.State Files))
  writer_pool extended filename =
      (if extended then extended_writer (extended_name filename) ∷ [] else [])
      ++ Streaming.write (yaml_file filename) ∷ []

  unfoldable pub file_output : Bool → String → Write (Streaming.State Files)
  unfolding writer_pool
  file_output extended filename = Composite.write (writer_pool extended filename)

module _ {B : Type 0} (mesh_sync : String) (publish : String → Message → B → Option Error × B)
    (hash_resource : KubernetesResource → Result String) where
  -- The broker's writer beside the state of a deduplicator that is not used.
  unfoldable pub plain : Write (ContentDeduplicator.State B)
  plain obj evtype cfg w =
      let (e, b) = broker_write mesh_sync publish obj evtype cfg w.real in
      (e, record w { real = b })

  unfoldable pub broker_output : Bool → Write (ContentDeduplicator.State B)
  unfolding plain
  broker_output dedup =
      if dedup
      then ContentDeduplicator.write hash_resource (broker_write mesh_sync publish)
      else plain
