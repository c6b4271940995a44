-- ===== src/Output/Yaml.antt =====
-- internal/file/yaml_writer.go and internal/file/writer.go. yaml.Marshal is an argument. A file
-- system is a map from names to what was written to the file, chunk by chunk: os.OpenFile with
-- O_APPEND and O_CREATE keeps what is there, and a write to a file is one chunk at its end.
-- `disk` says for a name and the bytes whether the operating system refuses; a write that it
-- breaks off is seen as one that writes nothing.
use meshsync.Common.{String, Option, none, some, List, [], ◌∷◌, ◌++◌}
use meshsync.Common.Dict.{Dict, lookup, insert}
use meshsync.Common.Text.{concat}
use meshsync.Errors.{Error, Result, ok, err}

abbrev pub Files : Type 0
Files = Dict (List String)

unfoldable pub contents : Files → String → List String
contents files name = elim (lookup files name) [ none ↦ [] | some chunks ↦ chunks ]

abbrev pub delimiter : String
delimiter = "---\n"

module _ (disk : String → String → Option Error) where
  -- os.OpenFile
  unfoldable pub open_file : (String → Option Error) → String → Files → Option Error × Files
  open_file openable name files = elim (openable name) [
    | some e ↦ (some e, files)
    | none ↦ (none, insert files name (contents files name))
  ]

  -- writeCloser.Write
  unfoldable pub append_chunk : String → String → Files → Option Error × Files
  append_chunk name bytes files = elim (disk name bytes) [
    | some e ↦ (some e, files)
    | none ↦ (none, insert files name (contents files name ++ bytes ∷ []))
  ]

  module _ {D : Type 0} (marshal : D → Result String) where
    unfoldable pub append_marshalled : String → Result String → Files → Option Error × Files
    append_marshalled name (err e) files = (some e, files)
    append_marshalled name (ok bytes) files =
        append_chunk name (concat (bytes ∷ delimiter ∷ [])) files

    -- YAMLWriter.Write of the writer for this file.
    unfoldable pub write : String → D → Files → Option Error × Files
    unfolding append_marshalled
    write name obj files = append_marshalled name (marshal obj) files
