-- ===== src/Startup/Outputs/Documents.antt =====
-- The documents that the calls of a writer leave in a file, and the names of the two files of Run
-- (pkg/lib/meshsync/meshsync.go).
use mathlib.Core.List.{append-nil, append_assoc}
use Prim.Native.String.{◌++◌ as append}
use meshsync.Common.{
  ◌<◌, String, ◌≡◌, ◌≢◌, ap, ◌∙◌, Option, none, some, List, [], ◌∷◌, ◌++◌, arith, ◌==◌, eq_iff,
  if◌then◌else◌, inl, inr,
}
use meshsync.Common.Dict.{insert, lookup-insert}
use meshsync.Common.Text.{concat, trim_suffix, size, size-append, size-trim_suffix}
use meshsync.Errors.{Error, Result, ok, err, Result-cases}
use meshsync.Model.{KubernetesResource}
use meshsync.Output.{Call, call, file_write}
use meshsync.Output.Yaml
use meshsync.Output.Yaml.{Files, contents, delimiter, append_chunk, append_marshalled}
use meshsync.Startup.Outputs.{extended_name, extension, yaml_file}

extended_size : (filename : String) → size filename < size (extended_name filename)
unfolding extended_name concat
extended_size filename = omega (
  arith,
  size-trim_suffix filename (extension filename),
  size-append (trim_suffix filename (extension filename))
      (append "-extended" (append (extension filename) "")),
  size-append "-extended" (append (extension filename) ""),
  size-append (extension filename) "",
)

-- The two files have different names, whatever the file name is.
pub extended_name_differs : (filename : String) → extended_name filename ≢ filename
extended_name_differs filename same = absurd (omega (arith, extended_size filename, ap size same))

module _ (disk : String → String → Option Error)
    (marshal : KubernetesResource → Result String) where
  -- What the operating system takes of a text: one chunk, or none if it refuses.
  abbrev taken : String → String → Option Error → List String
  taken name bytes none = bytes ∷ []
  taken name bytes (some e) = []

  abbrev marshalled : String → Result String → List String
  marshalled name (err e) = []
  marshalled name (ok bytes) =
      let text = concat (bytes ∷ delimiter ∷ []) in taken name text (disk name text)

  -- The document of a call, in the file of this name, if it could be written.
  abbrev pub document : String → Call → List String
  document name c = marshalled name (marshal c.obj)

  -- The documents of the calls, in order.
  abbrev pub documents : String → List Call → List String
  documents name [] = []
  documents name (c ∷ cs) = document name c ++ documents name cs

  contents-insert :
      (files : Files) (name k : String) (chunks : List String)
      → contents (insert files name chunks) k ≡ (if name == k then chunks else contents files k)
  unfolding contents
  contents-insert files name k chunks = ground (arith, lookup-insert files name k chunks)

  append_chunk-contents :
      (name bytes k : String) (files : Files)
      → contents (append_chunk disk name bytes files).1 k ≡ (
          if name == k
          then contents files k ++ taken name bytes (disk name bytes)
          else contents files k)
  unfolding append_chunk
  append_chunk-contents name bytes k files = ground (
    arith,
    contents-insert files name k (contents files name ++ bytes ∷ []),
    eq_iff name k,
    append-nil (contents files k),
  )

  pub write-contents :
      (name k : String) (c : Call) (files : Files)
      → contents (call (yaml_file disk marshal name) c files).1 k
        ≡ (if name == k then contents files k ++ document name c else contents files k)
  unfolding file_write Yaml.write append_marshalled
  write-contents name k c files = elim (Result-cases (marshal c.obj)) [
    | inl (e, failed) ↦ rw failed (ground (arith, append-nil (contents files k)))
    | inr (bytes, done) ↦
        rw done (append_chunk-contents name (concat (bytes ∷ delimiter ∷ [])) k files)
  ]

-- A list that grows twice.
pub grown :
    {all now : List String} (old new rest : List String)
    → all ≡ now ++ rest
    → now ≡ old ++ new
    → all ≡ old ++ (new ++ rest)
grown old new rest e h = e ∙ (ap (λ f. f ++ rest) h ∙ append_assoc old new rest)
