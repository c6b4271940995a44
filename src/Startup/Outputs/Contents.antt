-- ===== src/Startup/Outputs/Contents.antt =====
-- What stands in the files that Run (pkg/lib/meshsync/meshsync.go) writes in the file output mode.
use mathlib.Core.List.{append-nil}
use meshsync.Common.{
  String, ◌≡◌, refl, sym, ap, ◌∙◌, Bool, true, false, Option, List, [], ◌∷◌, ◌++◌, arith, ◌==◌,
  if◌then◌else◌, Bool-cases, inl, inr, eq_false, eq_refl,
}
use meshsync.Common.Dict.{insert}
use meshsync.Errors.{Error, Result}
use meshsync.Model.{KubernetesResource}
use meshsync.Output.{Write, Call, call, uid_of}
use meshsync.Output.Composite.{composite_calls_all}
use meshsync.Output.Streaming
use meshsync.Output.Streaming.Once.{
  firsts, run, seen_by, seen_after, nothing_seen, write_without_uid, write_seen, write_fresh,
}
use meshsync.Output.Yaml.{Files, contents}
use meshsync.Startup.Outputs.{extended_name, yaml_file, extended_writer, writer_pool, file_output}
use meshsync.Startup.Outputs.Documents.{
  extended_name_differs, document, documents, write-contents, grown,
}

module _ (disk : String → String → Option Error)
    (marshal : KubernetesResource → Result String) where
  -- A step of the pool, after `before` has written beside the main file.
  module _ (filename : String) (before : Call → Files → Files)
      (beside : (c : Call) (files : Files)
        → contents (before c files) filename ≡ contents files filename) where
    abbrev main : Write (Streaming.State Files)
    main = Streaming.write (yaml_file disk marshal filename)

    abbrev step : Call → Streaming.State Files → Streaming.State Files
    step c w = (call main c (record w { real = before c w.real })).1

    abbrev steps : List Call → Streaming.State Files → Streaming.State Files
    steps [] w = w
    steps (c ∷ cs) w = steps cs (step c w)

    main_written :
        (c : Call) (files : Files)
        → contents (call (yaml_file disk marshal filename) c (before c files)).1 filename
          ≡ contents files filename ++ document disk marshal filename c
    main_written c files = ground (
      arith,
      write-contents disk marshal filename filename c (before c files),
      beside c files,
      eq_refl filename,
    )

    main_contents :
        (cs : List Call) (w : Streaming.State Files)
        → contents (steps cs w).real filename
          ≡ contents w.real filename
            ++ documents disk marshal filename
                (firsts (seen_by (yaml_file disk marshal filename) w) cs)
    main_contents [] w = sym (append-nil (contents w.real filename))
    main_contents (c ∷ cs) w =
        let real = yaml_file disk marshal filename in
        let files = (call real c (before c w.real)).1 in
        let w' : Streaming.State Files = record w { real = before c w.real } in
        elim (Bool-cases (uid_of c.obj == "")) [
          | inl empty ↦
              let v : Streaming.State Files = record { real = files; seen_uids = w.seen_uids } in
              ap (λ u. contents (steps cs u).real filename) (write_without_uid real c w' empty)
              ∙ rw empty (
                  grown (contents w.real filename) (document disk marshal filename c) _
                    (main_contents cs v) (main_written c w.real))
          | inr nonempty ↦ elim (Bool-cases (seen_by real w (uid_of c.obj))) [
            | inl old ↦
                ap (λ u. contents (steps cs u).real filename) (write_seen real c w' nonempty old)
                ∙ rw (nonempty, old)
                    (main_contents cs w'
                      ∙ ap (λ f. f ++ documents disk marshal filename (firsts (seen_by real w) cs))
                          (beside c w.real))
            | inr fresh ↦
                let v : Streaming.State Files = record {
                  real = files;
                  seen_uids = insert w.seen_uids (uid_of c.obj) tt;
                } in
                ap (λ u. contents (steps cs u).real filename) (write_fresh real c w' nonempty fresh)
                ∙ rw (nonempty, fresh, seen_after real w files (uid_of c.obj))
                    (grown (contents w.real filename) (document disk marshal filename c) _
                      (main_contents cs v) (main_written c w.real))
          ]
        ]

  module _ (filename : String) where
    abbrev main_writer : Write (Streaming.State Files)
    main_writer = Streaming.write (yaml_file disk marshal filename)

    -- The deduplicated writer leaves other files alone.
    main_beside :
        (k : String) (c : Call) (w : Streaming.State Files)
        → (filename == k) ≡ false
        → contents (call main_writer c w).1.real k ≡ contents w.real k
    main_beside k c w other =
        let real = yaml_file disk marshal filename in
        let kept : contents (call real c w.real).1 k ≡ contents w.real k =
          write-contents disk marshal filename k c w.real ∙ rw other refl in
        elim (Bool-cases (uid_of c.obj == "")) [
          | inl empty ↦ ap (λ v. contents v.real k) (write_without_uid real c w empty) ∙ kept
          | inr nonempty ↦ elim (Bool-cases (seen_by real w (uid_of c.obj))) [
            | inl old ↦ ap (λ v. contents v.real k) (write_seen real c w nonempty old)
            | inr fresh ↦ ap (λ v. contents v.real k) (write_fresh real c w nonempty fresh) ∙ kept
          ]
        ]

    -- What is written before the main file, with the extended file and without it.
    abbrev first : Bool → Call → Files → Files
    first true c files = (call (yaml_file disk marshal (extended_name filename)) c files).1
    first false c files = files

    extended_other : (extended_name filename == filename) ≡ false
    extended_other = eq_false _ _ (extended_name_differs filename)

    filename_other : (filename == extended_name filename) ≡ false
    filename_other = eq_false _ _ (λ same. extended_name_differs filename (sym same))

    first_beside :
        (extended : Bool) (c : Call) (files : Files)
        → contents (first extended c files) filename ≡ contents files filename
    first_beside true c files =
        write-contents disk marshal (extended_name filename) filename c files
        ∙ rw extended_other refl
    first_beside false c files = refl

    abbrev steps_of : Bool → List Call → Streaming.State Files → Streaming.State Files
    steps_of extended = steps filename (first extended) (first_beside extended)

    output_step :
        (extended : Bool) (c : Call) (w : Streaming.State Files)
        → (call (file_output disk marshal extended filename) c w).1
          ≡ step filename (first extended) (first_beside extended) c w
    unfolding file_output writer_pool extended_writer
    output_step true c w = (composite_calls_all _ c w).0
    output_step false c w = (composite_calls_all _ c w).0

    run-steps :
        (extended : Bool) (cs : List Call) (w : Streaming.State Files)
        → run (file_output disk marshal extended filename) cs w ≡ steps_of extended cs w
    run-steps extended [] w = refl
    run-steps extended (c ∷ cs) w =
        ap (run (file_output disk marshal extended filename) cs) (output_step extended c w)
        ∙ run-steps extended cs (step filename (first extended) (first_beside extended) c w)

    extended_contents :
        (cs : List Call) (w : Streaming.State Files)
        → contents (steps_of true cs w).real (extended_name filename)
          ≡ contents w.real (extended_name filename)
            ++ documents disk marshal (extended_name filename) cs
    extended_contents [] w = sym (append-nil _)
    extended_contents (c ∷ cs) w =
        let ext = extended_name filename in
        grown (contents w.real ext) (document disk marshal ext c) _
          (extended_contents cs (step filename (first true) (first_beside true) c w))
          (main_beside ext c (record w { real = first true c w.real }) filename_other
            ∙ (write-contents disk marshal ext ext c w.real ∙ rw (eq_refl ext) refl))

    no_extended :
        (cs : List Call) (w : Streaming.State Files)
        → contents (steps_of false cs w).real (extended_name filename)
          ≡ contents w.real (extended_name filename)
    no_extended [] w = refl
    no_extended (c ∷ cs) w =
        no_extended cs (call main_writer c w).1
        ∙ main_beside (extended_name filename) c w filename_other

    extended_grows :
        (extended : Bool) (cs : List Call) (w : Streaming.State Files)
        → contents (steps_of extended cs w).real (extended_name filename)
          ≡ contents w.real (extended_name filename)
            ++ (if extended then documents disk marshal (extended_name filename) cs else [])
    extended_grows true cs w = extended_contents cs w
    extended_grows false cs w = no_extended cs w ∙ sym (append-nil _)

    -- After any calls from the start, the main file has grown by one document for the first call
    -- of each UID and for each call without a UID, in order, but for those that could not be
    -- encoded or written. The extended file, if it is asked for, has grown by the documents of all
    -- calls; otherwise it is as it was.
    pub output_files :
        (extended : Bool) (cs : List Call) (files : Files)
        → let after =
            (run (file_output disk marshal extended filename) cs (Streaming.new files)).real in
          (contents after filename
            ≡ contents files filename ++ documents disk marshal filename (firsts (λ u. false) cs))
          × (contents after (extended_name filename)
              ≡ contents files (extended_name filename)
                ++ (if extended then documents disk marshal (extended_name filename) cs else []))
    unfolding Streaming.new
    output_files extended cs files =
        let w = Streaming.new files in
        let ran = run-steps extended cs w in
        let seen = nothing_seen (yaml_file disk marshal filename) files in
        (
          ap (λ v. contents v.real filename) ran
              ∙ (main_contents filename (first extended) (first_beside extended) cs w
                  ∙ ap
                      (λ before.
                        contents files filename
                        ++ documents disk marshal filename (firsts before cs))
                      seen),
          ap (λ v. contents v.real (extended_name filename)) ran ∙ extended_grows extended cs w,
        )
