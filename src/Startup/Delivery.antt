-- ===== src/Startup/Delivery.antt =====
-- From an informer (internal/pipeline/handlers.go) to the files of a Run
-- (pkg/lib/meshsync/meshsync.go).
use mathlib.Core.Path.{subst}
use meshsync.Common.{
  String, ◌≡◌, ap, ◌∙◌, Bool, false, Option, some, List, [], ◌++◌, All, if◌then◌else◌,
}
use meshsync.Errors.{Error, Result}
use meshsync.Model.{KubernetesResource}
use meshsync.Model.Convert.{Codec}
use meshsync.Output.{Call}
use meshsync.Output.Streaming
use meshsync.Output.Streaming.Once.{firsts, run}
use meshsync.Output.Yaml.{Files, contents}
use meshsync.Pipeline.Handlers.{RegisterInformer}
use meshsync.Pipeline.Handlers.Published.{log_write, IsAllowed}
use meshsync.Pipeline.Handlers.Events.{
  Notification, NotificationDecodes, AllAllowed, handle_all, handle_all-AllAllowed,
}
use meshsync.Pipeline.Handlers.Delivered.{handle_all-replayed, replayed}
use meshsync.Startup.Outputs.{extended_name, file_output}
use meshsync.Startup.Outputs.Documents.{documents}
use meshsync.Startup.Outputs.Contents.{output_files}

-- If what an informer delivers makes no handler panic, and the objects decode to their own
-- namespace, then after it the main file has grown by one document for the first call of each
-- resource and the extended file, if there is one, by the documents of all calls, but for those
-- that could not be encoded or written; and every one of these calls is of a listed event in a
-- namespace that passes the filter.
pub snapshot_of_informer :
    {Service : Type 0} (c : Codec Service) (env : String) (ri : RegisterInformer)
    (disk : String → String → Option Error) (marshal : KubernetesResource → Result String)
    (filename : String) (extended : Bool) (ns : List Notification) (calls : List Call)
    (files : Files)
    → All (NotificationDecodes c env ri) ns
    → handle_all c env log_write ri ns [] ≡ some calls
    → let after = run (file_output disk marshal extended filename) calls (Streaming.new files) in
      (handle_all c env (file_output disk marshal extended filename) ri ns (Streaming.new files)
        ≡ some after)
      × (contents after.real filename
          ≡ contents files filename ++ documents disk marshal filename (firsts (λ u. false) calls))
      × (contents after.real (extended_name filename)
          ≡ contents files (extended_name filename)
            ++ (if extended then documents disk marshal (extended_name filename) calls else []))
      × All (IsAllowed c env ri) calls
snapshot_of_informer c env ri disk marshal filename extended ns calls files decodes delivered =
    let writer = file_output disk marshal extended filename in
    let (main, more) = output_files disk marshal filename extended calls files in
    (
      handle_all-replayed c env writer ri (Streaming.new files) ns []
          ∙ ap (replayed c env writer ri (Streaming.new files)) delivered,
      main,
      more,
      subst (AllAllowed c env ri) delivered (handle_all-AllAllowed c env ri ns [] decodes tt),
    )
