-- ===== src/Startup/Run/Writers.antt =====
-- The part of Run (pkg/lib/meshsync/meshsync.go) that chooses the writer of its output mode, with
-- createNatsBrokerHandler.
use meshsync.Startup.Run.Externals.{Env}
use meshsync.Common.{ℕ, String, true, Option, none, some, [], ◌∷◌, ◌==◌, if◌then◌else◌}
use meshsync.Common.Text.{concat}
use meshsync.Errors.{Error, Result, ok, err}
use meshsync.Output.{Write, new_processor, set_output}
use meshsync.Output.ContentDeduplicator
use meshsync.Output.ContentDeduplicator.{hash_resource}
use meshsync.Output.Streaming
use meshsync.Output.Yaml
use meshsync.Output.Yaml.{Files}
use meshsync.Snapshot.{generate_unique_file_name_for_snapshot}
use meshsync.Startup.{broker_host, connectivity_test, broker_content_dedup_enabled}
use meshsync.Startup.Options.{Options, output_mode_broker, output_mode_file}
use meshsync.Startup.Health.{mark_ready}
use meshsync.Startup.Outputs.{default_format, extended_name, file_output, broker_output}
use meshsync.Startup.Run.Effects.{
  Sinks, close_extended, failed, Action, ◌>>=◌, ◌>>◌, pure, wait, modify, gets, lift, fail_if, when,
}

abbrev connectivity_test_timeout : ℕ
connectivity_test_timeout = 300000000000

unfoldable pub on_broker : {B : Type 0} → Write (ContentDeduplicator.State B) → Write (Sinks B)
on_broker write obj evtype cfg s =
    let (e, broker) = write obj evtype cfg s.broker in (e, record s { broker = broker })

unfoldable pub on_files : {B : Type 0} → Write (Streaming.State Files) → Write (Sinks B)
on_files write obj evtype cfg s =
    let (e, files) = write obj evtype cfg s.files in (e, record s { files = files })

module _ {H C K V B : Type 0} (env : Env H C K V B) where
  abbrev A : Type 0 → Type 0
  A = Action H B

  ping_url : Result String → String → String
  ping_url (err e) endpoint = ""
  ping_url (ok host) endpoint = concat ("http://" ∷ host ∷ endpoint ∷ [])

  unfoldable pub after_test : String → Option (Option Error) → A H
  after_test broker_url none = wait
  after_test broker_url (some (some e)) = λ w. (failed e, w)
  after_test broker_url (some none) = lift (env.nats_new broker_url)

  unfoldable pub create_nats_broker_handler : String → String → A H
  unfolding ping_url after_test
  create_nats_broker_handler ping_endpoint broker_url =
      let host = broker_host env.parse_host (λ u. u) broker_url in
      after_test broker_url (
        connectivity_test host connectivity_test_timeout env.start
          (env.attempts (ping_url host ping_endpoint)))

  unfoldable pub broker_or_new : Option H → String → A H
  broker_or_new (some h) ping_endpoint = pure h
  broker_or_new none ping_endpoint = do
    url ← gets (λ w. w.stored.broker_url)
    create_nats_broker_handler ping_endpoint url

  unfoldable pub set_broker_output : Options H C → A (Option H)
  unfolding broker_or_new
  set_broker_output options = do
    br ← broker_or_new options.broker_handler options.ping_endpoint
    modify λ w. record w { health = mark_ready w.health }
    modify λ w. record w {
      output = set_output w.output (
          on_broker (
            broker_output env.mesh_sync env.publish (hash_resource env.marshal_json env.sum256)
              (broker_content_dedup_enabled env.parse_bool env.broker_content_dedup)));
    }
    pure (some br)

  -- file.NewYAMLWriter
  unfoldable pub new_yaml_writer : String → A (Unit {0})
  new_yaml_writer name w =
      let (e, files) = Yaml.open_file env.disk env.openable name w.files in
      fail_if e (record w { files = files })

  unfoldable pub filename_or_new : String → A String
  filename_or_new name =
      if name == ""
      then lift (generate_unique_file_name_for_snapshot env.exists env.current_date default_format)
      else pure name

  unfoldable pub open_extended : String → A (Unit {0})
  unfolding new_yaml_writer
  open_extended filename = do
    new_yaml_writer (extended_name filename)
    modify λ w. record w {
      held = record w.held { extended_file = true };
      deferred = close_extended ∷ w.deferred;
    }

  -- No Close of this file is deferred.
  unfoldable pub open_main : String → A (Unit {0})
  unfolding new_yaml_writer
  open_main filename = do
    new_yaml_writer filename
    modify λ w. record w { held = record w.held { main_file = true } }

  unfoldable pub set_file_output : Options H C → A (Unit {0})
  unfolding filename_or_new open_extended open_main
  set_file_output options = do
    filename ← filename_or_new options.output_file_name
    when options.output_extended_file (open_extended filename)
    open_main filename
    modify λ w. record w {
      output =
          set_output w.output (
            on_files (file_output env.disk env.marshal_yaml options.output_extended_file filename));
    }

  unfoldable pub set_outputs : Options H C → A (Option H)
  unfolding set_broker_output set_file_output
  set_outputs options = do
    modify λ w. record w { output = new_processor }
    br ← if options.output_mode == output_mode_broker then set_broker_output options else pure none
    when (options.output_mode == output_mode_file) (set_file_output options)
    pure br
