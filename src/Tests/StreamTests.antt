-- ===== src/Tests/StreamTests.antt =====
-- Log streams, exec sessions, the watch of definitions and the requests of meshsync/, GetClusterID of
-- pkg/utils/utils.go and the flags of main.go on concrete inputs.
use meshsync.Common.{
  ℕ, ◌+◌, ◌++◌, String, ◌≡◌, ◌≢◌, refl, Bool, true, false, Option, none, some, List, [], ◌∷◌, arith,
  inl, inr, eq_refl, map, contains, All, ◌∙◌,
}
use meshsync.Common.Int.{negsuc, pos}
use meshsync.Common.Dict.{lookup}
use meshsync.Errors.{Error, message, Result, ok, err}
use meshsync.Config.{ListenerConfig, request_stream}
use meshsync.Config.Defaults.{default_events}
use meshsync.Handler.Sessions
use meshsync.Handler.Sessions.{LogRequest, ExecRequest, log_id, exec_id}
use meshsync.Handler.Streams.{Read, eof, Published, publish_log, stream_logs}
use meshsync.Handler.Streams.Texts.{texts, each, log_stream_published}
use meshsync.Handler.ExecSession.{
  Session, input_subject, tty_ended, received, signalled, stopped, requested, steps, start,
}
use meshsync.Handler.ExecSession.Endings.{IsTidy, exec_session-IsTidy, exec_stop_ends}
use meshsync.Handler.ExecSession.Input
use meshsync.Handler.ExecSession.Input.{Sent, OthersAreOther, message_of, lines, exec_input_copied}
use meshsync.Handler.CrdWatch.Loop.{
  Item, stop_closed, watch_closed, event, Round, watch_crds, watch_crds_handles_events, iterations,
  handle_all, all_events,
}
use meshsync.Handler.Backoff.{delays}
use meshsync.Model.{KubernetesResource}
use meshsync.Handler.Requests
use meshsync.Handler.Requests.{Entities, Request}
use meshsync.Handler.Listening
use meshsync.Handler.Listening.{listen_to_requests}
use meshsync.Handler.Listening.Counted.{AreApart}
use meshsync.Handler.Listening.Served.{as_incoming, asked, requests_served}
use meshsync.Config.Filtration
use meshsync.Config.Filtration.{new_output_namespace_set}
use meshsync.Common.Text.{HasNo, join, concat}
use meshsync.Common.Text.Splitting.{HasNoSpace}
use meshsync.Startup.Options.{Options, default_options, set_options}
use meshsync.CommandLine.{Flags, setters, parse_flags}
use meshsync.CommandLine.Lists.{namespaces_flag_selects}

-- A broker that counts what is published.
abbrev count : String → Published → ℕ → Option Error × ℕ
count subject m n = (none, n + 1)

abbrev read : String → Read
read bytes = record { bytes = bytes; error = none }

abbrev last_read : String → Read
last_read bytes = record { bytes = bytes; error = some eof }

abbrev log_of : LogRequest
log_of = record {
  id = "1";
  name = "web";
  namespace = "shop";
  container = "app";
  follow = true;
  previous = false;
  tail_lines = pos 10;
  stop = false;
}

abbrev listener : ListenerConfig
listener = record {
  name = "request-stream";
  connection_name = "meshsync";
  publish_to = "meshery.meshsync.logs";
  subscribe_to = "meshery.meshsync.request";
  events = default_events;
}

abbrev idle : Sessions.State
idle = record { sessions = []; running = []; published = [] }

log_stream_published_example :
    stream_logs count log_of listener
      (ok (read "one" ∷ read "" ∷ [] ++ last_read "two" ∷ []))
      idle
      0
    ≡ some (
      Sessions.terminate (log_id log_of) idle,
      each (publish_log count log_of listener) (texts (read "one" ∷ read "" ∷ [])) 0,
    )
log_stream_published_example =
    log_stream_published count log_of listener (read "one" ∷ read "" ∷ []) (last_read "two") [] idle
      0 (refl, (refl, tt)) (λ e. cc)

-- The bytes that came with the end of the file are not published.
tail_dropped : each (publish_log count log_of listener) (texts (read "one" ∷ read "" ∷ [])) 0 ≡ 1
tail_dropped = refl

abbrev shell : Bool → ExecRequest
shell stop = record { id = "1"; name = "web"; namespace = "shop"; container = "app"; stop = stop }

abbrev with_shell : Sessions.State
with_shell = record {
  sessions = (exec_id (shell true), false) ∷ [];
  running = exec_id (shell true) ∷ [];
  published = [];
}

abbrev refused : Option Error
refused = some (message "no connection")

exec_session-IsTidy_example : IsTidy (exec_id (shell true)) none refused (
    steps "exec-input"
      (exec_id (shell true))
      (tty_ended none ∷ stopped ∷ tty_ended (some "broken") ∷ [])
      (start (exec_id (shell true)) none refused with_shell))
exec_session-IsTidy_example =
    exec_session-IsTidy "exec-input" (exec_id (shell true)) none refused
      (tty_ended none ∷ stopped ∷ tty_ended (some "broken") ∷ []) with_shell

abbrev running : Session
running = record {
  handler = with_shell;
  done = false;
  subscriptions = input_subject (exec_id (shell true)) ∷ [];
  unsubscribed = 0;
  refusal = none;
  stdin = [];
  reported = [];
  looping = true;
}

shell_known : lookup with_shell.sessions (exec_id (shell true)) ≡ some false
unfolding lookup
shell_known = ground (arith, eq_refl (exec_id (shell true)))

exec_stop_ends_example :
    let after =
      steps "exec-input"
        (exec_id (shell true))
        (requested (shell true ∷ []) ∷ signalled ∷ [])
        running in
    (after.looping ≡ false)
    × (after.done ≡ true)
    × (after.unsubscribed ≡ 0 + 1)
    × (lookup after.handler.sessions (exec_id (shell true)) ≡ none)
exec_stop_ends_example =
    exec_stop_ends "exec-input" (shell true) running false refl shell_known refl refl

abbrev sent : List Sent
sent =
    Input.input "ls"
    ∷ Input.other none
    ∷ Input.other (some (record { object_type = "exec-input"; object = none }))
    ∷ Input.other (some (record { object_type = "exec-output"; object = some "no" }))
    ∷ Input.input "pwd"
    ∷ []

others_are_other : OthersAreOther "exec-input" sent
others_are_other = (tt, (inr refl, (inl (λ e. cc), tt)))

two_lines : lines sent ≡ "ls\n" ∷ "pwd\n" ∷ []
unfolding concat
two_lines = refl

exec_input_copied_example :
    steps "exec-input"
      (exec_id (shell true))
      (map received (map (message_of "exec-input") sent))
      running
    ≡ record running { stdin = running.stdin ++ lines sent }
exec_input_copied_example =
    exec_input_copied "exec-input" (exec_id (shell true)) sent running others_are_other refl refl
      (rw shell_known refl)

-- Events are numbers, and the state is their sum.
abbrev round : Result (List (Item ℕ)) → Bool → Round ℕ
round watch stops = record { watch = watch; lasted = 0; draw = λ n. 0; stopped = stops }

abbrev sum : ℕ → ℕ → ℕ
sum e s = e + s

abbrev rounds : List (Round ℕ)
rounds =
    round (ok (event 1 ∷ event 2 ∷ watch_closed ∷ [])) false
    ∷ round (err (message "refused")) false
    ∷ []

watch_crds_handles_events_example :
    watch_crds sum 2000000000 (rounds ++ round (ok (event 3 ∷ stop_closed ∷ [])) true ∷ []) 0
    ≡ some (
      delays 2000000000 (iterations (rounds ++ round (ok (event 3 ∷ stop_closed ∷ [])) true ∷ [])),
      handle_all sum (all_events (rounds ++ round (ok (event 3 ∷ stop_closed ∷ [])) true ∷ [])) 0,
    )
watch_crds_handles_events_example =
    watch_crds_handles_events sum 2000000000 rounds (round (ok (event 3 ∷ stop_closed ∷ [])) true)
      [] 0 ((refl, refl), ((refl, refl), tt)) refl refl

abbrev entities : Entities
entities = record {
  log_request = "log";
  resync_discovery = "resync";
  exec_request = "exec";
  active_exec = "active-exec";
}

abbrev ask : String → Requests.Message String × List KubernetesResource
ask entity = (record { request = some (record { entity = entity; payload = "" }) }, [])

abbrev count_any : String → Requests.Published → ℕ → Option Error × ℕ
count_any subject m n = (none, n + 1)

abbrev subscribe : String → String → ℕ → Option Error × ℕ
subscribe subject queue n = (none, n)

abbrev quiet : Requests.State ℕ
quiet = record { sessions = idle; resyncs = 0; tickers = 0; broker = 0 }

abbrev no_requests {ℓ} : {A : Type ℓ} → String → Result (List A)
no_requests payload = ok []

abbrev reply : String → Result String
reply payload = ok payload

abbrev some_asked : List (Requests.Message String × List KubernetesResource)
some_asked =
    ask "resync" ∷ (record { request = none }, []) ∷ ask "informer-store" ∷ ask "active-exec" ∷ []

entities_apart : AreApart entities
entities_apart = record {
  resync_log = refl;
  resync_store = refl;
  active_log = refl;
  active_store = refl;
  active_resync = refl;
  active_exec = refl;
}

requests_served_example :
    let listen =
      listen_to_requests entities no_requests no_requests reply "v1" count_any subscribe
        (ok ((request_stream, listener) ∷ [])) in
    ((h : Requests.State ℕ) × (listen
          (map as_incoming some_asked ++ Listening.stop_closed ∷ Listening.received none none ∷ [])
          quiet
        ≡ Listening.left h)
      × (h.resyncs ≡ quiet.resyncs + asked entities.resync_discovery some_asked)
      × (h.tickers ≡ quiet.tickers + asked entities.active_exec some_asked))
    × (listen
          (map as_incoming some_asked
            ++ Listening.received none none ∷ Listening.received none none ∷ [])
          quiet
        ≡ Listening.panicked)
requests_served_example =
    requests_served entities no_requests no_requests reply "v1" count_any subscribe
      (ok ((request_stream, listener) ∷ [])) some_asked (Listening.received none none ∷ []) none
      quiet entities_apart

abbrev flags : Flags
flags = record {
  output = "file";
  output_file = "";
  output_namespaces = "ns,dev";
  output_resources = "";
  stop_after = negsuc 0;
}

abbrev library_defaults : Options (Unit {0}) (Unit {0})
library_defaults = default_options tt "viper"

abbrev two_names : List String
two_names = "ns" ∷ "dev" ∷ []

joined_names : flags.output_namespaces ≡ join "," two_names
unfolding join
joined_names = refl

no_commas : All (HasNo b',') two_names
no_commas = ((refl, (refl, tt)), ((refl, (refl, (refl, tt))), tt))

no_spaces : All HasNoSpace two_names
no_spaces = ((refl, (refl, tt)), ((refl, (refl, (refl, tt))), tt))

not_empty : flags.output_namespaces ≢ ""
not_empty e = cc

namespaces_flag_selects_example :
    let options = set_options (setters "v1" "viper" (parse_flags flags)) library_defaults in
    Filtration.contains (new_output_namespace_set options.only_k8s_namespaces) "ns"
    ≡ contains two_names "ns"
namespaces_flag_selects_example =
    namespaces_flag_selects "v1" "viper" library_defaults flags "ns" ("dev" ∷ []) "ns" no_commas
      no_spaces (λ e. not_empty (joined_names ∙ e)) joined_names
