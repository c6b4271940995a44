-- ===== src/Tests/StoreTests.antt =====
-- The stores, the tickers and the informer factories of meshsync/ on concrete inputs.
use meshsync.Common.{
  ℕ, ◌+◌, ◌++◌, String, ◌≡◌, refl, Bool, false, Option, none, some, List, [], ◌∷◌, ltb, All,
}
use meshsync.Common.Dict.{Dict, keys}
use meshsync.Common.Text.{concat}
use meshsync.Errors.{Error, message, Result, ok}
use meshsync.Model.{KubernetesResource}
use meshsync.Pipeline.Handlers.{Value, unstructured, other}
use meshsync.Handler.Requests
use meshsync.Handler.Requests.{Entities, Message, handle_request}
use meshsync.Handler.Requests.Store.{
  asking, Log, log_publish, handle, messages, Converted, store_request_published,
}
use meshsync.Handler.Slices.Batches.{flatten, Fits}
use meshsync.Handler.Sessions.{ExecRequest, LogRequest}
use meshsync.Handler.Sessions.Running.{at_start}
use meshsync.Handler.Stores.{stored_objects, parse_object, list_store_objects}
use meshsync.Handler.Stores.Redacted
use meshsync.Handler.Stores.Redacted.{AlikeStores, requests_hide_values}
use meshsync.Handler.ActivePool.Tickers.{ask_active, tick_each, copies, tickers_add_up}
use meshsync.Handler.Factories.{Factories, new, shutdown_informer}
use meshsync.Handler.Factories.Released.{
  times, once_if, successes, updates, nothing_made, factories_released,
}
use meshsync.Handler.Resync
use meshsync.Handler.Resync.Waiting.{senders, resync_senders_wait}
use meshsync.Tests.ModelTests.{secrets, same_but_values, redaction_on, parsed, parses}

abbrev entities : Entities
entities = record {
  log_request = "log-stream";
  resync_discovery = "resync-discovery";
  exec_request = "exec-request";
  active_exec = "active-sessions";
}

abbrev no_execs : String → Result (List ExecRequest)
no_execs payload = ok []

abbrev no_logs : String → Result (List LogRequest)
no_logs payload = ok []

abbrev reply_of : String → Result String
reply_of payload = ok payload

abbrev idle : Requests.State Log
idle = record { sessions = at_start; resyncs = 0; tickers = 1; broker = [] }

abbrev login : String → Value
login password =
    unstructured (some (record { bytes = password; namespace = "default"; resource_version = "1" }))

abbrev stores : String → Dict (List Value)
stores password = ("secrets", login password ∷ []) ∷ ("pods", []) ∷ []

one_object : stored_objects (stores "hunter2") ≡ login "hunter2" ∷ []
unfolding stored_objects
one_object = refl

login_parses : parse_object secrets "" "c1" (login "hunter2") ≡ some parsed
unfolding parse_object
login_parses = parses

-- A value of another type makes the listing panic.
listing_panics : list_store_objects secrets "" "c1" (("secrets", other ∷ []) ∷ []) ≡ none
unfolding list_store_objects stored_objects parse_object
listing_panics = refl

login-Converted :
    Converted secrets "" "c1" entities no_execs no_logs reply_of "v1"
      (stored_objects (stores "hunter2"))
      (parsed ∷ [])
unfolding stored_objects
login-Converted = Converted.object (login "hunter2") parsed [] [] login_parses Converted.no_object

store_request_published_example :
    (batches : List (List KubernetesResource)) × (handle secrets "" "c1" entities no_execs no_logs
        reply_of "v1"
        (stores "hunter2")
        (some (asking (record { entity = "informer-store"; payload = "inbox" })))
        idle
      ≡ some (record idle { broker = idle.broker ++ messages "inbox" batches }))
    × (flatten batches ≡ parsed ∷ [])
    × All (Fits 5) batches
store_request_published_example =
    store_request_published secrets "" "c1" entities no_execs no_logs reply_of "v1"
      (stores "hunter2") (parsed ∷ []) "inbox" "inbox" idle refl refl login-Converted

alike : AlikeStores secrets (stores "hunter2") (stores "letmein")
alike =
    AlikeStores.store "secrets" _ _ _ _
      (Redacted.AlikeObjects.object _ _ _ _ (Redacted.Alike.secret _ _ same_but_values)
        Redacted.AlikeObjects.no_object)
      (AlikeStores.store "pods" _ _ _ _ Redacted.AlikeObjects.no_object AlikeStores.no_store)

abbrev ask_stores : Option (Message String)
ask_stores = some (asking (record { entity = "informer-store"; payload = "inbox" }))

requests_hide_values_example :
    handle_request entities no_execs no_logs reply_of "v1" log_publish
      (list_store_objects secrets "TRUE" "c1" (stores "hunter2"))
      ask_stores
      idle
    ≡ handle_request entities no_execs no_logs reply_of "v1" log_publish
        (list_store_objects secrets "TRUE" "c1" (stores "letmein"))
        ask_stores
        idle
requests_hide_values_example =
    requests_hide_values secrets (λ kv. (concat (keys kv), refl)) "TRUE" "c1" redaction_on entities
      no_execs no_logs reply_of "v1" log_publish (stores "hunter2") (stores "letmein") ask_stores
      idle alike

abbrev one_session : Dict Bool
one_session = ("exec.shop.web.app.1", false) ∷ []

tickers_add_up_example :
    (ask_active entities no_execs no_logs reply_of "v1" none ("a" ∷ "b" ∷ []) idle
      ≡ some (record idle { tickers = 1 + 2 }))
    × (tick_each (1 + 2) one_session [] ≡ [] ++ copies (1 + 2) one_session)
tickers_add_up_example =
    tickers_add_up entities no_execs no_logs reply_of "v1" none refl refl refl refl ("a" ∷ "b" ∷ [])
      one_session idle

abbrev two_of_three : List (Option Error)
two_of_three = none ∷ some (message "bad config") ∷ none ∷ []

abbrev first_made : Factories
first_made = record { informer = some 0; made = 1; shut = [] }

first_new : new {C = String} ℕ "config" nothing_made ≡ ok first_made
unfolding new
first_new = refl

factories_released_example :
    let g = updates {C = String} ℕ "config" two_of_three first_made in
    (g.made ≡ 1 + successes two_of_three)
    × (g.informer ≡ some (successes two_of_three))
    × ((k : ℕ) → times k g.shut ≡ once_if (ltb k (successes two_of_three)))
    × ((k : ℕ) → times k (shutdown_informer g).shut ≡ once_if (ltb k (1 + successes two_of_three)))
factories_released_example =
    factories_released {C = String} ℕ "config" two_of_three first_made first_new

abbrev asked_once : List Resync.Event
asked_once = Resync.sent 1 ∷ Resync.received ∷ Resync.sent 2 ∷ []

abbrev asked_late : List Resync.Event
asked_late = Resync.received ∷ Resync.sent 3 ∷ Resync.received ∷ []

resync_senders_wait_example :
    let before = Resync.steps asked_once Resync.new_re_sync_channel in
    let after = Resync.steps asked_late (Resync.step Resync.stopped before) in
    (before.served ++ before.waiting ≡ senders asked_once)
    × (after.served ≡ before.served)
    × (after.waiting ≡ before.waiting ++ senders asked_late)
resync_senders_wait_example = resync_senders_wait asked_once asked_late

two_stuck :
    (Resync.steps asked_late
      (Resync.step Resync.stopped (Resync.steps asked_once Resync.new_re_sync_channel))).waiting
    ≡ 2 ∷ 3 ∷ []
unfolding Resync.steps Resync.step Resync.new_re_sync_channel
two_stuck = refl
