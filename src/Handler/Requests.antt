-- ===== src/Handler/Requests.antt =====
-- handleRequest of meshsync/handlers.go and the functions for its cases. The entities that meshkit's
-- broker names are an argument, as are the decoders of the payloads and the broker's Publish. The
-- sending of a resync signal waits until the loop of Run receives it, which is not seen here.
-- `none` is a panic, of the listing of the stores or of a nil message.
pub mod Store
use meshsync.Common.{
  ℕ, suc, ◌+◌, String, Option, none, some, List, [], ◌∷◌, ◌++◌, ◌==◌, if◌then◌else◌,
}
use meshsync.Errors.{Error, Result, ok, err}
use meshsync.Model.{KubernetesResource}
use meshsync.Model.Convert.{◌>>=◌}
use meshsync.Handler.Slices.{split_into_multiple_slices}
use meshsync.Handler.Sessions
use meshsync.Handler.Sessions.{ExecRequest, LogRequest, process_exec_request, process_log_request}

-- The constants of meshkit's broker.
pub record Entities : Type 0 where
  pub log_request : String
  pub resync_discovery : String
  pub exec_request : String
  pub active_exec : String

pub record Request (O : Type 0) : Type 0 where
  pub entity : String
  pub payload : O

-- A message of the broker, whose request may be nil.
pub record Message (O : Type 0) : Type 0 where
  pub request : Option (Request O)

-- What the requests publish: a batch of resources, the version, or the active sessions.
pub data Published : Type 0 where
  batch : List KubernetesResource → Published
  version : String → Published
  active : List String → Published

-- What a request may change: the sessions, the number of resync signals, the number of goroutines
-- that publish the active sessions, and the broker.
pub record State (B : Type 0) : Type 0 where
  pub sessions : Sessions.State
  pub resyncs : ℕ
  pub tickers : ℕ
  pub broker : B

-- It starts a goroutine of streamChannelPool.
unfoldable pub process_active_exec_request : {B : Type 0} → State B → State B
process_active_exec_request h = record h { tickers = h.tickers + 1 }

module _ {O B : Type 0} (entities : Entities) (decode_exec : O → Result (List ExecRequest))
    (decode_logs : O → Result (List LogRequest)) (decode_reply : O → Result String)
    (server_version : String) (publish : String → Published → B → Option Error × B)
    (list_store_objects : Option (List KubernetesResource)) where
  -- Errors are logged, and the loop goes on.
  unfoldable pub publish_all : String → List (List KubernetesResource) → B → B
  publish_all reply [] b = b
  publish_all reply (objects ∷ batches) b =
      publish_all reply batches (publish reply (batch objects) b).1

  unfoldable pub handle_informer_store_request : O → B → Option B
  unfolding publish_all
  handle_informer_store_request payload b = elim (decode_reply payload) [
    | err e ↦ some b
    | ok reply ↦
        list_store_objects
        >>= (λ objects. some (publish_all reply (split_into_multiple_slices objects 5) b))
  ]

  -- Errors are only logged.
  abbrev pub handle_log_request : O → State B → State B
  handle_log_request payload h = record h {
    sessions = (process_log_request decode_logs payload h.sessions).1;
  }

  abbrev pub handle_resync_request : State B → State B
  handle_resync_request h = record h { resyncs = h.resyncs + 1 }

  abbrev pub handle_exec_request : O → State B → State B
  handle_exec_request payload h = record h {
    sessions = (process_exec_request decode_exec payload h.sessions).1;
  }

  abbrev pub handle_active_exec_request : State B → State B
  handle_active_exec_request h = process_active_exec_request h

  abbrev pub publish_meshsync_meta : State B → State B
  publish_meshsync_meta h = record h {
    broker = (publish "meshsync-meta" (version server_version) h.broker).1;
  }

  -- The cases of the switch, tried in its order; a nil request is only logged.
  unfoldable pub handle_if_any : Option (Request O) → State B → Option (State B)
  unfolding process_active_exec_request
  handle_if_any none h = some h
  handle_if_any (some r) h =
      if r.entity == entities.log_request
      then some (handle_log_request r.payload h)
      else if r.entity == "informer-store"
      then handle_informer_store_request r.payload h.broker
        >>= (λ b. some (record h { broker = b }))
      else if r.entity == entities.resync_discovery
      then some (handle_resync_request h)
      else if r.entity == entities.exec_request
      then some (handle_exec_request r.payload h)
      else if r.entity == entities.active_exec
      then some (handle_active_exec_request h)
      else if r.entity == "meshsync-meta"
      then some (publish_meshsync_meta h)
      else some h

  -- A nil message is dereferenced.
  unfoldable pub handle_request : Option (Message O) → State B → Option (State B)
  unfolding handle_if_any
  handle_request none h = none
  handle_request (some message) h = handle_if_any message.request h
