-- ===== src/Handler/Listening.antt =====
-- ListenToRequests of meshsync/handlers.go, with loadListenerConfigs and initRequestListener.
-- `subscribe` is the broker's SubscribeWithChannel; errors are only logged. A request comes with
-- the listing of the stores when it is served, none where it panics.
pub mod Counted
pub mod Served
use meshsync.Common.{
  String, Bool, true, false, Option, none, some, List, [], ◌∷◌, ◌==◌, if◌then◌else◌,
}
use meshsync.Common.Dict.{Dict, lookup}
use meshsync.Errors.{Error, coded, Result, ok, err, map_err}
use meshsync.Config.{ListenerConfig, request_stream}
use meshsync.Model.{KubernetesResource}
use meshsync.Handler.Requests.{Entities, Message, Published, State, handle_request}
use meshsync.Handler.Sessions.{ExecRequest, LogRequest}

-- ErrGetObject of meshsync/error.go.
abbrev err_get_object : Error → Error
err_get_object e = coded "1004" "Error getting config object" e

-- What a missing entry of the map reads as.
abbrev no_listener : ListenerConfig
no_listener = record {
  name = "";
  connection_name = "";
  publish_to = "";
  subscribe_to = "";
  events = [];
}

unfoldable pub load_listener_configs : Result (Dict ListenerConfig) → Result (Dict ListenerConfig)
load_listener_configs get_object = map_err err_get_object get_object

-- The map after an error, which was logged, is nil.
abbrev configs_or_nil : Result (Dict ListenerConfig) → Dict ListenerConfig
configs_or_nil (ok configs) = configs
configs_or_nil (err e) = []

listener_at : Option ListenerConfig → ListenerConfig
listener_at none = no_listener
listener_at (some cfg) = cfg

unfoldable pub init_request_listener :
    {B : Type 0} → (String → String → B → Option Error × B) → Dict ListenerConfig → B → B
unfolding listener_at
init_request_listener subscribe configs b =
    let cfg = listener_at (lookup configs request_stream) in
    (subscribe cfg.subscribe_to cfg.connection_name b).1

-- What the select receives: the closed stop channel, or a message, nil once that channel is closed.
pub data Incoming (O : Type 0) : Type 0 where
  stop_closed : Incoming O
  received : Option (Message O) → Option (List KubernetesResource) → Incoming O

-- How the loop goes on after some events.
pub data Loop (B : Type 0) : Type 0 where
  waiting : State B → Loop B
  left : State B → Loop B
  panicked : Loop B

module _ {O B : Type 0} (entities : Entities) (decode_exec : O → Result (List ExecRequest))
    (decode_logs : O → Result (List LogRequest)) (decode_reply : O → Result String)
    (server_version : String) (publish : String → Published → B → Option Error × B)
    (subscribe : String → String → B → Option Error × B) where
  abbrev pub serve :
      Option (Message O) → Option (List KubernetesResource) → State B → Option (State B)
  serve message objects =
      handle_request entities decode_exec decode_logs decode_reply server_version publish objects
        message

  unfoldable pub serve_requests : List (Incoming O) → State B → Loop B
  serve_requests [] h = waiting h
  serve_requests (stop_closed ∷ rest) h = left h
  serve_requests (received message objects ∷ rest) h = elim (serve message objects h) [
    | none ↦ panicked
    | some h' ↦ serve_requests rest h'
  ]

  unfoldable pub listen_to_requests :
      Result (Dict ListenerConfig) → List (Incoming O) → State B → Loop B
  unfolding serve_requests
  listen_to_requests get_object incoming h =
      let configs = configs_or_nil (load_listener_configs get_object) in
      serve_requests incoming
        (record h { broker = init_request_listener subscribe configs h.broker })
