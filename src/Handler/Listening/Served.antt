-- ===== src/Handler/Listening/Served.antt =====
-- What becomes of the messages that ListenToRequests (meshsync/handlers.go) receives.
use meshsync.Common.{
  ℕ, ◌+◌, String, ◌≡◌, refl, ap, ◌∙◌, Option, none, some, List, [], ◌∷◌, ◌++◌, map, arith,
}
use meshsync.Common.Dict.{Dict}
use meshsync.Errors.{Error, Result}
use meshsync.Config.{ListenerConfig}
use meshsync.Model.{KubernetesResource}
use meshsync.Handler.Requests.{Entities, Message, Published, State, handle_request}
use meshsync.Handler.Sessions.{ExecRequest, LogRequest}
use meshsync.Handler.Listening.{
  Incoming, stop_closed, received, Loop, panicked, left, load_listener_configs,
  init_request_listener, configs_or_nil, serve, serve_requests, listen_to_requests,
}
use meshsync.Handler.Listening.Counted.{asks_for, AreApart, Counts, HandledMessage, message_handled}

-- A message that is not nil, with the objects of the stores when it is served.
abbrev pub as_incoming : {O : Type 0} → Message O × List KubernetesResource → Incoming O
as_incoming (m, objects) = received (some m) (some objects)

-- How many of the messages ask for an entity.
abbrev pub asked : {O : Type 0} → String → List (Message O × List KubernetesResource) → ℕ
asked entity [] = 0
asked entity ((m, objects) ∷ rest) = asks_for entity m.request + asked entity rest

module _ {O B : Type 0} (entities : Entities) (decode_exec : O → Result (List ExecRequest))
    (decode_logs : O → Result (List LogRequest)) (decode_reply : O → Result String)
    (server_version : String) (publish : String → Published → B → Option Error × B)
    (subscribe : String → String → B → Option Error × B) where
  abbrev serving : List (Incoming O) → State B → Loop B
  serving =
      serve_requests entities decode_exec decode_logs decode_reply server_version publish subscribe

  serving_next :
      (m : Message O) (objects : List KubernetesResource) (rest : List (Incoming O))
      (h h' : State B)
      → serve entities decode_exec decode_logs decode_reply server_version publish subscribe
          (some m)
          (some objects)
          h
        ≡ some h'
      → serving (as_incoming (m, objects) ∷ rest) h ≡ serving rest h'
  unfolding serve_requests
  serving_next m objects rest h h' e =
      ap (λ (o : Option (State B)). elim o [ none ↦ panicked | some k ↦ serving rest k ]) e

  -- After the messages, some state has counted them, from which the loop goes on.
  Served : List (Message O × List KubernetesResource) → State B → Type 0
  Served before h =
      (h' : State B) × ((rest : List (Incoming O))
        → serving (map as_incoming before ++ rest) h ≡ serving rest h')
      × Counts (asked entities.resync_discovery before) (asked entities.active_exec before) h h'

  messages-Served :
      (before : List (Message O × List KubernetesResource)) (h : State B)
      → AreApart entities
      → Served before h
  unfolding Served HandledMessage
  messages-Served [] h apart = (h, (λ rest. refl), (omega arith, omega arith))
  messages-Served ((m, objects) ∷ before) h apart =
      let (h1, e, (r, t)) =
        message_handled entities decode_exec decode_logs decode_reply server_version publish
          subscribe m.request objects h apart in
      let (h2, later, (r', t')) = messages-Served before h1 apart in
      (
        h2,
        (λ rest. serving_next m objects (map as_incoming before ++ rest) h h1 e ∙ later rest),
        (omega (arith, r, r'), omega (arith, t, t')),
      )

  -- After the subscription.
  abbrev subscribed : Result (Dict ListenerConfig) → State B → State B
  subscribed get_object h = record h {
    broker =
        init_request_listener subscribe (configs_or_nil (load_listener_configs get_object))
          h.broker;
  }

  -- If meshkit names the entities differently and the listings of the stores do not panic: whatever
  -- messages come before the stop, with a request or without one, the loop serves them all and ends
  -- at the stop, whatever comes after it; one resync signal was sent for each message that asks for
  -- a resync, and one goroutine started for each that asks for the active sessions. If a nil message
  -- comes instead of the stop, the program panics.
  pub requests_served :
      (configs : Result (Dict ListenerConfig)) (before : List (Message O × List KubernetesResource))
      (rest : List (Incoming O)) (listing : Option (List KubernetesResource)) (h : State B)
      → AreApart entities
      → let listen =
          listen_to_requests entities decode_exec decode_logs decode_reply server_version publish
            subscribe configs in
        ((h' : State B) × (listen (map as_incoming before ++ stop_closed ∷ rest) h ≡ left h')
          × (h'.resyncs ≡ h.resyncs + asked entities.resync_discovery before)
          × (h'.tickers ≡ h.tickers + asked entities.active_exec before))
        × (listen (map as_incoming before ++ received none listing ∷ rest) h ≡ panicked)
  unfolding listen_to_requests serve_requests handle_request Served
  requests_served configs before rest listing h apart =
      let (h', goes_on, (r, t)) = messages-Served before (subscribed configs h) apart in
      ((h', goes_on (stop_closed ∷ rest), r, t), goes_on (received none listing ∷ rest))
