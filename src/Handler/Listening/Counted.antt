-- ===== src/Handler/Listening/Counted.antt =====
-- What one message that ListenToRequests (meshsync/handlers.go) receives adds to the resync signals
-- and to the goroutines of the pool.
use meshsync.Common.{
  ℕ, ◌+◌, String, ◌≡◌, refl, Bool, true, false, Bool-cases, inl, inr, Option, none, some, List,
  arith, ◌==◌, eq_iff,
}
use meshsync.Errors.{Error, Result, Result-cases}
use meshsync.Model.{KubernetesResource}
use meshsync.Handler.Requests.{
  Entities, Request, Message, Published, version, State, handle_request, handle_if_any,
  handle_informer_store_request, process_active_exec_request, publish_all,
}
use meshsync.Handler.Slices.{split_into_multiple_slices}
use meshsync.Handler.Sessions.{ExecRequest, LogRequest, process_exec_request, process_log_request}
use meshsync.Handler.Listening.{serve}

abbrev pub one_if : Bool → ℕ
one_if true = 1
one_if false = 0

abbrev pub asks_for : {O : Type 0} → String → Option (Request O) → ℕ
asks_for entity none = 0
asks_for entity (some r) = one_if (r.entity == entity)

-- Meshkit's names of the two entities are not those of an earlier case of the switch.
pub record AreApart (entities : Entities) : Type 0 where
  pub resync_log : (entities.resync_discovery == entities.log_request) ≡ false
  pub resync_store : (entities.resync_discovery == "informer-store") ≡ false
  pub active_log : (entities.active_exec == entities.log_request) ≡ false
  pub active_store : (entities.active_exec == "informer-store") ≡ false
  pub active_resync : (entities.active_exec == entities.resync_discovery) ≡ false
  pub active_exec : (entities.active_exec == entities.exec_request) ≡ false

-- A text that is one of two different texts is not the other.
other :
    (text this that : String)
    → (text == this) ≡ true
    → (that == this) ≡ false
    → (text == that) ≡ false
other text this that is apart = ground (arith, eq_iff text this, eq_iff that this, eq_iff text that)

-- A state that has counted these requests, if it was the first one before.
abbrev pub Counts : {B : Type 0} → ℕ → ℕ → State B → State B → Type 0
Counts resyncs tickers h h' =
    (h'.resyncs ≡ h.resyncs + resyncs) × (h'.tickers ≡ h.tickers + tickers)

module _ {O B : Type 0} (entities : Entities) (decode_exec : O → Result (List ExecRequest))
    (decode_logs : O → Result (List LogRequest)) (decode_reply : O → Result String)
    (server_version : String) (publish : String → Published → B → Option Error × B)
    (subscribe : String → String → B → Option Error × B) where
  abbrev handled : List KubernetesResource → Option (Request O) → State B → Option (State B)
  handled objects =
      handle_if_any entities decode_exec decode_logs decode_reply server_version publish
        (some objects)

  abbrev store_reply : List KubernetesResource → O → B → Option B
  store_reply objects =
      handle_informer_store_request entities decode_exec decode_logs decode_reply server_version
        publish (some objects)

  replied :
      (objects : List KubernetesResource) (payload : O) (b : B)
      → (b' : B) × (store_reply objects payload b ≡ some b')
  unfolding handle_informer_store_request
  replied objects payload b = elim (Result-cases (decode_reply payload)) [
    | inl (e, q) ↦ (b, rw (q, handle_informer_store_request) refl)
    | inr (reply, q) ↦ (
      publish_all entities decode_exec decode_logs decode_reply server_version publish
          (some objects) reply (split_into_multiple_slices objects 5) b,
      rw (q, handle_informer_store_request) refl,
    )
  ]

  -- The state after one request, and what it counts.
  Handled : List KubernetesResource → Request O → State B → Type 0
  Handled objects r h =
      (h' : State B) × (handled objects (some r) h ≡ some h')
      × Counts (one_if (r.entity == entities.resync_discovery))
          (one_if (r.entity == entities.active_exec)) h h'

  module _ (objects : List KubernetesResource) (r : Request O) (h : State B)
      (apart : AreApart entities) where
    uncounted :
        (h' : State B)
        → handled objects (some r) h ≡ some h'
        → h'.resyncs ≡ h.resyncs
        → h'.tickers ≡ h.tickers
        → (r.entity == entities.resync_discovery) ≡ false
        → (r.entity == entities.active_exec) ≡ false
        → Handled objects r h
    unfolding Handled
    uncounted h' e x y not_resync not_active =
        (h', e, (rw not_resync (omega (arith, x)), rw not_active (omega (arith, y))))

    log-Handled : (r.entity == entities.log_request) ≡ true → Handled objects r h
    log-Handled is =
        uncounted (record h { sessions = (process_log_request decode_logs r.payload h.sessions).1 })
          (unfold handle_if_any in rw is refl) refl refl
          (other r.entity entities.log_request entities.resync_discovery is apart.resync_log)
          (other r.entity entities.log_request entities.active_exec is apart.active_log)

    store-Handled :
        (r.entity == entities.log_request) ≡ false
        → (r.entity == "informer-store") ≡ true
        → Handled objects r h
    store-Handled not_log is =
        let (b, e) = replied objects r.payload h.broker in
        uncounted (record h { broker = b }) (unfold handle_if_any in rw (not_log, is, e) refl) refl
          refl (other r.entity "informer-store" entities.resync_discovery is apart.resync_store)
          (other r.entity "informer-store" entities.active_exec is apart.active_store)

    resync-Handled :
        (r.entity == entities.log_request) ≡ false
        → (r.entity == "informer-store") ≡ false
        → (r.entity == entities.resync_discovery) ≡ true
        → Handled objects r h
    unfolding Handled
    resync-Handled not_log not_store is = (
      record h { resyncs = h.resyncs + 1 },
      (unfold handle_if_any in rw (not_log, not_store, is) refl),
      (
        rw is refl,
        rw (other r.entity entities.resync_discovery entities.active_exec is apart.active_resync)
            (omega arith),
      ),
    )

    exec-Handled :
        (r.entity == entities.log_request) ≡ false
        → (r.entity == "informer-store") ≡ false
        → (r.entity == entities.resync_discovery) ≡ false
        → (r.entity == entities.exec_request) ≡ true
        → Handled objects r h
    exec-Handled not_log not_store not_resync is =
        uncounted
          (record h { sessions = (process_exec_request decode_exec r.payload h.sessions).1 })
          (unfold handle_if_any in rw (not_log, not_store, not_resync, is) refl) refl refl
          not_resync
          (other r.entity entities.exec_request entities.active_exec is apart.active_exec)

    active-Handled :
        (r.entity == entities.log_request) ≡ false
        → (r.entity == "informer-store") ≡ false
        → (r.entity == entities.resync_discovery) ≡ false
        → (r.entity == entities.exec_request) ≡ false
        → (r.entity == entities.active_exec) ≡ true
        → Handled objects r h
    unfolding Handled
    active-Handled not_log not_store not_resync not_exec is = (
      record h { tickers = h.tickers + 1 },
      (unfold handle_if_any process_active_exec_request in
          rw (not_log, not_store, not_resync, not_exec, is) refl),
      (rw not_resync (omega arith), rw is refl),
    )

    rest-Handled :
        (r.entity == entities.log_request) ≡ false
        → (r.entity == "informer-store") ≡ false
        → (r.entity == entities.resync_discovery) ≡ false
        → (r.entity == entities.exec_request) ≡ false
        → (r.entity == entities.active_exec) ≡ false
        → Handled objects r h
    rest-Handled not_log not_store not_resync not_exec not_active =
        elim (Bool-cases (r.entity == "meshsync-meta")) [
          | inl is ↦
              uncounted
                (record h {
                  broker = (publish "meshsync-meta" (version server_version) h.broker).1;
                })
                (unfold handle_if_any in
                  rw (not_log, not_store, not_resync, not_exec, not_active, is) refl)
                refl refl not_resync not_active
          | inr not_meta ↦
              uncounted h
                (unfold handle_if_any in
                  rw (not_log, not_store, not_resync, not_exec, not_active, not_meta) refl)
                refl refl not_resync not_active
        ]

    request-Handled : Handled objects r h
    request-Handled = elim (Bool-cases (r.entity == entities.log_request)) [
      | inl is ↦ log-Handled is
      | inr a ↦ elim (Bool-cases (r.entity == "informer-store")) [
        | inl is ↦ store-Handled a is
        | inr b ↦ elim (Bool-cases (r.entity == entities.resync_discovery)) [
          | inl is ↦ resync-Handled a b is
          | inr c ↦ elim (Bool-cases (r.entity == entities.exec_request)) [
            | inl is ↦ exec-Handled a b c is
            | inr d ↦ elim (Bool-cases (r.entity == entities.active_exec)) [
              | inl is ↦ active-Handled a b c d is
              | inr e ↦ rest-Handled a b c d e
            ]
          ]
        ]
      ]
    ]

  -- The same of a message, which may have no request.
  unfoldable pub HandledMessage : Message O × List KubernetesResource → State B → Type 0
  HandledMessage (m, objects) h =
      (h' : State B) × (serve entities decode_exec decode_logs decode_reply server_version publish
          subscribe (some m) (some objects) h
        ≡ some h')
      × Counts (asks_for entities.resync_discovery m.request)
          (asks_for entities.active_exec m.request) h h'

  pub message_handled :
      (o : Option (Request O)) (objects : List KubernetesResource) (h : State B)
      → AreApart entities
      → HandledMessage (record { request = o }, objects) h
  unfolding HandledMessage handle_request
  message_handled none objects h apart =
      (h, unfold handle_if_any in refl, (omega arith, omega arith))
  message_handled (some r) objects h apart = unfold Handled in request-Handled objects r h apart
