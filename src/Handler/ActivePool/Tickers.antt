-- ===== src/Handler/ActivePool/Tickers.antt =====
-- What the goroutines of streamChannelPool (meshsync/exec.go) publish.
use meshsync.Common.{
  ℕ, zero, suc, ◌+◌, String, ◌≡◌, refl, ap, sym, ◌∙◌, Bool, false, Option, some, List, [], ◌∷◌,
  ◌++◌, map, arith, ◌==◌, eq_refl, length,
}
use mathlib.Core.List.{append-nil, append_assoc}
use meshsync.Common.Dict.{Dict}
use meshsync.Errors.{Result}
use meshsync.Handler.Requests.{
  Published, active, Entities, State, process_active_exec_request, handle_request, handle_if_any,
}
use meshsync.Handler.Requests.Store.{asking, Log, log_publish}
use meshsync.Model.{KubernetesResource}
use meshsync.Model.Convert.{◌>>=◌}
use meshsync.Handler.Sessions.{ExecRequest, LogRequest}
use meshsync.Handler.Sessions.{active_session_ids}
use meshsync.Handler.ActivePool.{
  Signal, stop_closed, tick, ended, append_channels, get_active_channels, publish_pool,
  stream_channel_pool,
}

abbrev pub message_of : Dict Bool → String × Published
message_of sessions = ("active_sessions.exec", active (active_session_ids sessions))

append_channels-append :
    (channels ids : List String) → append_channels channels ids ≡ channels ++ ids
unfolding append_channels
append_channels-append channels [] = sym (append-nil channels)
append_channels-append channels (id ∷ ids) =
    append_channels-append (channels ++ id ∷ []) ids ∙ append_assoc channels (id ∷ []) ids

publish_pool-append :
    (sessions : Dict Bool) (log : Log)
    → publish_pool log_publish sessions log ≡ log ++ message_of sessions ∷ []
unfolding publish_pool log_publish get_active_channels
publish_pool-append sessions log =
    ap (λ ids. log ++ ("active_sessions.exec", active ids) ∷ [])
      (append_channels-append [] (active_session_ids sessions))

-- A goroutine of the pool publishes at each tick before the stop the ids of the sessions of that
-- time, in order, and ends at the stop without publishing again.
pub pool_publishes :
    (before : List (Dict Bool)) (rest : List Signal) (log : Log)
    → stream_channel_pool log_publish (map tick before ++ stop_closed ∷ rest) log
      ≡ ended (log ++ map message_of before)
unfolding stream_channel_pool
pool_publishes [] rest log = ap ended (sym (append-nil log))
pool_publishes (sessions ∷ before) rest log =
    pool_publishes before rest (publish_pool log_publish sessions log)
    ∙ ap ended (
        ap (λ l. l ++ map message_of before) (publish_pool-append sessions log)
        ∙ append_assoc log (message_of sessions ∷ []) (map message_of before))

-- One tick of each of n goroutines of the pool.
abbrev pub tick_each : ℕ → Dict Bool → Log → Log
tick_each zero sessions log = log
tick_each (suc n) sessions log = tick_each n sessions (publish_pool log_publish sessions log)

abbrev pub copies : ℕ → Dict Bool → Log
copies zero sessions = []
copies (suc n) sessions = message_of sessions ∷ copies n sessions

tick_each-append :
    (n : ℕ) (sessions : Dict Bool) (log : Log) → tick_each n sessions log ≡ log ++ copies n sessions
tick_each-append zero sessions log = sym (append-nil log)
tick_each-append (suc n) sessions log =
    tick_each-append n sessions (publish_pool log_publish sessions log)
    ∙ (ap (λ l. l ++ copies n sessions) (publish_pool-append sessions log)
        ∙ append_assoc log (message_of sessions ∷ []) (copies n sessions))

module _ {O : Type 0} (entities : Entities) (decode_exec : O → Result (List ExecRequest))
    (decode_logs : O → Result (List LogRequest)) (decode_reply : O → Result String)
    (server_version : String) (listing : Option (List KubernetesResource)) where
  -- Requests for the active sessions with these payloads, one after another.
  abbrev pub ask_active : List O → State Log → Option (State Log)
  ask_active [] h = some h
  ask_active (payload ∷ payloads) h =
      handle_request entities decode_exec decode_logs decode_reply server_version log_publish
        listing (some (asking (record { entity = entities.active_exec; payload = payload }))) h
      >>= ask_active payloads

  module _ (not_log : (entities.active_exec == entities.log_request) ≡ false)
      (not_store : (entities.active_exec == "informer-store") ≡ false)
      (not_resync : (entities.active_exec == entities.resync_discovery) ≡ false)
      (not_exec : (entities.active_exec == entities.exec_request) ≡ false) where
    active_case :
        (payload : O) (h : State Log)
        → handle_request entities decode_exec decode_logs decode_reply server_version log_publish
            listing
            (some (asking (record { entity = entities.active_exec; payload = payload })))
            h
          ≡ some (record h { tickers = h.tickers + 1 })
    unfolding handle_request handle_if_any process_active_exec_request
    active_case payload h =
        rw (not_log, not_store, not_resync, not_exec, eq_refl entities.active_exec) refl

    ask_active-tickers :
        (payloads : List O) (h : State Log)
        → ask_active payloads h ≡ some (record h { tickers = h.tickers + length payloads })
    ask_active-tickers [] h = ap (λ n. some (record h { tickers = n })) (omega arith)
    ask_active-tickers (payload ∷ payloads) h = rw (active_case payload h) (
        ask_active-tickers payloads (record h { tickers = h.tickers + 1 })
        ∙ ap (λ n. some (record h { tickers = n })) (omega arith))

    -- If meshkit's entities have different names: each of some requests for the active sessions
    -- starts one more goroutine, and at a tick of all goroutines each of them publishes the list,
    -- once for every request that was ever served.
    pub tickers_add_up :
        (payloads : List O) (sessions : Dict Bool) (h : State Log)
        → (ask_active payloads h ≡ some (record h { tickers = h.tickers + length payloads }))
          × (tick_each (h.tickers + length payloads) sessions h.broker
              ≡ h.broker ++ copies (h.tickers + length payloads) sessions)
    tickers_add_up payloads sessions h = (
      ask_active-tickers payloads h,
      tick_each-append (h.tickers + length payloads) sessions h.broker,
    )
