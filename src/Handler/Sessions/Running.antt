-- ===== src/Handler/Sessions/Running.antt =====
-- Which session goroutines run (meshsync/sessions.go, meshsync/exec.go, meshsync/logstream.go).
use mathlib.Core.Path.{subst}
use meshsync.Common.{
  inl, inr, Option-cases, String, ◌≡◌, refl, ap, sym, ◌∙◌, Bool, true, false, ◌||◌, none, some,
  List, [], ◌∷◌, arith, ◌==◌, eq_iff, if◌then◌else◌, contains,
}
use meshsync.Common.Dict.{Dict, lookup, insert, has, lookup-insert, lookup-delete, lookup-nil}
use meshsync.Handler.Sessions.{
  State, ExecRequest, LogRequest, add_session, add_if_new, exec_cleanup, signal_if_any, exec_id,
  log_id, exec_request, log_request, exec_requests, log_requests, started, publish_active,
  remove_first, terminate,
}

-- What can happen to the sessions: a message with requests, or the end of a session, whether by
-- itself or by a signal.
pub data Step : State → State → Type 0 where
  exec_requested : (reqs : List ExecRequest) (h : State) → Step h (exec_requests reqs h)
  log_requested : (reqs : List LogRequest) (h : State) → Step h (log_requests reqs h)
  ended : (id : String) (h : State) → contains h.running id ≡ true → Step h (terminate id h)

abbrev pub at_start : State
at_start = record { sessions = []; running = []; published = [] }

pub data Reachable : State → Type 0 where
  starts : Reachable at_start
  steps : (h k : State) → Reachable h → Step h k → Reachable k

abbrev pub IsDistinct : List String → Type 0
IsDistinct [] = Unit {0}
IsDistinct (id ∷ ids) = (contains ids id ≡ false) × IsDistinct ids

-- No two run under one id, and those that run are those of the map.
abbrev pub IsExact : Dict Bool → List String → Type 0
IsExact sessions running =
    IsDistinct running × ((id : String) → contains running id ≡ has (lookup sessions id))

has-cleanup :
    (id j : String) (sessions : Dict Bool)
    → has (lookup (exec_cleanup id sessions) j) ≡ has (lookup sessions j)
unfolding exec_cleanup signal_if_any
has-cleanup id j sessions = ground (arith, lookup-insert sessions id j true, eq_iff id j)

add-known :
    (id : String) (sessions : Dict Bool) (signal : Bool)
    → lookup sessions id ≡ some signal
    → add_session id sessions ≡ (sessions, false)
unfolding add_session add_if_new
add-known id sessions signal e = rw (e, add_session) refl

add-new :
    (id : String) (sessions : Dict Bool)
    → lookup sessions id ≡ none
    → add_session id sessions ≡ (insert sessions id false, true)
unfolding add_session add_if_new
add-new id sessions e = rw (e, add_session) refl

start-IsExact :
    (id : String) (h : State)
    → IsExact h.sessions h.running
    → let after = started id h (add_session id h.sessions) in IsExact after.sessions after.running
unfolding started
start-IsExact id h (distinct, exact) =
    let Goal =
      λ (r : Dict Bool × Bool). IsExact (started id h r).sessions (started id h r).running in
    elim (Option-cases (lookup h.sessions id)) [
      | inl none_yet ↦ subst Goal (sym (add-new id h.sessions none_yet)) (
        (exact id ∙ ap has none_yet, distinct),
        λ j.
            ap (λ b. id == j || b) (exact j)
            ∙ ground (arith, lookup-insert h.sessions id j false, eq_iff id j),
      )
      | inr (signal, known) ↦
          subst Goal (sym (add-known id h.sessions signal known)) (distinct, exact)
    ]

cleanup-IsExact :
    (id : String) (sessions : Dict Bool) (running : List String)
    → IsExact sessions running
    → IsExact (exec_cleanup id sessions) running
cleanup-IsExact id sessions running (distinct, exact) =
    (distinct, λ j. exact j ∙ sym (has-cleanup id j sessions))

-- Publishing the active sessions first makes no difference to them.
exec_request-sessions :
    (req : ExecRequest) (h : State)
    → let after = started (exec_id req) h (add_session (exec_id req) h.sessions) in
      ((exec_request req h).sessions
        ≡ (if req.stop then exec_cleanup (exec_id req) h.sessions else after.sessions))
      × ((exec_request req h).running ≡ (if req.stop then h.running else after.running))
unfolding exec_request started publish_active add_session add_if_new
exec_request-sessions req h = ground arith

log_request-sessions :
    (req : LogRequest) (h : State)
    → let after = started (log_id req) h (add_session (log_id req) h.sessions) in
      ((log_request req h).sessions
        ≡ (if req.stop then exec_cleanup (log_id req) h.sessions else after.sessions))
      × ((log_request req h).running ≡ (if req.stop then h.running else after.running))
unfolding log_request
log_request-sessions req h = ground arith

either-IsExact :
    (id : String) (h k : State) (stop : Bool)
    → let after = started id h (add_session id h.sessions) in
      k.sessions ≡ (if stop then exec_cleanup id h.sessions else after.sessions)
      → k.running ≡ (if stop then h.running else after.running)
      → IsExact h.sessions h.running
      → IsExact k.sessions k.running
either-IsExact id h k true sessions running exact = subst (IsExact k.sessions) (sym running) (
    subst (λ s. IsExact s h.running) (sym sessions) (cleanup-IsExact id h.sessions h.running exact))
either-IsExact id h k false sessions running exact =
    let after = started id h (add_session id h.sessions) in
    subst (IsExact k.sessions) (sym running)
      (subst (λ s. IsExact s after.running) (sym sessions) (start-IsExact id h exact))

exec_request-IsExact :
    (req : ExecRequest) (h : State)
    → IsExact h.sessions h.running
    → IsExact (exec_request req h).sessions (exec_request req h).running
exec_request-IsExact req h exact =
    let (sessions, running) = exec_request-sessions req h in
    either-IsExact (exec_id req) h (exec_request req h) req.stop sessions running exact

log_request-IsExact :
    (req : LogRequest) (h : State)
    → IsExact h.sessions h.running
    → IsExact (log_request req h).sessions (log_request req h).running
log_request-IsExact req h exact =
    let (sessions, running) = log_request-sessions req h in
    either-IsExact (log_id req) h (log_request req h) req.stop sessions running exact

exec_requests-IsExact :
    (reqs : List ExecRequest) (h : State)
    → IsExact h.sessions h.running
    → IsExact (exec_requests reqs h).sessions (exec_requests reqs h).running
unfolding exec_requests
exec_requests-IsExact [] h exact = exact
exec_requests-IsExact (req ∷ reqs) h exact =
    exec_requests-IsExact reqs (exec_request req h) (exec_request-IsExact req h exact)

log_requests-IsExact :
    (reqs : List LogRequest) (h : State)
    → IsExact h.sessions h.running
    → IsExact (log_requests reqs h).sessions (log_requests reqs h).running
unfolding log_requests
log_requests-IsExact [] h exact = exact
log_requests-IsExact (req ∷ reqs) h exact =
    log_requests-IsExact reqs (log_request req h) (log_request-IsExact req h exact)

remove_first-ne :
    (ids : List String) (id j : String)
    → IsDistinct ids
    → contains (remove_first ids id) j ≡ (if id == j then false else contains ids j)
unfolding remove_first
remove_first-ne [] id j d = ground arith
remove_first-ne (i ∷ ids) id j d =
    ground (arith, remove_first-ne ids id j d.1, eq_iff i id, eq_iff i j, eq_iff id j)

remove_first-IsDistinct :
    (ids : List String) (id : String) → IsDistinct ids → IsDistinct (remove_first ids id)
unfolding remove_first
remove_first-IsDistinct [] id d = tt
remove_first-IsDistinct (i ∷ ids) id d = ground (
  arith,
  remove_first-IsDistinct ids id d.1,
  remove_first-ne ids id i d.1,
  eq_iff i id,
  eq_iff id i,
)

terminate-IsExact :
    (id : String) (h : State)
    → IsExact h.sessions h.running
    → IsExact (terminate id h).sessions (terminate id h).running
unfolding terminate
terminate-IsExact id h (distinct, exact) = (
  remove_first-IsDistinct h.running id distinct,
  λ j.
      remove_first-ne h.running id j distinct
      ∙ (ap (λ b. if id == j then false else b) (exact j)
          ∙ ground (arith, lookup-delete h.sessions id j)),
)

step-IsExact :
    {h k : State} → Step h k → IsExact h.sessions h.running → IsExact k.sessions k.running
step-IsExact (exec_requested reqs h) exact = exec_requests-IsExact reqs h exact
step-IsExact (log_requested reqs h) exact = log_requests-IsExact reqs h exact
step-IsExact (ended id h runs) exact = terminate-IsExact id h exact

-- In every state that requests and ends of sessions lead to, no two sessions run under one id, and
-- the ids in the map of sessions are those of the sessions that run.
pub sessions-IsExact : (h : State) → Reachable h → IsExact h.sessions h.running
sessions-IsExact _ starts = (tt, λ id. sym (ap has (lookup-nil id)))
sessions-IsExact _ (steps g h reached step) = step-IsExact step (sessions-IsExact g reached)
