-- ===== src/Handler/Sessions/Signals.antt =====
-- What a request to stop a session does (meshsync/exec.go, meshsync/logstream.go).
use meshsync.Common.{
  String, ◌≡◌, refl, ap, sym, ◌∙◌, inl, inr, Bool, true, Option, none, some, Option-cases, arith,
  ◌==◌, eq_iff, eq_refl, if◌then◌else◌,
}
use meshsync.Common.Dict.{Dict, lookup, insert, lookup-insert, insert-same}
use meshsync.Handler.Sessions.{
  State, ExecRequest, LogRequest, exec_cleanup, signal_if_any, exec_id, log_id, exec_request,
  log_request,
}

-- The channel holds a signal, if the session exists.
abbrev pub signalled : Option Bool → Option Bool
signalled none = none
signalled (some signal) = some true

lookup-exec_cleanup :
    (id j : String) (sessions : Dict Bool)
    → lookup (exec_cleanup id sessions) j
      ≡ (if id == j then signalled (lookup sessions j) else lookup sessions j)
unfolding exec_cleanup signal_if_any
lookup-exec_cleanup id j sessions = ground (arith, lookup-insert sessions id j true, eq_iff id j)

cleanup-known :
    (id : String) (sessions : Dict Bool) (signal : Bool)
    → lookup sessions id ≡ some signal
    → exec_cleanup id sessions ≡ insert sessions id true
unfolding exec_cleanup signal_if_any
cleanup-known id sessions signal e = rw (e, exec_cleanup) refl

cleanup-unknown :
    (id : String) (sessions : Dict Bool)
    → lookup sessions id ≡ none
    → exec_cleanup id sessions ≡ sessions
unfolding exec_cleanup signal_if_any
cleanup-unknown id sessions e = rw (e, exec_cleanup) refl

cleanup-twice :
    (id : String) (sessions : Dict Bool)
    → exec_cleanup id (exec_cleanup id sessions) ≡ exec_cleanup id sessions
cleanup-twice id sessions = elim (Option-cases (lookup sessions id)) [
  | inl unknown ↦ ap (exec_cleanup id) (cleanup-unknown id sessions unknown)
  | inr (signal, known) ↦
      let there : lookup (insert sessions id true) id ≡ some true =
        lookup-insert sessions id id true ∙ ground (arith, eq_refl id) in
      ap (exec_cleanup id) (cleanup-known id sessions signal known)
      ∙ (cleanup-known id (insert sessions id true) true there
          ∙ (insert-same (insert sessions id true) id true there
              ∙ sym (cleanup-known id sessions signal known)))
]

abbrev stopped : String → State → State
stopped id h = record h { sessions = exec_cleanup id h.sessions }

-- The signal is in the channel of that session, nothing else has changed, and the same request
-- again changes nothing.
abbrev pub IsStopped : String → (State → State) → State → Type 0
IsStopped id request h =
    ((j : String)
      → lookup (request h).sessions j
        ≡ (if id == j then signalled (lookup h.sessions j) else lookup h.sessions j))
    × ((request h).running ≡ h.running)
    × ((request h).published ≡ h.published)
    × (request (request h) ≡ request h)

stopped-IsStopped :
    (id : String) (request : State → State) (h : State)
    → ((k : State) → request k ≡ stopped id k)
    → IsStopped id request h
stopped-IsStopped id request h e = (
  λ j. ap (λ (k : State). lookup k.sessions j) (e h) ∙ lookup-exec_cleanup id j h.sessions,
  ap (λ (k : State). k.running) (e h),
  ap (λ (k : State). k.published) (e h),
  e (request h)
      ∙ (ap (stopped id) (e h)
          ∙ (ap (λ s. record h { sessions = s }) (cleanup-twice id h.sessions) ∙ sym (e h))),
)

exec_stop :
    (req : ExecRequest)
    → req.stop ≡ true
    → (h : State) → exec_request req h ≡ stopped (exec_id req) h
unfolding exec_request
exec_stop req stops h = ground arith

log_stop :
    (req : LogRequest) → req.stop ≡ true → (h : State) → log_request req h ≡ stopped (log_id req) h
unfolding log_request
log_stop req stops h = ground arith

-- A request to stop an exec session puts a signal into the channel of that session, if there is
-- one, whether or not its goroutine receives yet, and changes nothing else; the same request again
-- changes nothing.
pub exec_stop_recorded :
    (req : ExecRequest) (h : State) → req.stop ≡ true → IsStopped (exec_id req) (exec_request req) h
exec_stop_recorded req h stops =
    stopped-IsStopped (exec_id req) (exec_request req) h (exec_stop req stops)

-- A request to stop a log stream puts a signal into the channel of that stream, if there is one,
-- and changes nothing else; the same request again changes nothing.
pub log_stop_recorded :
    (req : LogRequest) (h : State) → req.stop ≡ true → IsStopped (log_id req) (log_request req) h
log_stop_recorded req h stops =
    stopped-IsStopped (log_id req) (log_request req) h (log_stop req stops)
