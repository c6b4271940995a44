-- ===== src/Handler/Sessions.antt =====
-- meshsync/sessions.go, and the requests that start and stop the sessions: processExecRequest and
-- execCleanup of meshsync/exec.go, processLogRequest of meshsync/logstream.go. The channel of a
-- session has room for one signal: it is seen by whether the signal is there. `decode` stands for
-- marshalling the payload and unmarshalling it into the map of requests, in the order in which the
-- program then ranges over it.
pub mod Signals
pub mod Running
pub mod Ids
use meshsync.Common.{
  String, Bool, true, false, not, Option, none, some, List, [], ◌∷◌, ◌++◌, ◌==◌, if◌then◌else◌,
}
use meshsync.Common.Int.{ℤ}
use meshsync.Common.Dict.{Dict, lookup, insert, delete, keys}
use meshsync.Common.Text.{join}
use meshsync.Errors.{Error, Result, ok, err}

pub record ExecRequest : Type 0 where
  pub id : String
  pub name : String
  pub namespace : String
  pub container : String
  pub stop : Bool

pub record LogRequest : Type 0 where
  pub id : String
  pub name : String
  pub namespace : String
  pub container : String
  pub follow : Bool
  pub previous : Bool
  pub tail_lines : ℤ
  pub stop : Bool

-- The sessions, each with whether its channel holds a signal, the ids of the session goroutines
-- that have been started and have not ended, the latest first, and the lists of active sessions that
-- were published.
pub record State : Type 0 where
  pub sessions : Dict Bool
  pub running : List String
  pub published : List (List String)

unfoldable pub add_if_new : String → Dict Bool → Option Bool → Dict Bool × Bool
add_if_new id sessions (some signal) = (sessions, false)
add_if_new id sessions none = (insert sessions id false, true)

-- The sessions after it, and `created`.
unfoldable pub add_session : String → Dict Bool → Dict Bool × Bool
unfolding add_if_new
add_session id sessions = add_if_new id sessions (lookup sessions id)

abbrev pub get_session : String → Dict Bool → Option Bool
get_session id sessions = lookup sessions id

abbrev pub delete_session : String → Dict Bool → Dict Bool
delete_session id sessions = delete sessions id

abbrev pub active_session_ids : Dict Bool → List String
active_session_ids sessions = keys sessions

unfoldable pub signal_if_any : String → Dict Bool → Option Bool → Dict Bool
signal_if_any id sessions none = sessions
signal_if_any id sessions (some signal) = insert sessions id true

-- execCleanup: a send that never waits. A channel that holds a signal stays as it is.
unfoldable pub exec_cleanup : String → Dict Bool → Dict Bool
unfolding signal_if_any
exec_cleanup id sessions = signal_if_any id sessions (get_session id sessions)

-- fmt.Sprintf("exec.%s.%s.%s.%s", req.Namespace, req.Name, req.Container, req.ID)
unfoldable pub exec_id : ExecRequest → String
exec_id req = join "." ("exec" ∷ req.namespace ∷ req.name ∷ req.container ∷ req.id ∷ [])

-- fmt.Sprintf("logs.%s.%s.%s", req.Namespace, req.Name, req.Container)
unfoldable pub log_id : LogRequest → String
log_id req = join "." ("logs" ∷ req.namespace ∷ req.name ∷ req.container ∷ [])

unfoldable pub started : String → State → Dict Bool × Bool → State
started id h (sessions, created) =
    if created
    then record h { sessions = sessions; running = id ∷ h.running }
    else record h { sessions = sessions }

unfoldable pub publish_active : State → State
publish_active h = record h { published = active_session_ids h.sessions ∷ h.published }

-- The bodies of the two loops over the requests.
unfoldable pub exec_request : ExecRequest → State → State
unfolding started publish_active
exec_request req h =
    let id = exec_id req in
    let (sessions, created) = add_session id h.sessions in
    if req.stop
    then record h { sessions = exec_cleanup id h.sessions }
    else (if created
        then started id (publish_active (record h { sessions = sessions })) (sessions, created)
        else h)

unfoldable pub log_request : LogRequest → State → State
unfolding started
log_request req h =
    let id = log_id req in
    if req.stop
    then record h { sessions = exec_cleanup id h.sessions }
    else started id h (add_session id h.sessions)

unfoldable pub exec_requests : List ExecRequest → State → State
exec_requests [] h = h
exec_requests (req ∷ reqs) h = exec_requests reqs (exec_request req h)

unfoldable pub log_requests : List LogRequest → State → State
log_requests [] h = h
log_requests (req ∷ reqs) h = log_requests reqs (log_request req h)

unfoldable pub process_exec_request {ℓ} :
    {O : Type ℓ} → (O → Result (List ExecRequest)) → O → State → Option Error × State
process_exec_request decode obj h = elim (decode obj) [
  | err e ↦ (some e, h)
  | ok reqs ↦ (none, exec_requests reqs h)
]

unfoldable pub process_log_request {ℓ} :
    {O : Type ℓ} → (O → Result (List LogRequest)) → O → State → Option Error × State
process_log_request decode obj h = elim (decode obj) [
  | err e ↦ (some e, h)
  | ok reqs ↦ (none, log_requests reqs h)
]

unfoldable pub remove_first : List String → String → List String
remove_first [] id = []
remove_first (i ∷ is) id = let rest = remove_first is id in if i == id then is else i ∷ rest

-- The end of a session goroutine: the call of deleteSession in terminate and in streamLogs, which
-- each session makes once.
unfoldable pub terminate : String → State → State
unfolding remove_first
terminate id h = record h {
  sessions = delete_session id h.sessions;
  running = remove_first h.running id;
}
