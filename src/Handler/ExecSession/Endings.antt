-- ===== src/Handler/ExecSession/Endings.antt =====
-- How an exec session (meshsync/exec.go) ends.
use meshsync.Common.{
  ◌+◌, String, ◌≡◌, ◌∙◌, refl, Bool, true, false, ◌||◌, Option, none, some, List, [], ◌∷◌, ◌++◌,
  arith, eq_refl, if◌then◌else◌,
}
use meshsync.Common.Dict.{lookup, lookup-delete}
use meshsync.Handler.Sessions
use meshsync.Handler.Sessions.{ExecRequest, exec_request, exec_requests, exec_id}
use meshsync.Handler.Sessions.Signals.{exec_stop_recorded}
use meshsync.Errors.{Error}
use meshsync.Handler.Sessions.{remove_first}
use meshsync.Handler.ExecSession.{
  input_subject, subscribed_to, unsubscribe_session_input, terminate, Session, Event, signalled,
  typed, tty_ended, received, input_closed, stopped, done_seen, requested, leave, turn, on_message,
  step, steps, start, report,
}

-- The subscriptions after the session gave them up, with the broker's answer.
abbrev pub left_after : Option Error → List String → List String
left_after none subjects = []
left_after (some e) subjects = subjects

-- A session with this id, whose subscription had the error `failure`, if any, and whose broker
-- answers Unsubscribe with the error `refusal`, if any: the subscription was given up once if the
-- session is done and never otherwise, the session is done once its loop has ended, and it is
-- subscribed to its input, if it ever was, until it is done, and then only if the broker refused.
abbrev pub IsTidy : String → Option Error → Option Error → Session → Type 0
IsTidy id failure refusal s =
    (s.unsubscribed ≡ (if s.done then 1 else 0))
    × ((s.looping || s.done) ≡ true)
    × (s.subscriptions ≡ (
        if s.done then left_after refusal (subscribed_to id failure) else subscribed_to id failure))
    × (s.refusal ≡ refusal)

module _ (exec_input_object id : String) (failure refusal : Option Error) where
  given_up :
      (failure : Option Error) → remove_first (subscribed_to id failure) (input_subject id) ≡ []
  unfolding subscribed_to remove_first
  given_up none = rw (eq_refl (input_subject id)) refl
  given_up (some e) = refl

  answered :
      (refusal : Option Error)
      → unsubscribe_session_input id refusal (subscribed_to id failure)
        ≡ left_after refusal (subscribed_to id failure)
  unfolding unsubscribe_session_input
  answered none = given_up failure
  answered (some e) = refl

  terminate-IsTidy :
      (s : Session) → IsTidy id failure refusal s → IsTidy id failure refusal (terminate id s)
  unfolding terminate
  terminate-IsTidy s h = ground (arith, h.0, h.1, answered refusal)

  leave-IsTidy :
      (s : Session) → IsTidy id failure refusal s → IsTidy id failure refusal (leave id s)
  unfolding leave terminate
  leave-IsTidy s h = ground (arith, h.0, h.1, answered refusal)

  turn-IsTidy : (s : Session) → IsTidy id failure refusal s → IsTidy id failure refusal (turn id s)
  unfolding turn
  turn-IsTidy s h = ground (arith, leave-IsTidy s h, h.0, h.1)

  report-IsTidy :
      (text : Option String) (s : Session)
      → IsTidy id failure refusal s
      → IsTidy id failure refusal (report text s)
  unfolding report
  report-IsTidy none s h = h
  report-IsTidy (some text) s h = h

  step-IsTidy :
      (e : Event) (s : Session)
      → IsTidy id failure refusal s
      → IsTidy id failure refusal (step exec_input_object id e s)
  unfolding step on_message
  step-IsTidy (tty_ended text) s h = terminate-IsTidy (report text s) (report-IsTidy text s h)
  step-IsTidy (requested reqs) s h = h
  step-IsTidy (received m) s h = ground (
    arith,
    turn-IsTidy (if s.done then s else record s { stdin = s.stdin ++ typed exec_input_object m }),
    h.0,
    h.1,
  )
  step-IsTidy input_closed s h = ground (arith, leave-IsTidy s h, h.0, h.1)
  step-IsTidy stopped s h = ground (arith, leave-IsTidy s h, h.0, h.1)
  step-IsTidy done_seen s h = ground (arith, leave-IsTidy s h, h.0, h.1)
  step-IsTidy signalled s h = ground (arith, leave-IsTidy s h, h.0, h.1)

  steps-IsTidy :
      (es : List Event) (s : Session)
      → IsTidy id failure refusal s
      → IsTidy id failure refusal (steps exec_input_object id es s)
  unfolding steps
  steps-IsTidy [] s h = h
  steps-IsTidy (e ∷ es) s h = steps-IsTidy es (step exec_input_object id e s) (step-IsTidy e s h)

  -- Whatever happens from the start of a session on, in whatever order: its input subscription is
  -- given up exactly once if the session is done and never before, it is subscribed to its input
  -- until then, unless the subscription failed, and to nothing afterwards, unless the broker
  -- refused to unsubscribe it, when it stays as it was, and once the loop over the input has ended,
  -- the session is done.
  pub exec_session-IsTidy :
      (es : List Event) (handler : Sessions.State)
      → IsTidy id failure refusal (steps exec_input_object id es (start id failure refusal handler))
  unfolding start
  exec_session-IsTidy es handler = steps-IsTidy es _ (turn-IsTidy _ (refl, refl, refl, refl))

-- A session that runs and is not done yet ends after a stop request for it and the receipt of the
-- signal: its loop ends, its subscription is given up, and the handler knows it no longer.
pub exec_stop_ends :
    (exec_input_object : String) (req : ExecRequest) (s : Session) (signal : Bool)
    → req.stop ≡ true
    → lookup s.handler.sessions (exec_id req) ≡ some signal
    → s.done ≡ false
    → s.looping ≡ true
    → let after = steps exec_input_object (exec_id req) (requested (req ∷ []) ∷ signalled ∷ []) s in
      (after.looping ≡ false)
      × (after.done ≡ true)
      × (after.unsubscribed ≡ s.unsubscribed + 1)
      × (lookup after.handler.sessions (exec_id req) ≡ none)
unfolding steps step leave terminate exec_requests Sessions.terminate
exec_stop_ends exec_input_object req s signal stops known running looping =
    let id = exec_id req in
    let sessions = (exec_request req s.handler).sessions in
    let there : lookup sessions id ≡ some true =
      (exec_stop_recorded req s.handler stops).0 id ∙ rw (eq_refl id, known) refl in
    let gone : lookup (Sessions.delete_session id sessions) id ≡ none =
      lookup-delete sessions id id ∙ rw (eq_refl id) refl in
    rw (there, looping, running) (refl, refl, refl, gone)
