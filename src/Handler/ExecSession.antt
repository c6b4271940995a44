-- ===== src/Handler/ExecSession.antt =====
-- streamSession of meshsync/exec.go as a machine over the events that its goroutines meet: the
-- loop over the input, and the end of the terminal's goroutine. The map of sessions is that of the
-- handler, and other goroutines may change it in between. Closing the pipes is seen by `done`,
-- which is closed with them.
pub mod Endings
pub mod Input
use meshsync.Common.{
  ℕ, ◌+◌, String, Bool, true, false, Option, none, some, List, [], ◌∷◌, ◌++◌, ◌==◌, if◌then◌else◌,
}
use meshsync.Common.Dict.{lookup, has}
use meshsync.Common.Text.{concat}
use meshsync.Handler.Sessions
use meshsync.Errors.{Error}
use meshsync.Handler.Sessions.{ExecRequest, exec_requests, remove_first}

-- The object is some text if it is a string.
pub record Message : Type 0 where
  pub object_type : String
  pub object : Option String

-- `subscriptions` are the subjects that the session is subscribed to, `unsubscribed` counts the calls
-- of unsubscribeSessionInput, `refusal` is the error of the broker's Unsubscribe when it is called,
-- if any, `stdin` is what was written to the
-- terminal, `reported` the texts of the errors that the client was sent, and `looping` says whether
-- the loop over the input still runs.
pub record Session : Type 0 where
  pub handler : Sessions.State
  pub done : Bool
  pub subscriptions : List String
  pub unsubscribed : ℕ
  pub refusal : Option Error
  pub stdin : List String
  pub reported : List String
  pub looping : Bool

-- The terminal's goroutine ends with the text of an error, or without one. A message may be nil.
-- `requested` is a message to the handler, which another goroutine serves.
pub data Event : Type 0 where
  tty_ended : Option String → Event
  received : Option Message → Event
  input_closed : Event
  signalled : Event
  stopped : Event
  done_seen : Event
  requested : List ExecRequest → Event

-- The lines that a message writes to the terminal.
unfoldable pub typed : String → Option Message → List String
typed exec_input_object none = []
typed exec_input_object (some m) =
    if m.object_type == exec_input_object
    then elim m.object [ none ↦ [] | some input ↦ concat (input ∷ "\n" ∷ []) ∷ [] ]
    else []

-- A failure of the terminal is reported to the client.
unfoldable pub report : Option String → Session → Session
report none s = s
report (some text) s = record s { reported = s.reported ++ text ∷ [] }

module _ (id : String) where
  -- fmt.Sprintf("input.%s", id)
  abbrev pub input_subject : String
  input_subject = concat ("input." ∷ id ∷ [])

  -- After SubscribeWithChannel, with its error, which is only logged.
  unfoldable pub subscribed_to : Option Error → List String
  subscribed_to none = input_subject ∷ []
  subscribed_to (some e) = []

  -- unsubscribeSessionInput: an error is only logged, and the subscription then remains.
  unfoldable pub unsubscribe_session_input : Option Error → List String → List String
  unsubscribe_session_input none subjects = remove_first subjects input_subject
  unsubscribe_session_input (some e) subjects = subjects

  -- once.Do
  unfoldable pub terminate : Session → Session
  unfolding unsubscribe_session_input
  terminate s = if s.done then s else record s {
    handler = Sessions.terminate id s.handler;
    done = true;
    subscriptions = unsubscribe_session_input s.refusal s.subscriptions;
    unsubscribed = s.unsubscribed + 1;
  }

  -- A return from the loop, with the deferred terminate.
  unfoldable pub leave : Session → Session
  unfolding terminate
  leave s = record (terminate s) { looping = false }

  -- The top of the loop.
  unfoldable pub turn : Session → Session
  unfolding leave
  turn s = if has (lookup s.handler.sessions id) then s else leave s

  -- The session after it was set up.
  unfoldable pub start : Option Error → Option Error → Sessions.State → Session
  unfolding turn subscribed_to
  start failure refusal handler = turn (record {
    handler = handler;
    done = false;
    subscriptions = subscribed_to failure;
    unsubscribed = 0;
    refusal = refusal;
    stdin = [];
    reported = [];
    looping = true;
  })

module _ (exec_input_object id : String) where
  unfoldable pub on_message : Option Message → Session → Session
  unfolding typed turn
  on_message m s =
      turn id (if s.done then s else record s { stdin = s.stdin ++ typed exec_input_object m })

  -- A signal can be received if it is there, and done can be seen if it is closed.
  unfoldable pub step : Event → Session → Session
  unfolding terminate leave on_message report
  step (tty_ended failure) s = terminate id (report failure s)
  step (requested reqs) s = record s { handler = exec_requests reqs s.handler }
  step (received m) s = if s.looping then on_message m s else s
  step input_closed s = if s.looping then leave id s else s
  step stopped s = if s.looping then leave id s else s
  step done_seen s = if s.looping then (if s.done then leave id s else s) else s
  step signalled s =
      if s.looping
      then (elim (lookup s.handler.sessions id) [
        | none ↦ s
        | some signal ↦ if signal then leave id s else s
      ])
      else s

  unfoldable pub steps : List Event → Session → Session
  unfolding step
  steps [] s = s
  steps (e ∷ es) s = steps es (step e s)
