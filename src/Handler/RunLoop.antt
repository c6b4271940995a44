-- ===== src/Handler/RunLoop.antt =====
-- Run and debounce of meshsync/handlers.go: the loop that restarts the discovery. The channels that
-- startAndTrackDiscovery makes are numbered in the order of their making. UpdateInformer is taken to
-- find a client, so that each restart makes one factory before its channel: factory and channel of
-- a discovery share their number, and the informers of a factory end when that channel is closed.
-- What can happen is a sequence of events: a resync signal; the end of the five seconds of the
-- debounce timer, which calls the debounced function in a goroutine of its own; such a call
-- reaching Shutdown, after the discovery goroutines, which end by themselves; the return from that
-- Shutdown; and a stop signal. Shutdown is documented by client-go to wait for the informers of the
-- factory that it is called on, which is the handler's at that moment, until they have ended. What
-- a call does from the return of Shutdown on, up to the start of its discovery, is one event.
pub mod Channels
pub mod Single
pub mod Restarts
pub mod Overlaps
use meshsync.Common.{
  ℕ, zero, suc, ◌+◌, ◌-◌, Bool, true, false, ◌||◌, ◌&&◌, not, Option, none, some, List, [], ◌∷◌,
  nat_eq, ltb, any, if◌then◌else◌,
}

-- `shutdown` is a call that reaches Shutdown; `restart` the return from Shutdown of a factory, with
-- whether the discovery that is started then runs any informers.
pub data Event : Type 0 where
  resync : Event
  timer : Event
  shutdown : Event
  restart : ℕ → Bool → Event
  stop : Event

-- `current` is currentPipelineCh and the number of the handler's factory, `idle` are the channels
-- whose discoveries run no informers, `pending` is the channel that the function of the timer was
-- given, `called` how many calls of that function have closed their channel and not yet reached
-- Shutdown, and `waiting` the factories in whose Shutdown the other calls are, the latest first.
pub record State : Type 0 where
  pub current : ℕ
  pub closed : List ℕ
  pub idle : List ℕ
  pub pending : Option ℕ
  pub called : ℕ
  pub waiting : List ℕ
  pub stopped : Bool

-- utils.IsClosed
abbrev pub is_closed : ℕ → List ℕ → Bool
is_closed ch closed = any (nat_eq ch) closed

abbrev pub is_in : ℕ → List ℕ → Bool
is_in n ns = any (nat_eq n) ns

unfoldable pub close_if_open : ℕ → List ℕ → List ℕ
close_if_open ch closed = if is_closed ch closed then closed else ch ∷ closed

unfoldable pub fire : Option ℕ → State → State
unfolding close_if_open
fire none h = h
fire (some ch) h = record h {
  pending = none;
  closed = close_if_open ch h.closed;
  called = h.called + 1;
}

unfoldable pub remove_one : ℕ → List ℕ → List ℕ
remove_one n [] = []
remove_one n (m ∷ ms) = let rest = remove_one n ms in if nat_eq n m then ms else m ∷ rest

-- h.informer.Shutdown()
unfoldable pub reach_shutdown : State → State
reach_shutdown h =
    if ltb 0 h.called
    then record h { called = h.called - 1; waiting = h.current ∷ h.waiting }
    else h

-- Whether the informers of a factory have ended, so that its Shutdown returns.
abbrev pub has_ended : ℕ → State → Bool
has_ended factory h = is_closed factory h.closed || is_in factory h.idle

-- startAndTrackDiscovery, after the new factory.
unfoldable pub start_and_track_discovery : Bool → State → State
start_and_track_discovery runs h = record h {
  current = h.current + 1;
  idle = if runs then h.idle else (h.current + 1) ∷ h.idle;
}

unfoldable pub return_from : ℕ → Bool → State → State
unfolding start_and_track_discovery remove_one
return_from factory runs h =
    if is_in factory h.waiting && has_ended factory h
    then start_and_track_discovery runs (record h { waiting = remove_one factory h.waiting })
    else h

-- The debounced function: it replaces the timer, if one runs, by a new one for this channel.
abbrev pub debounce : ℕ → State → State
debounce ch h = record h { pending = some ch }

-- A signal after the loop has ended finds no receiver. Only the last call of the debounced function
-- counts, with the channel that was current at its signal.
unfoldable pub step : Event → State → State
unfolding fire reach_shutdown return_from
step resync h = if h.stopped then h else debounce h.current h
step timer h = fire h.pending h
step shutdown h = reach_shutdown h
step (restart factory runs) h = return_from factory runs h
step stop h =
    if h.stopped then h else record h { stopped = true; closed = close_if_open h.current h.closed }

abbrev pub run : List Event → State → State
run [] h = h
run (e ∷ es) h = run es (step e h)

-- The first discovery has been started, and runs informers or not.
unfoldable pub at_start : Bool → State
at_start runs = record {
  current = 0;
  closed = [];
  idle = if runs then [] else 0 ∷ [];
  pending = none;
  called = 0;
  waiting = [];
  stopped = false;
}
