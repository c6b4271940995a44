-- ===== src/Handler/Streams.antt =====
-- streamLogs and awaitLogStreamStop of meshsync/logstream.go, and the goroutine of streamSession
-- in meshsync/exec.go that publishes what a terminal prints. The reads are those that the stream
-- answers, a read of no bytes and no error included: a result is `none` while the loop waits for
-- another one. What is only logged is not seen.
pub mod Texts
use meshsync.Common.{
  String, Bool, true, false, Option, none, some, List, [], ◌∷◌, ◌==◌, if◌then◌else◌,
}
use meshsync.Errors.{Error, Result, ok, err}
use meshsync.Broker
use meshsync.Broker.{EventType}
use meshsync.Config.{ListenerConfig}
use meshsync.Handler.Sessions
use meshsync.Handler.Sessions.{LogRequest, log_id}

pub record LogObject : Type 0 where
  pub id : String
  pub data_text : String
  pub primary : String
  pub secondary : String

pub data ReadError : Type 0 where
  eof : ReadError
  other : Error → ReadError

-- The bytes and the error of one call of Read.
pub record Read : Type 0 where
  pub bytes : String
  pub error : Option ReadError

-- A message for the broker: a part of a log, an event of type ADDED, or of a terminal's output.
pub data Published : Type 0 where
  log_stream_object : EventType → LogObject → Published
  exec_output_object : String → Published

abbrev pub log_object : LogRequest → String → LogObject
log_object req text = record {
  id = req.id;
  data_text = text;
  primary = req.name;
  secondary = req.container;
}

module _ {B : Type 0} (publish : String → Published → B → Option Error × B) where
  abbrev pub publish_log : LogRequest → ListenerConfig → String → B → B
  publish_log req cfg text b =
      (publish cfg.publish_to (log_stream_object Broker.add (log_object req text)) b).1

  -- The loop of streamLogs.
  unfoldable pub read_logs : LogRequest → ListenerConfig → List Read → B → Option B
  read_logs req cfg [] b = none
  read_logs req cfg (r ∷ reads) b = elim r.error [
    | some e ↦ some b
    | none ↦ read_logs req cfg reads (if r.bytes == "" then b else publish_log req cfg r.bytes b)
  ]

  ended_with : LogRequest → Sessions.State → Option B → Option (Sessions.State × B)
  ended_with req h none = none
  ended_with req h (some b) = some (Sessions.terminate (log_id req) h, b)

  -- `stream` is the opened stream, or the error of opening it. The session is deleted however the
  -- function ends.
  unfoldable pub stream_logs :
      LogRequest
      → ListenerConfig
      → Result (List Read)
      → Sessions.State
      → B
      → Option (Sessions.State × B)
  unfolding ended_with
  stream_logs req cfg stream h b = elim stream [
    | err e ↦ ended_with req h (some b)
    | ok reads ↦ ended_with req h (read_logs req cfg reads b)
  ]

  -- The loop over the terminal's output: what was read is published before the error is looked at.
  unfoldable pub read_output : String → List Read → B → Option B
  read_output id [] b = none
  read_output id (r ∷ reads) b =
      let b' = if r.bytes == "" then b else (publish id (exec_output_object r.bytes) b).1 in
      elim r.error [ some e ↦ some b' | none ↦ read_output id reads b' ]

-- What wakes awaitLogStreamStop.
pub data Wake : Type 0 where
  signal stop_closed done_closed : Wake

-- Whether it closes the stream: not if the session is gone when it starts.
unfoldable pub await_log_stream_stop : Option Bool → Wake → Bool
await_log_stream_stop none wake = false
await_log_stream_stop (some c) signal = true
await_log_stream_stop (some c) stop_closed = true
await_log_stream_stop (some c) done_closed = false
