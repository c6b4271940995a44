-- ===== src/Handler/Streams/Texts.antt =====
-- What of a log and of a terminal's output is published (meshsync/logstream.go, meshsync/exec.go).
use meshsync.Common.{
  String, ◌≡◌, ◌≢◌, ap, not, Option, none, some, List, [], ◌∷◌, ◌++◌, arith, map, keep, All, ◌==◌,
  Bool-cases, inl, inr,
}
use meshsync.Errors.{Error, ok}
use meshsync.Config.{ListenerConfig}
use meshsync.Handler.Sessions
use meshsync.Handler.Sessions.{LogRequest, log_id}
use meshsync.Handler.Streams.{
  Read, Published, exec_output_object, publish_log, read_logs, ended_with, stream_logs, read_output,
}

-- The texts of the reads, without the empty ones.
abbrev pub texts : List Read → List String
texts reads = keep (λ t. not (t == "")) (map (λ r. r.bytes) reads)

-- No read of the list has an error.
abbrev pub Fine : List Read → Type 0
Fine = All (λ r. r.error ≡ none)

-- Calls that only change the broker, for each text in order.
abbrev pub each : {B : Type 0} → (String → B → B) → List String → B → B
each f [] b = b
each f (t ∷ ts) b = each f ts (f t b)

module _ {B : Type 0} (publish : String → Published → B → Option Error × B) where
  read_logs-failed :
      (req : LogRequest) (cfg : ListenerConfig) (r : Read) (rest : List Read) (b : B)
      → r.error ≢ none
      → read_logs publish req cfg (r ∷ rest) b ≡ some b
  unfolding read_logs
  read_logs-failed req cfg r rest b failed = ground (arith, failed)

  read_logs_until_error :
      (req : LogRequest) (cfg : ListenerConfig) (before : List Read) (r : Read) (rest : List Read)
      (b : B)
      → Fine before
      → r.error ≢ none
      → read_logs publish req cfg (before ++ r ∷ rest) b
        ≡ some (each (publish_log publish req cfg) (texts before) b)
  unfolding read_logs
  read_logs_until_error req cfg [] r rest b fine failed = read_logs-failed req cfg r rest b failed
  read_logs_until_error req cfg (s ∷ before) r rest b fine failed =
      elim (Bool-cases (s.bytes == "")) [
        | inl empty ↦
            rw (fine.0, empty) (read_logs_until_error req cfg before r rest b fine.1 failed)
        | inr more ↦
            rw (fine.0, more)
              (read_logs_until_error req cfg before r rest (publish_log publish req cfg s.bytes b)
                fine.1 failed)
      ]

  -- A log stream that was opened ends at the first read with an error, of end of file or another
  -- one: the texts of the reads before it have been published in order, the empty ones left out,
  -- the bytes that came with the error have not, and the session is deleted.
  pub log_stream_published :
      (req : LogRequest) (cfg : ListenerConfig) (before : List Read) (r : Read) (rest : List Read)
      (h : Sessions.State) (b : B)
      → Fine before
      → r.error ≢ none
      → stream_logs publish req cfg (ok (before ++ r ∷ rest)) h b
        ≡ some
            (Sessions.terminate (log_id req) h, each (publish_log publish req cfg) (texts before) b)
  unfolding stream_logs ended_with
  log_stream_published req cfg before r rest h b fine failed =
      ap (ended_with publish req h) (read_logs_until_error req cfg before r rest b fine failed)

  abbrev pub publish_output : String → String → B → B
  publish_output id text b = (publish id (exec_output_object text) b).1

  -- The output of a terminal is read up to the first read with an error, and all that was read is
  -- published in order, the bytes that came with the error too.
  pub exec_output_published :
      (id : String) (before : List Read) (r : Read) (rest : List Read) (b : B)
      → Fine before
      → r.error ≢ none
      → read_output publish id (before ++ r ∷ rest) b
        ≡ some (each (publish_output id) (texts (before ++ r ∷ [])) b)
  unfolding read_output
  exec_output_published id [] r rest b fine failed = ground (arith, failed)
  exec_output_published id (s ∷ before) r rest b fine failed = elim (Bool-cases (s.bytes == "")) [
    | inl empty ↦ rw (fine.0, empty) (exec_output_published id before r rest b fine.1 failed)
    | inr more ↦
        rw (fine.0, more)
          (exec_output_published id before r rest (publish_output id s.bytes b) fine.1 failed)
  ]
