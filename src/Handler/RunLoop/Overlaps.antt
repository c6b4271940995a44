-- ===== src/Handler/RunLoop/Overlaps.antt =====
-- What two overlapping restarts of the loop of Run (meshsync/handlers.go) come to.
use meshsync.Common.{
  ℕ, ◌+◌, ◌-◌, ◌<◌, ◌≡◌, ◌≢◌, refl, ap, sym, ◌∙◌, Bool, true, false, ◌&&◌, Option, some, none, List,
  [], ◌∷◌, arith, nat_eq, Bool-cases, inl, inr,
}
use mathlib.Core.Path.{subst}
use meshsync.Handler.RunLoop.Channels.{
  is_closed-close_if_open, run-IsTidy, start-IsTidy, return_blocked,
}
use meshsync.Handler.RunLoop.Single.{is_running}
use meshsync.Handler.RunLoop.Restarts.{
  closing, shutting, restarted, resync_timer, closing-shutting, goes_on, next_open, closes, reached,
  resync_live,
}
use meshsync.Handler.RunLoop.{
  Event, resync, timer, shutdown, restart, stop, State, is_closed, is_in, close_if_open, remove_one,
  reach_shutdown, has_ended, start_and_track_discovery, return_from, fire, step, run, at_start,
}

-- A channel that nothing closes any more, with a discovery that runs informers.
record IsLeaked (ch : ℕ) (h : State) : Type 0 where
  older : ch < h.current
  unclosed : is_closed ch h.closed ≡ false
  runs : is_in ch h.idle ≡ false
  forgotten : h.pending ≢ some ch

fire-IsLeaked :
    (ch : ℕ) (o : Option ℕ) (h : State) → o ≢ some ch → IsLeaked ch h → IsLeaked ch (fire o h)
unfolding fire
fire-IsLeaked ch none h other l = l
fire-IsLeaked ch (some c) h other l = record {
  older = l.older;
  unclosed =
      is_closed-close_if_open c ch h.closed
      ∙ ground (arith, l.unclosed, other, apart ch c (λ e. other (ap some (sym e))));
  runs = l.runs;
  forgotten = λ e. cc;
}
  where
    apart : (m n : ℕ) → m ≢ n → nat_eq m n ≡ false
    apart m n e = ground (arith, e)

start_and_track_discovery-IsLeaked :
    (ch : ℕ) (r : Bool) (waiting : List ℕ) (h : State)
    → IsLeaked ch h
    → IsLeaked ch (start_and_track_discovery r (record h { waiting = waiting }))
unfolding start_and_track_discovery
start_and_track_discovery-IsLeaked ch r waiting h l = record {
  older = ground (arith, l.older);
  unclosed = l.unclosed;
  runs = ground (arith, l.runs, l.older);
  forgotten = l.forgotten;
}

return_from-IsLeaked :
    (ch factory : ℕ) (r : Bool) (h : State) → IsLeaked ch h → IsLeaked ch (return_from factory r h)
unfolding return_from
return_from-IsLeaked ch factory r h l =
    elim (Bool-cases (is_in factory h.waiting && has_ended factory h)) [
      | inl on ↦ rw on (start_and_track_discovery-IsLeaked ch r (remove_one factory h.waiting) h l)
      | inr off ↦ rw off l
    ]

resync-IsLeaked : (ch : ℕ) (h : State) → IsLeaked ch h → IsLeaked ch (step resync h)
unfolding step
resync-IsLeaked ch h l = record {
  older = ground (arith, l.older);
  unclosed = ground (arith, l.unclosed);
  runs = ground (arith, l.runs);
  forgotten = λ e. ground (arith, l.older, l.forgotten);
}

shutdown-IsLeaked : (ch : ℕ) (h : State) → IsLeaked ch h → IsLeaked ch (step shutdown h)
unfolding step reach_shutdown
shutdown-IsLeaked ch h l = record {
  older = ground (arith, l.older);
  unclosed = ground (arith, l.unclosed);
  runs = ground (arith, l.runs);
  forgotten = λ e. ground (arith, l.forgotten);
}

stop-IsLeaked : (ch : ℕ) (h : State) → IsLeaked ch h → IsLeaked ch (step stop h)
unfolding step
stop-IsLeaked ch h l = record {
  older = ground (arith, l.older);
  unclosed = ground (arith, l.unclosed, l.older, is_closed-close_if_open h.current ch h.closed);
  runs = ground (arith, l.runs);
  forgotten = λ e. ground (arith, l.forgotten);
}

step-IsLeaked : (ch : ℕ) (e : Event) (h : State) → IsLeaked ch h → IsLeaked ch (step e h)
step-IsLeaked ch resync h l = resync-IsLeaked ch h l
step-IsLeaked ch timer h l = unfold step in fire-IsLeaked ch h.pending h l.forgotten l
step-IsLeaked ch shutdown h l = shutdown-IsLeaked ch h l
step-IsLeaked ch (restart factory r) h l = unfold step in return_from-IsLeaked ch factory r h l
step-IsLeaked ch stop h l = stop-IsLeaked ch h l

run-IsLeaked : (ch : ℕ) (es : List Event) (h : State) → IsLeaked ch h → IsLeaked ch (run es h)
run-IsLeaked ch [] h l = l
run-IsLeaked ch (e ∷ es) h l = run-IsLeaked ch es (step e h) (step-IsLeaked ch e h l)

-- Two calls that are both in the Shutdown of the same factory.
both_shutting : State → State
both_shutting h = record (closing (closing h)) {
  called = h.called;
  waiting = h.current ∷ h.current ∷ h.waiting;
}

both_called :
    (h : State)
    → h.stopped ≡ false
    → run (resync ∷ timer ∷ resync ∷ timer ∷ shutdown ∷ shutdown ∷ []) h ≡ both_shutting h
unfolding both_shutting closing shutting
both_called h live =
    ap (λ k. step shutdown (step shutdown (step timer (step resync k)))) (resync_timer h live)
    ∙ (ap (λ k. step shutdown (step shutdown k)) (resync_timer (closing h) live)
        ∙ (ap (step shutdown) (closing-shutting (closing h))
            ∙ (reached (shutting (closing (closing h))) (omega arith)
                ∙ ap
                    (λ n. record (closing (closing h)) {
                      called = n;
                      waiting = h.current ∷ h.current ∷ h.waiting;
                    })
                    (omega arith))))

both_return :
    (r : Bool) (h : State)
    → h.stopped ≡ false
    → run
        (resync
          ∷ timer
          ∷ resync
          ∷ timer
          ∷ shutdown
          ∷ shutdown
          ∷ restart h.current true
          ∷ restart h.current r
          ∷ [])
        h
      ≡ restarted r h.waiting (restarted true (h.current ∷ h.waiting) (both_shutting h))
both_return r h live =
    let c = h.current in
    let shut = closes c (close_if_open c h.closed) in
    ap (λ k. step (restart c r) (step (restart c true) k)) (both_called h live)
    ∙ (ap (step (restart c r)) (
          goes_on true (both_shutting h) c (c ∷ h.waiting) (unfold both_shutting in refl)
            (unfold both_shutting closing in shut))
        ∙ goes_on r (restarted true (c ∷ h.waiting) (both_shutting h)) c h.waiting
            (unfold restarted start_and_track_discovery in refl)
            (unfold restarted both_shutting closing start_and_track_discovery in shut))

both_return-IsLeaked :
    (at_first r : Bool) (es : List Event)
    → let h = run es (at_start at_first) in
      IsLeaked
        (h.current + 1)
        (restarted r h.waiting (restarted true (h.current ∷ h.waiting) (both_shutting h)))
unfolding restarted both_shutting closing start_and_track_discovery
both_return-IsLeaked at_first r es =
    let h = run es (at_start at_first) in
    let t = run-IsTidy es (at_start at_first) (start-IsTidy at_first) in
    record {
      older = omega arith;
      unclosed =
          is_closed-close_if_open h.current (h.current + 1) (close_if_open h.current h.closed)
          ∙ ground (arith, next_open at_first es);
      runs = ground (arith, t.idle_made (h.current + 1));
      forgotten = λ e. cc;
    }

-- In every state that the loop can reach, unless it is stopped: if two resyncs have their timers end,
-- and only then do both calls reach Shutdown, both return from the Shutdown of the same factory and
-- start a discovery. If the first of the two discoveries runs informers, its channel is
-- not the current one, and whatever happens later, a stop included, it is never closed, so that
-- these informers run beside those of the current discovery for ever.
pub overlapping_restarts_leak :
    (at_first r : Bool) (es later : List Event)
    → let h = run es (at_start at_first) in
      let both =
        resync
        ∷ timer
        ∷ resync
        ∷ timer
        ∷ shutdown
        ∷ shutdown
        ∷ restart h.current true
        ∷ restart h.current r
        ∷ [] in
      let k = run later (run both h) in
      h.stopped ≡ false
      → ((run both h).current ≡ h.current + 2)
        × (h.current + 1 < k.current)
        × (is_closed (h.current + 1) k.closed ≡ false)
        × (is_running (h.current + 1) k ≡ true)
overlapping_restarts_leak at_first r es later live =
    let h = run es (at_start at_first) in
    let leaked = run-IsLeaked (h.current + 1) later _ (
      subst (IsLeaked (h.current + 1)) (sym (both_return r h live))
        (both_return-IsLeaked at_first r es)) in
    (
      ap (λ (k : State). k.current) (both_return r h live)
          ∙ (unfold restarted both_shutting closing start_and_track_discovery in omega arith),
      leaked.older,
      leaked.unclosed,
      ground (arith, leaked.older, leaked.unclosed, leaked.runs),
    )

-- The second resync comes before the first call returns, and its timer ends afterwards.
late_call : State → State
late_call h = record (restarted true h.waiting (shutting (closing h))) {
  closed = close_if_open h.current (close_if_open h.current h.closed);
  called = h.called + 1 - 1 + 1 - 1;
  waiting = (h.current + 1) ∷ h.waiting;
}

asked_again :
    (h : State)
    → h.stopped ≡ false
    → run (resync ∷ timer ∷ shutdown ∷ resync ∷ restart h.current true ∷ []) h
      ≡ restarted true h.waiting (record (shutting (closing h)) { pending = some h.current })
asked_again h live =
    ap (λ k. step (restart h.current true) (step resync (step shutdown k))) (resync_timer h live)
    ∙ (ap (λ k. step (restart h.current true) (step resync k)) (closing-shutting h)
        ∙ (ap (step (restart h.current true))
              (resync_live (shutting (closing h)) (unfold shutting closing in live))
            ∙ (unfold shutting closing in
                goes_on true (record (shutting (closing h)) { pending = some h.current }) h.current
                  h.waiting refl (closes h.current h.closed))))

timer_again :
    (h : State)
    → step shutdown (
        step timer
          (restarted true h.waiting (record (shutting (closing h)) { pending = some h.current })))
      ≡ late_call h
unfolding restarted shutting closing start_and_track_discovery late_call step fire reach_shutdown
timer_again h = ground arith

-- In every state that the loop can reach, unless it is stopped: if a second resync comes before the
-- first restart has returned from Shutdown, and its timer ends after that restart, then the second
-- call waits in Shutdown of the factory of the discovery that the first one started, whose channel
-- is open, and it does not return from there in that state.
pub second_restart_waits :
    (at_first : Bool) (es : List Event) (runs : Bool)
    → let h = run es (at_start at_first) in
      let k =
        run
          (resync ∷ timer ∷ shutdown ∷ resync ∷ restart h.current true ∷ timer ∷ shutdown ∷ [])
          h in
      h.stopped ≡ false
      → (k.current ≡ h.current + 1)
        × (k.waiting ≡ k.current ∷ h.waiting)
        × (is_closed k.current k.closed ≡ false)
        × (step (restart k.current runs) k ≡ k)
second_restart_waits at_first es runs live =
    let h = run es (at_start at_first) in
    let t = run-IsTidy es (at_start at_first) (start-IsTidy at_first) in
    let unclosed : is_closed (h.current + 1)
          (close_if_open h.current (close_if_open h.current h.closed))
        ≡ false =
      is_closed-close_if_open h.current (h.current + 1) (close_if_open h.current h.closed)
      ∙ ground (arith, next_open at_first es) in
    subst
      (λ (k : State).
        (k.current ≡ h.current + 1)
        × (k.waiting ≡ k.current ∷ h.waiting)
        × (is_closed k.current k.closed ≡ false)
        × (step (restart k.current runs) k ≡ k))
      (sym (ap (λ k. step shutdown (step timer k)) (asked_again h live) ∙ timer_again h))
      (unfold late_call restarted shutting closing start_and_track_discovery in
        (
          refl,
          refl,
          unclosed,
          unfold step in
              return_blocked (h.current + 1) runs (late_call h) (
                unfold late_call restarted shutting closing start_and_track_discovery in
                ground (arith, unclosed, t.idle_made (h.current + 1))),
        ))
