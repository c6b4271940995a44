-- ===== src/Handler/RunLoop/Restarts.antt =====
-- What the restarts of the loop of Run (meshsync/handlers.go) come to.
use meshsync.Common.{
  ℕ, ◌+◌, ◌-◌, ◌<◌, ◌≡◌, refl, ap, sym, ◌∙◌, Bool, true, false, some, none, List, [], ◌∷◌, arith,
}
use mathlib.Core.Path.{subst}
use meshsync.Handler.RunLoop.Channels.{
  is_closed-close_if_open, run-IsTidy, start-IsTidy, return_goes_on,
}
use meshsync.Handler.RunLoop.{
  Event, resync, timer, shutdown, restart, stop, State, is_closed, close_if_open, remove_one,
  reach_shutdown, start_and_track_discovery, fire, step, run, at_start,
}

pub resync_live :
    (h : State) → h.stopped ≡ false → step resync h ≡ record h { pending = some h.current }
unfolding step
resync_live h live = ground arith

pub closes : (ch : ℕ) (closed : List ℕ) → is_closed ch (close_if_open ch closed) ≡ true
closes ch closed = is_closed-close_if_open ch ch closed ∙ ground arith

pub reached :
    (h : State)
    → 0 < h.called
    → step shutdown h ≡ record h { called = h.called - 1; waiting = h.current ∷ h.waiting }
unfolding step reach_shutdown
reached h some_call = ground arith

first_removed : (n : ℕ) (ns : List ℕ) → remove_one n (n ∷ ns) ≡ ns
unfolding remove_one
first_removed n ns = ground arith

-- What the end of a timer set at the current channel comes to.
unfoldable pub closing : State → State
closing h = record h {
  closed = close_if_open h.current h.closed;
  pending = none;
  called = h.called + 1;
}

-- And what the call comes to when it reaches Shutdown.
unfoldable pub shutting : State → State
shutting h = record h { called = h.called - 1; waiting = h.current ∷ h.waiting }

-- And when the Shutdown returns.
unfoldable pub restarted : Bool → List ℕ → State → State
unfolding start_and_track_discovery
restarted runs waiting h = start_and_track_discovery runs (record h { waiting = waiting })

timer_at_current : (h : State) → step timer (record h { pending = some h.current }) ≡ closing h
unfolding closing step fire
timer_at_current h = refl

pub resync_timer : (h : State) → h.stopped ≡ false → step timer (step resync h) ≡ closing h
resync_timer h live = ap (step timer) (resync_live h live) ∙ timer_at_current h

pub closing-shutting : (h : State) → step shutdown (closing h) ≡ shutting (closing h)
unfolding closing shutting
closing-shutting h = reached (closing h) (unfold closing in omega arith)

pub goes_on :
    (runs : Bool) (h : State) (factory : ℕ) (rest : List ℕ)
    → h.waiting ≡ factory ∷ rest
    → is_closed factory h.closed ≡ true
    → step (restart factory runs) h ≡ restarted runs rest h
unfolding step restarted
goes_on runs h factory rest waits closed =
    return_goes_on factory runs h (ground (arith, waits)) (ground (arith, closed))
    ∙ ap (λ ws. start_and_track_discovery runs (record h { waiting = ws }))
        (ap (remove_one factory) waits ∙ first_removed factory rest)

run-restarted :
    (runs : Bool) (h : State)
    → h.stopped ≡ false
    → run (resync ∷ timer ∷ shutdown ∷ restart h.current runs ∷ []) h
      ≡ restarted runs h.waiting (shutting (closing h))
run-restarted runs h live =
    ap (λ k. step (restart h.current runs) (step shutdown k)) (resync_timer h live)
    ∙ (ap (step (restart h.current runs)) (closing-shutting h)
        ∙ goes_on runs (shutting (closing h)) h.current h.waiting (unfold shutting closing in refl)
            (unfold shutting closing in closes h.current h.closed))

pub next_open :
    (runs : Bool) (es : List Event)
    → let h = run es (at_start runs) in
      is_closed (h.current + 1) (close_if_open h.current h.closed) ≡ false
next_open runs es =
    let h = run es (at_start runs) in
    let t = run-IsTidy es (at_start runs) (start-IsTidy runs) in
    is_closed-close_if_open h.current (h.current + 1) h.closed
    ∙ ground (arith, t.newer (h.current + 1))

-- In every state that the loop can reach, unless it is stopped, a resync, the end of its timer, and
-- the call and the return of Shutdown close the current channel and start a discovery on the next
-- one, which is open, and leave as many calls under way as there were.
pub resync_restarts :
    (at_first : Bool) (es : List Event) (runs : Bool)
    → let h = run es (at_start at_first) in
      let k = run (resync ∷ timer ∷ shutdown ∷ restart h.current runs ∷ []) h in
      h.stopped ≡ false
      → (k.current ≡ h.current + 1)
        × (is_closed h.current k.closed ≡ true)
        × (is_closed k.current k.closed ≡ false)
        × (k.called ≡ h.called)
        × (k.waiting ≡ h.waiting)
resync_restarts at_first es runs live =
    let h = run es (at_start at_first) in
    subst
      (λ (k : State).
        (k.current ≡ h.current + 1)
        × (is_closed h.current k.closed ≡ true)
        × (is_closed k.current k.closed ≡ false)
        × (k.called ≡ h.called)
        × (k.waiting ≡ h.waiting))
      (sym (run-restarted runs h live))
      (unfold restarted shutting closing start_and_track_discovery in
        (refl, closes h.current h.closed, next_open at_first es, omega arith, refl))

stopped_by : State → State
stopped_by h = record h { stopped = true; closed = close_if_open h.current h.closed }

stop_live : (h : State) → h.stopped ≡ false → step stop h ≡ stopped_by h
unfolding step stopped_by
stop_live h live = ground arith

timer_after_stop :
    (h : State)
    → step timer (stopped_by (record h { pending = some h.current })) ≡ closing (stopped_by h)
unfolding closing stopped_by step fire
timer_after_stop h = refl

late :
    (runs : Bool) (h : State)
    → h.stopped ≡ false
    → run (resync ∷ stop ∷ timer ∷ shutdown ∷ restart h.current runs ∷ []) h
      ≡ restarted runs h.waiting (shutting (closing (stopped_by h)))
late runs h live =
    ap (λ k. step (restart h.current runs) (step shutdown (step timer (step stop k))))
      (resync_live h live)
    ∙ (ap (λ k. step (restart h.current runs) (step shutdown (step timer k)))
          (stop_live (record h { pending = some h.current }) live)
        ∙ (ap (λ k. step (restart h.current runs) (step shutdown k)) (timer_after_stop h)
            ∙ (ap (step (restart h.current runs)) (closing-shutting (stopped_by h))
                ∙ goes_on runs (shutting (closing (stopped_by h))) h.current h.waiting
                    (unfold shutting closing stopped_by in refl)
                    (unfold shutting closing stopped_by in
                      closes h.current (close_if_open h.current h.closed)))))

-- If a resync is followed by a stop before the end of its timer, the timer still restarts the
-- discovery after the loop has ended, and the channel of that discovery stays open.
pub restart_outlives_stop :
    (at_first : Bool) (es : List Event) (runs : Bool)
    → let h = run es (at_start at_first) in
      let k = run (resync ∷ stop ∷ timer ∷ shutdown ∷ restart h.current runs ∷ []) h in
      h.stopped ≡ false
      → (k.stopped ≡ true) × (k.current ≡ h.current + 1) × (is_closed k.current k.closed ≡ false)
restart_outlives_stop at_first es runs live =
    let h = run es (at_start at_first) in
    subst
      (λ (k : State).
        (k.stopped ≡ true) × (k.current ≡ h.current + 1) × (is_closed k.current k.closed ≡ false))
      (sym (late runs h live))
      (unfold restarted shutting closing stopped_by start_and_track_discovery in
        (
          refl,
          refl,
          is_closed-close_if_open h.current (h.current + 1) (close_if_open h.current h.closed)
              ∙ ground (arith, next_open at_first es),
        ))
