-- ===== src/Handler/RunLoop/Single.antt =====
-- How many discoveries the loop of Run (meshsync/handlers.go) has at a time if its restarts do not
-- overlap.
use meshsync.Common.{
  ℕ, ◌<◌, ◌≡◌, ◌≢◌, refl, sym, ap, ◌∙◌, Bool, true, false, not, ◌||◌, ◌&&◌, Option, none, some,
  List, [], ◌∷◌, leb, ◌⊎◌, inl, inr, arith, Bool-cases,
}
use mathlib.Core.Path.{subst}
use meshsync.Handler.RunLoop.{
  Event, resync, timer, shutdown, restart, stop, State, is_closed, is_in, close_if_open, fire,
  reach_shutdown, remove_one, has_ended, start_and_track_discovery, return_from, step, run,
  at_start,
}
use meshsync.Handler.RunLoop.Channels.{
  IsTidy, is_closed-close_if_open, step-IsTidy, start-IsTidy, start_and_track_discovery-IsTidy,
  with_waiting, return_unwaited, return_blocked, return_goes_on, eq_or_not,
}

-- No timer ends while a call of the debounced function is under way.
abbrev pub NoOverlap : List Event → State → Type 0
NoOverlap [] h = Unit
NoOverlap (timer ∷ es) h = ((h.called ≡ 0) × (h.waiting ≡ [])) × NoOverlap es (step timer h)
NoOverlap (resync ∷ es) h = NoOverlap es (step resync h)
NoOverlap (shutdown ∷ es) h = NoOverlap es (step shutdown h)
NoOverlap (restart factory runs ∷ es) h = NoOverlap es (step (restart factory runs) h)
NoOverlap (stop ∷ es) h = NoOverlap es (step stop h)

-- Whether the discovery of a channel has informers that have not been told to end.
abbrev pub is_running : ℕ → State → Bool
is_running ch h = leb ch h.current && not (has_ended ch h)

-- The calls under way: none, one before Shutdown, or one in the Shutdown of the current factory.
abbrev AtMostOneCall : State → Type 0
AtMostOneCall h =
    ((h.called ≡ 0) × (h.waiting ≡ []))
    ⊎ (((h.called ≡ 1) × (h.waiting ≡ [])) ⊎ ((h.called ≡ 0) × (h.waiting ≡ h.current ∷ [])))

record IsSingle (h : State) : Type 0 where
  tidy : IsTidy h
  older : (ch : ℕ) → ch < h.current → has_ended ch h ≡ true
  calls : AtMostOneCall h

closes_more :
    (ch c : ℕ) (h : State)
    → has_ended c h ≡ true
    → (is_closed c (close_if_open ch h.closed) || is_in c h.idle) ≡ true
closes_more ch c h e = ground (arith, e, is_closed-close_if_open ch c h.closed)

fired-older :
    (o : Option ℕ) (h : State)
    → ((ch : ℕ) → ch < h.current → has_ended ch h ≡ true)
    → (ch : ℕ) → ch < (fire o h).current
    → has_ended ch (fire o h) ≡ true
unfolding fire
fired-older none h old ch less = old ch less
fired-older (some c) h old ch less = closes_more c ch h (old ch less)

fired-calls : (o : Option ℕ) (h : State) → h.called ≡ 0 → h.waiting ≡ [] → AtMostOneCall (fire o h)
unfolding fire
fired-calls none h c w = inl (c, w)
fired-calls (some ch) h c w = inr (inl (omega (arith, c), w))

not_called : (h : State) → h.called ≡ 0 → reach_shutdown h ≡ h
unfolding reach_shutdown
not_called h c = ground (arith, c)

called_once :
    (h : State)
    → h.called ≡ 1
    → h.waiting ≡ []
    → reach_shutdown h ≡ record h { called = 0; waiting = h.current ∷ [] }
unfolding reach_shutdown
called_once h c w = ground (arith, c, w)

reached : (h : State) → AtMostOneCall h → AtMostOneCall (reach_shutdown h)
reached h (inl (c, w)) = subst AtMostOneCall (sym (not_called h c)) (inl (c, w))
reached h (inr (inl (c, w))) =
    subst AtMostOneCall (sym (called_once h c w)) (inr (inr (refl, refl)))
reached h (inr (inr (c, w))) = subst AtMostOneCall (sym (not_called h c)) (inr (inr (c, w)))

reach_shutdown-older :
    (h : State)
    → ((ch : ℕ) → ch < h.current → has_ended ch h ≡ true)
    → (ch : ℕ) → ch < (reach_shutdown h).current
    → has_ended ch (reach_shutdown h) ≡ true
unfolding reach_shutdown
reach_shutdown-older h old ch less = ground (arith, old ch)

started_older :
    (runs : Bool) (h : State)
    → ((ch : ℕ) → ch < h.current → has_ended ch h ≡ true)
    → has_ended h.current h ≡ true
    → (ch : ℕ) → ch < (start_and_track_discovery runs (record h { waiting = [] })).current
    → has_ended ch (start_and_track_discovery runs (record h { waiting = [] })) ≡ true
unfolding start_and_track_discovery
started_older runs h old now ch less = ground (arith, old ch, now)

started_quiet :
    (runs : Bool) (h : State)
    → h.called ≡ 0
    → AtMostOneCall (start_and_track_discovery runs (record h { waiting = [] }))
unfolding start_and_track_discovery
started_quiet runs h c = inl (c, refl)

debounced : (h : State) → IsSingle h → IsSingle (record h { pending = some h.current })
debounced h s = record {
  tidy = record {
    newer = s.tidy.newer;
    idle_made = s.tidy.idle_made;
    captured = λ ch e. ground arith;
  };
  older = s.older;
  calls = s.calls;
}

timer-IsSingle : (h : State) → IsSingle h → h.called ≡ 0 → h.waiting ≡ [] → IsSingle (step timer h)
timer-IsSingle h s c w = record {
  tidy = step-IsTidy timer h s.tidy;
  older = unfold step in fired-older h.pending h s.older;
  calls = unfold step in fired-calls h.pending h c w;
}

shutdown-IsSingle : (h : State) → IsSingle h → IsSingle (step shutdown h)
shutdown-IsSingle h s = record {
  tidy = step-IsTidy shutdown h s.tidy;
  older = unfold step in reach_shutdown-older h s.older;
  calls = unfold step in reached h s.calls;
}

stop_older :
    (h : State)
    → ((ch : ℕ) → ch < h.current → has_ended ch h ≡ true)
    → (ch : ℕ) → ch < (step stop h).current
    → has_ended ch (step stop h) ≡ true
unfolding step
stop_older h old ch less = ground (arith, old ch, closes_more h.current ch h)

stop_calls : (h : State) → AtMostOneCall h → AtMostOneCall (step stop h)
unfolding step
stop_calls h c = elim (Bool-cases h.stopped) [ inl e ↦ rw e c | inr e ↦ rw e c ]

alone : (n : ℕ) → remove_one n (n ∷ []) ≡ []
unfolding remove_one
alone n = ground arith

returned_current :
    (runs : Bool) (h : State)
    → h.waiting ≡ h.current ∷ []
    → has_ended h.current h ≡ true
    → return_from h.current runs h ≡ start_and_track_discovery runs (record h { waiting = [] })
returned_current runs h w ended =
    return_goes_on h.current runs h (ground (arith, w)) ended
    ∙ ap (λ ws. start_and_track_discovery runs (record h { waiting = ws }))
        (ap (remove_one h.current) w ∙ alone h.current)

started_alone :
    (runs : Bool) (h : State)
    → IsSingle h
    → h.called ≡ 0
    → has_ended h.current h ≡ true
    → IsSingle (start_and_track_discovery runs (record h { waiting = [] }))
started_alone runs h s c ended = record {
  tidy =
      start_and_track_discovery-IsTidy runs (record h { waiting = [] }) (with_waiting [] h s.tidy);
  older = started_older runs h s.older ended;
  calls = started_quiet runs h c;
}

waits-IsSingle :
    (factory : ℕ) (runs : Bool) (h : State)
    → IsSingle h
    → h.called ≡ 0
    → h.waiting ≡ h.current ∷ []
    → IsSingle (return_from factory runs h)
waits-IsSingle factory runs h s c w = elim (eq_or_not factory h.current) [
  | inr other ↦ subst IsSingle (sym (return_unwaited factory runs h (ground (arith, w, other)))) s
  | inl same ↦
      subst (λ f. IsSingle (return_from f runs h)) (sym same)
        (elim (Bool-cases (has_ended h.current h)) [
          | inl ended ↦
              subst IsSingle (sym (returned_current runs h w ended))
                (started_alone runs h s c ended)
          | inr running ↦ subst IsSingle (sym (return_blocked h.current runs h running)) s
        ])
]

return_from-IsSingle :
    (factory : ℕ) (runs : Bool) (h : State)
    → IsSingle h
    → AtMostOneCall h
    → IsSingle (return_from factory runs h)
return_from-IsSingle factory runs h s (inl (c, w)) =
    subst IsSingle (sym (return_unwaited factory runs h (rw w refl))) s
return_from-IsSingle factory runs h s (inr (inl (c, w))) =
    subst IsSingle (sym (return_unwaited factory runs h (rw w refl))) s
return_from-IsSingle factory runs h s (inr (inr (c, w))) = waits-IsSingle factory runs h s c w

resync-IsSingle : (h : State) → IsSingle h → IsSingle (step resync h)
unfolding step
resync-IsSingle h s = elim (Bool-cases h.stopped) [
  | inl stops ↦ subst IsSingle (ground (arith, stops)) s
  | inr live ↦ subst IsSingle (ground (arith, live)) (debounced h s)
]

stop-IsSingle : (h : State) → IsSingle h → IsSingle (step stop h)
stop-IsSingle h s = record {
  tidy = step-IsTidy stop h s.tidy;
  older = stop_older h s.older;
  calls = stop_calls h s.calls;
}

restart-IsSingle :
    (factory : ℕ) (runs : Bool) (h : State) → IsSingle h → IsSingle (step (restart factory runs) h)
unfolding step
restart-IsSingle factory runs h s = return_from-IsSingle factory runs h s s.calls

run-is_running :
    (es : List Event) (h : State) (ch : ℕ)
    → IsSingle h
    → NoOverlap es h
    → ch ≢ (run es h).current
    → is_running ch (run es h) ≡ false
run-is_running [] h ch s n other = ground (arith, s.older ch, other)
run-is_running (timer ∷ es) h ch s n other =
    run-is_running es (step timer h) ch (timer-IsSingle h s n.0.0 n.0.1) n.1 other
run-is_running (resync ∷ es) h ch s n other =
    run-is_running es (step resync h) ch (resync-IsSingle h s) n other
run-is_running (shutdown ∷ es) h ch s n other =
    run-is_running es (step shutdown h) ch (shutdown-IsSingle h s) n other
run-is_running (restart factory runs ∷ es) h ch s n other =
    run-is_running es (step (restart factory runs) h) ch (restart-IsSingle factory runs h s) n other
run-is_running (stop ∷ es) h ch s n other =
    run-is_running es (step stop h) ch (stop-IsSingle h s) n other

start-IsSingle : (runs : Bool) → IsSingle (at_start runs)
unfolding at_start
start-IsSingle runs = record {
  tidy = start-IsTidy runs;
  older = λ ch less. ground (arith, less);
  calls = inl (refl, refl);
}

-- If no debounce timer ends while a call of the debounced function is under way, then whatever
-- else happens in whatever order, only the current discovery has informers that have not been told
-- to end: every older channel is closed, or its discovery runs no informers.
pub one_discovery_runs :
    (runs : Bool) (es : List Event) (ch : ℕ)
    → NoOverlap es (at_start runs)
    → ch ≢ (run es (at_start runs)).current
    → is_running ch (run es (at_start runs)) ≡ false
one_discovery_runs runs es ch n other =
    run-is_running es (at_start runs) ch (start-IsSingle runs) n other
