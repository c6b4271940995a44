-- ===== src/Handler/RunLoop/Channels.antt =====
-- Which channels are open in the loop of Run (meshsync/handlers.go).
use meshsync.Common.{
  ℕ, ◌<◌, ◌≤◌, ◌≡◌, refl, Bool, true, false, ◌||◌, ◌&&◌, Option, none, some, List, [], ◌∷◌, nat_eq,
  ◌⊎◌, inl, inr, arith, Bool-cases,
}
use meshsync.Handler.RunLoop.{
  Event, resync, timer, shutdown, restart, stop, State, is_closed, is_in, close_if_open, fire,
  reach_shutdown, remove_one, has_ended, start_and_track_discovery, return_from, step, run,
  at_start,
}

-- No channel that is not made yet is closed or idle, and the timer holds none.
pub record IsTidy (h : State) : Type 0 where
  pub newer : (ch : ℕ) → h.current < ch → is_closed ch h.closed ≡ false
  pub idle_made : (ch : ℕ) → h.current < ch → is_in ch h.idle ≡ false
  pub captured : (ch : ℕ) → h.pending ≡ some ch → ch ≤ h.current

pub eq_or_not : (m n : ℕ) → (m ≡ n) ⊎ (nat_eq m n ≡ false)
eq_or_not m n = ground arith

pub is_closed-close_if_open :
    (ch c : ℕ) (closed : List ℕ)
    → is_closed c (close_if_open ch closed) ≡ (nat_eq c ch || is_closed c closed)
unfolding close_if_open
is_closed-close_if_open ch c closed = elim (eq_or_not c ch) [
  | inl same ↦ rw same (ground arith)
  | inr other ↦ ground (arith, other)
]

fire-IsTidy :
    (o : Option ℕ) (h : State)
    → ((ch : ℕ) → o ≡ some ch → ch ≤ h.current)
    → IsTidy h
    → IsTidy (fire o h)
unfolding fire
fire-IsTidy none h old t = t
fire-IsTidy (some ch) h old t = record {
  newer = λ c less. ground (arith, old ch refl, t.newer c, is_closed-close_if_open ch c h.closed);
  idle_made = t.idle_made;
  captured = λ c e. ground arith;
}

pub start_and_track_discovery-IsTidy :
    (runs : Bool) (h : State) → IsTidy h → IsTidy (start_and_track_discovery runs h)
unfolding start_and_track_discovery
start_and_track_discovery-IsTidy runs h t = record {
  newer = λ ch less. ground (arith, t.newer ch);
  idle_made = λ ch less. ground (arith, t.idle_made ch);
  captured = λ ch e. ground (arith, t.captured ch);
}

pub with_waiting :
    (waiting : List ℕ) (h : State) → IsTidy h → IsTidy (record h { waiting = waiting })
with_waiting waiting h t = record {
  newer = t.newer;
  idle_made = t.idle_made;
  captured = t.captured;
}

return_from-IsTidy :
    (factory : ℕ) (runs : Bool) (h : State) → IsTidy h → IsTidy (return_from factory runs h)
unfolding return_from
return_from-IsTidy factory runs h t =
    elim (Bool-cases (is_in factory h.waiting && has_ended factory h)) [
      | inl on ↦ rw on (
          start_and_track_discovery-IsTidy runs
            (record h { waiting = remove_one factory h.waiting })
            (with_waiting (remove_one factory h.waiting) h t))
      | inr off ↦ rw off t
    ]

pub step-IsTidy : (e : Event) (h : State) → IsTidy h → IsTidy (step e h)
unfolding step reach_shutdown
step-IsTidy resync h t = record {
  newer = λ ch less. ground (arith, t.newer ch);
  idle_made = λ ch less. ground (arith, t.idle_made ch);
  captured = λ ch e. ground (arith, t.captured ch);
}
step-IsTidy timer h t = fire-IsTidy h.pending h t.captured t
step-IsTidy shutdown h t = record {
  newer = λ ch less. ground (arith, t.newer ch);
  idle_made = λ ch less. ground (arith, t.idle_made ch);
  captured = λ ch e. ground (arith, t.captured ch);
}
step-IsTidy (restart factory runs) h t = return_from-IsTidy factory runs h t
step-IsTidy stop h t = record {
  newer = λ ch less. ground (arith, t.newer ch, is_closed-close_if_open h.current ch h.closed);
  idle_made = λ ch less. ground (arith, t.idle_made ch);
  captured = λ ch e. ground (arith, t.captured ch);
}

pub run-IsTidy : (es : List Event) (h : State) → IsTidy h → IsTidy (run es h)
run-IsTidy [] h t = t
run-IsTidy (e ∷ es) h t = run-IsTidy es (step e h) (step-IsTidy e h t)

pub start-IsTidy : (runs : Bool) → IsTidy (at_start runs)
unfolding at_start
start-IsTidy runs = record {
  newer = λ ch less. ground arith;
  idle_made = λ ch less. ground arith;
  captured = λ ch e. ground arith;
}

-- A Shutdown that nobody waits for, or whose informers run, does not return.
pub return_unwaited :
    (factory : ℕ) (runs : Bool) (h : State)
    → is_in factory h.waiting ≡ false
    → return_from factory runs h ≡ h
unfolding return_from
return_unwaited factory runs h e = rw e refl

pub return_blocked :
    (factory : ℕ) (runs : Bool) (h : State)
    → has_ended factory h ≡ false
    → return_from factory runs h ≡ h
unfolding return_from
return_blocked factory runs h e = ground (arith, e)

pub return_goes_on :
    (factory : ℕ) (runs : Bool) (h : State)
    → is_in factory h.waiting ≡ true
    → has_ended factory h ≡ true
    → return_from factory runs h
      ≡ start_and_track_discovery runs (record h { waiting = remove_one factory h.waiting })
unfolding return_from
return_goes_on factory runs h waits ended = rw (waits, ended) refl
