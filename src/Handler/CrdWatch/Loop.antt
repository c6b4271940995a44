-- ===== src/Handler/CrdWatch/Loop.antt =====
-- WatchCRDs and watchCRDsIteration of meshsync/handlers.go: a watch after another one until the stop
-- channel is closed. `handle` is handleCRDEvent on the state of the handler.
use meshsync.Common.{
  ℕ, ◌≡◌, refl, ap, ◌∙◌, sym, Bool, true, false, Option, none, some, List, [], ◌∷◌, ◌++◌, All, map,
}
use mathlib.Core.List.{append-nil}
use meshsync.Errors.{Error, Result, ok, err}
use meshsync.Handler.Backoff.{Iteration, after_iteration, delays}

-- What the select of an iteration receives: the stop, the end of the watch, or an event.
pub data Item (E : Type 0) : Type 0 where
  stop_closed watch_closed : Item E
  event : E → Item E

-- A turn of the loop of WatchCRDs: the watch that was created, or the error of creating it; how
-- long the iteration lasted; the random number of the wait; and whether the stop channel is closed
-- before the wait is over.
pub record Round (E : Type 0) : Type 0 where
  pub watch : Result (List (Item E))
  pub lasted : ℕ
  pub draw : ℕ → ℕ
  pub stopped : Bool

module _ {E : Type 0} where
  -- The events that arrive before the stop or the end of the watch.
  abbrev pub delivered : List (Item E) → List E
  delivered [] = []
  delivered (event e ∷ items) = e ∷ delivered items
  delivered (i ∷ items) = []

  abbrev pub events_of : Result (List (Item E)) → List E
  events_of (err e) = []
  events_of (ok items) = delivered items

  -- The watch ends, or the stop channel is closed.
  abbrev pub ends : List (Item E) → Bool
  ends [] = false
  ends (event e ∷ items) = ends items
  ends (i ∷ items) = true

  abbrev pub round_ends : Result (List (Item E)) → Bool
  round_ends (err e) = true
  round_ends (ok items) = ends items

  abbrev pub error_of : Result (List (Item E)) → Option Error
  error_of (err e) = some e
  error_of (ok items) = none

  -- The rounds as the iterations that the waits are computed from.
  abbrev pub iterations : List (Round E) → List Iteration
  iterations = map λ r. record { error = error_of r.watch; lasted = r.lasted; draw = r.draw }

  abbrev pub all_events : List (Round E) → List E
  all_events [] = []
  all_events (r ∷ rounds) = events_of r.watch ++ all_events rounds

module _ {E S : Type 0} (handle : E → S → S) where
  -- The loop of watchCRDsIteration, none while it waits.
  unfoldable pub watch_items : List (Item E) → S → Option S
  watch_items [] h = none
  watch_items (stop_closed ∷ items) h = some h
  watch_items (watch_closed ∷ items) h = some h
  watch_items (event e ∷ items) h = watch_items items (handle e h)

  without_error : Option S → Option (Option Error × S)
  without_error none = none
  without_error (some h) = some (none, h)

  unfoldable pub watch_crds_iteration : Result (List (Item E)) → S → Option (Option Error × S)
  unfolding without_error
  watch_crds_iteration (err e) h = some (some e, h)
  watch_crds_iteration (ok items) h = without_error (watch_items items h)

  add_wait : ℕ → Option (List ℕ × S) → Option (List ℕ × S)
  add_wait delay none = none
  add_wait delay (some (waits, last)) = some (delay ∷ waits, last)

  stop_or_go : Bool → ℕ → S → Option (List ℕ × S) → Option (List ℕ × S)
  unfolding add_wait
  stop_or_go true delay h later = some (delay ∷ [], h)
  stop_or_go false delay h later = add_wait delay later

  after_round :
      Option (Option Error × S) → Round E → ℕ → (ℕ → S → Option (List ℕ × S)) → Option (List ℕ × S)
  unfolding stop_or_go
  after_round none r backoff go_on = none
  after_round (some (e, h)) r backoff go_on =
      let (delay, next) =
        after_iteration backoff (record { error = e; lasted = r.lasted; draw = r.draw }) in
      stop_or_go r.stopped delay h (go_on next h)

  -- The state at the end, and the waits, none while the loop goes on.
  unfoldable pub watch_crds : ℕ → List (Round E) → S → Option (List ℕ × S)
  unfolding after_round
  watch_crds backoff [] h = none
  watch_crds backoff (r ∷ rounds) h =
      after_round (watch_crds_iteration r.watch h) r backoff (λ next k. watch_crds next rounds k)

  abbrev pub handle_all : List E → S → S
  handle_all [] h = h
  handle_all (e ∷ es) h = handle_all es (handle e h)

  watch_items-all :
      (items : List (Item E)) (h : S)
      → ends items ≡ true
      → watch_items items h ≡ some (handle_all (delivered items) h)
  unfolding watch_items
  watch_items-all [] h e = absurd (no e)
    where
      no : false ≡ true → ⊥
      no e = cc
  watch_items-all (stop_closed ∷ items) h e = refl
  watch_items-all (watch_closed ∷ items) h e = refl
  watch_items-all (event x ∷ items) h e = watch_items-all items (handle x h) e

  iteration-all :
      (watch : Result (List (Item E))) (h : S)
      → round_ends watch ≡ true
      → watch_crds_iteration watch h ≡ some (error_of watch, handle_all (events_of watch) h)
  unfolding watch_crds_iteration without_error
  iteration-all (err e) h k = refl
  iteration-all (ok items) h k = ap without_error (watch_items-all items h k)

  pub handle_all-append :
      (es fs : List E) (h : S) → handle_all (es ++ fs) h ≡ handle_all fs (handle_all es h)
  handle_all-append [] fs h = refl
  handle_all-append (e ∷ es) fs h = handle_all-append es fs (handle e h)

  -- The watch goes on until a round finds the stop channel closed: if each round ends, however it
  -- does, the events of all rounds have been handled once each in the order in which they came,
  -- whether or not watches failed or were closed in between, and the waits are those that the
  -- backoff gives for the rounds.
  pub watch_crds_handles_events :
      (backoff : ℕ) (before : List (Round E)) (r : Round E) (rest : List (Round E)) (h : S)
      → All (λ b. (round_ends b.watch ≡ true) × (b.stopped ≡ false)) before
      → round_ends r.watch ≡ true
      → r.stopped ≡ true
      → watch_crds backoff (before ++ r ∷ rest) h
        ≡ some (
          delays backoff (iterations (before ++ r ∷ [])),
          handle_all (all_events (before ++ r ∷ [])) h,
        )
  unfolding watch_crds delays after_round stop_or_go add_wait
  watch_crds_handles_events backoff [] r rest h going ends_r stopped =
      ap (λ o. after_round o r backoff (λ next k. watch_crds next rest k))
        (iteration-all r.watch h ends_r)
      ∙ rw stopped (
          ap (λ es. some (delays backoff (iterations (r ∷ [])), handle_all es h))
            (sym (append-nil (events_of r.watch))))
  watch_crds_handles_events backoff (b ∷ before) r rest h going ends_r stopped =
      let iteration : Iteration = record {
        error = error_of b.watch;
        lasted = b.lasted;
        draw = b.draw;
      } in
      let (delay, next) = after_iteration backoff iteration in
      let later =
        watch_crds_handles_events next before r rest (handle_all (events_of b.watch) h) going.1
          ends_r stopped in
      ap (λ o. after_round o b backoff (λ n k. watch_crds n (before ++ r ∷ rest) k))
        (iteration-all b.watch h going.0.0)
      ∙ rw (going.0.1) (
          ap (add_wait delay) later
          ∙ ap (λ k. some (delay ∷ delays next (iterations (before ++ r ∷ [])), k))
              (sym (handle_all-append (events_of b.watch) (all_events (before ++ r ∷ [])) h)))
