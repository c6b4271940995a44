-- ===== src/Handler/CrdWatch/Reconnect.antt =====
-- A CRD watch that is closed and established again and again (meshsync/handlers.go).
use meshsync.Common.{
  ℕ, String, ◌≡◌, refl, ap, ◌∙◌, true, false, Option, none, some, List, [], ◌∷◌, ◌++◌, All,
  All-mono,
}
use mathlib.Core.List.{append-nil}
use meshsync.Common.Dict.{Dict}
use meshsync.Errors.{Error, Result, ok}
use meshsync.Config.{PipelineConfigs}
use meshsync.Pipeline.Steps.{GroupVersionResource}
use meshsync.Handler.Backoff.{delays}
use meshsync.Handler.CrdWatch.{State, Crd, added}
use meshsync.Handler.CrdWatch.Relist.{handle, list_all, relist_changes_nothing}
use meshsync.Handler.CrdWatch.Loop.{
  Item, watch_closed, event, Round, watch_crds, delivered, events_of, round_ends, ends, iterations,
  all_events, handle_all, handle_all-append, watch_crds_handles_events,
}

-- The items of a watch that lists these objects and is closed then.
abbrev pub listing : {O : Type 0} → List O → List (Item (String × Option O))
listing [] = watch_closed ∷ []
listing (o ∷ os) = event (added, some o) ∷ listing os

listing-ends : {O : Type 0} (os : List O) → ends (listing os) ≡ true
listing-ends [] = refl
listing-ends (o ∷ os) = listing-ends os

module _ {S O : Type 0} (get_object : S → Result (Dict PipelineConfigs))
    (set_object : S → Dict PipelineConfigs → Option Error × S)
    (never_fails : (s : S) (m : Dict PipelineConfigs) → (set_object s m).0 ≡ none)
    (reads_back : (s : S) (m : Dict PipelineConfigs) → get_object (set_object s m).1 ≡ ok m)
    (marshal : O → Result String) (unmarshal : String → Result Crd)
    (get_gvr : Crd → Option GroupVersionResource) where
  abbrev pub on_event : String × Option O → State S → State S
  on_event = handle get_object set_object never_fails reads_back marshal unmarshal get_gvr

  abbrev pub relist : List O → State S → State S
  relist = list_all get_object set_object never_fails reads_back marshal unmarshal get_gvr

  listing-relist :
      (os : List O) (h : State S) → handle_all on_event (delivered (listing os)) h ≡ relist os h
  listing-relist [] h = refl
  listing-relist (o ∷ os) h = listing-relist os (on_event (added, some o) h)

  round-relist :
      (os : List O) (r : Round (String × Option O)) (h : State S)
      → r.watch ≡ ok (listing os)
      → handle_all on_event (events_of r.watch) h ≡ relist os h
  round-relist os r h lists =
      ap (λ w. handle_all on_event (events_of w) h) lists ∙ listing-relist os h

  rounds-relist :
      (os : List O) (before : List (Round (String × Option O))) (r : Round (String × Option O))
      (h : State S)
      → All (λ b. (b.watch ≡ ok (listing os)) × (b.stopped ≡ false)) before
      → r.watch ≡ ok (listing os)
      → handle_all on_event (all_events (before ++ r ∷ [])) h ≡ relist os h
  rounds-relist os [] r h all_list lists =
      ap (λ es. handle_all on_event es h) (append-nil (events_of r.watch))
      ∙ round-relist os r h lists
  rounds-relist os (b ∷ before) r h all_list lists =
      handle_all-append on_event (events_of b.watch) (all_events (before ++ r ∷ [])) h
      ∙ (ap (handle_all on_event (all_events (before ++ r ∷ []))) (round-relist os b h all_list.0.0)
          ∙ (rounds-relist os before r (relist os h) all_list.1 lists
              ∙ relist_changes_nothing get_object set_object never_fails reads_back marshal
                  unmarshal get_gvr os h))

  round-ends :
      (os : List O) (b : Round (String × Option O))
      → b.watch ≡ ok (listing os)
      → round_ends b.watch ≡ true
  round-ends os b lists = ap round_ends lists ∙ listing-ends os

  -- If the configuration store never fails and reads back what was written, then however often the
  -- watch is closed and established again, and lists the same definitions anew each time, the loop
  -- ends with what one listing gives: the later ones neither change the pipelines nor ask for a
  -- resync. The waits in between are those of the backoff.
  pub reconnects_settle :
      (backoff : ℕ) (os : List O) (before : List (Round (String × Option O)))
      (r : Round (String × Option O)) (rest : List (Round (String × Option O))) (h : State S)
      → All (λ b. (b.watch ≡ ok (listing os)) × (b.stopped ≡ false)) before
      → r.watch ≡ ok (listing os)
      → r.stopped ≡ true
      → watch_crds on_event backoff (before ++ r ∷ rest) h
        ≡ some (delays backoff (iterations (before ++ r ∷ [])), relist os h)
  reconnects_settle backoff os before r rest h all_list lists stopped =
      watch_crds_handles_events on_event backoff before r rest h
        (All-mono (λ b p. (round-ends os b p.0, p.1)) before all_list) (round-ends os r lists)
        stopped
      ∙ ap (λ k. some (delays backoff (iterations (before ++ r ∷ [])), k))
          (rounds-relist os before r h all_list lists)
