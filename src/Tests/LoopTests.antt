-- ===== src/Tests/LoopTests.antt =====
-- The loops of meshsync/handlers.go on concrete events and requests.
use meshsync.Common.{
  Bool, zero, suc, ◌==◌, arith, ℕ, ◌<◌, ◌+◌, String, ◌≡◌, refl, true, false, List, [], ◌∷◌,
}
use meshsync.Errors.{ok}
use meshsync.Handler.RunLoop
use meshsync.Handler.RunLoop.{
  State, Event, resync, timer, shutdown, restart, stop, is_closed, at_start as at_start_of_run,
}
use meshsync.Handler.RunLoop.Single.{NoOverlap, is_running, one_discovery_runs}
use meshsync.Handler.RunLoop.Restarts.{resync_restarts, restart_outlives_stop}
use meshsync.Handler.RunLoop.Overlaps.{overlapping_restarts_leak}
use meshsync.Common.Text.{concat, decimal}
use meshsync.Snapshot.{
  snapshot_name, generate_unique_file_name_for_snapshot, taken, snapshot_name_first_free,
}

abbrev two_resyncs : List Event
two_resyncs = resync ∷ resync ∷ timer ∷ shutdown ∷ restart 0 true ∷ []

abbrev after_two : State
after_two = RunLoop.run two_resyncs (at_start_of_run true)

restarted_once : after_two.current ≡ 1
unfolding RunLoop.step RunLoop.at_start RunLoop.fire RunLoop.close_if_open RunLoop.reach_shutdown
    RunLoop.return_from RunLoop.start_and_track_discovery
restarted_once = refl

not_stopped : after_two.stopped ≡ false
unfolding RunLoop.step RunLoop.at_start RunLoop.fire RunLoop.close_if_open RunLoop.reach_shutdown
    RunLoop.return_from RunLoop.start_and_track_discovery
not_stopped = refl

no_overlap : NoOverlap two_resyncs (at_start_of_run true)
unfolding RunLoop.step RunLoop.at_start
no_overlap = ((refl, refl), tt)

one_discovery_runs_example : is_running 0 after_two ≡ false
one_discovery_runs_example =
    one_discovery_runs true two_resyncs 0 no_overlap
      (λ e. absurd (omega (arith, e, restarted_once)))

resync_restarts_example :
    let k =
      RunLoop.run (resync ∷ timer ∷ shutdown ∷ restart after_two.current true ∷ []) after_two in
    (k.current ≡ after_two.current + 1)
    × (is_closed after_two.current k.closed ≡ true)
    × (is_closed k.current k.closed ≡ false)
    × (k.called ≡ after_two.called)
    × (k.waiting ≡ after_two.waiting)
resync_restarts_example = resync_restarts true two_resyncs true not_stopped

overlapping_restarts_leak_example :
    let both =
      resync
      ∷ timer
      ∷ resync
      ∷ timer
      ∷ shutdown
      ∷ shutdown
      ∷ restart after_two.current true
      ∷ restart after_two.current true
      ∷ [] in
    let k = RunLoop.run (resync ∷ timer ∷ stop ∷ []) (RunLoop.run both after_two) in
    ((RunLoop.run both after_two).current ≡ after_two.current + 2)
    × (after_two.current + 1 < k.current)
    × (is_closed (after_two.current + 1) k.closed ≡ false)
    × (is_running (after_two.current + 1) k ≡ true)
overlapping_restarts_leak_example =
    overlapping_restarts_leak true true two_resyncs (resync ∷ timer ∷ stop ∷ []) not_stopped

restart_outlives_stop_example :
    let k =
      RunLoop.run
        (resync ∷ stop ∷ timer ∷ shutdown ∷ restart after_two.current true ∷ [])
        after_two in
    (k.stopped ≡ true)
    × (k.current ≡ after_two.current + 1)
    × (is_closed k.current k.closed ≡ false)
restart_outlives_stop_example = restart_outlives_stop true two_resyncs true not_stopped

abbrev monday_taken : String → Bool
monday_taken name = name == "meshery-cluster-snapshot-20250106-00.yaml"

zero_taken : (j : ℕ) → j < 1 → taken monday_taken "20250106" "yaml" j ≡ true
unfolding snapshot_name concat decimal
zero_taken zero h = refl
zero_taken (suc j) h = absurd (omega (arith, h))

one_free : taken monday_taken "20250106" "yaml" 1 ≡ false
unfolding snapshot_name concat decimal
one_free = refl

snapshot_name_first_free_example :
    generate_unique_file_name_for_snapshot monday_taken "20250106" "yaml"
    ≡ ok (snapshot_name "20250106" "yaml" 1)
snapshot_name_first_free_example =
    snapshot_name_first_free monday_taken "20250106" "yaml" 1 (omega arith) zero_taken one_free
