-- ===== src/Startup/Run/Releases.antt =====
-- What a Run (pkg/lib/meshsync/meshsync.go) has given back when it has ended.
use mathlib.Core.Path.{subst}
use meshsync.Common.{
  ◌≡◌, ◌≢◌, sym, ◌∙◌, refl, Bool, false, not, ◌&&◌, ◌||◌, Option, List, [], ◌∷◌, arith, any, ◌==◌,
  contains,
}
use meshsync.Common.Int.{is_pos}
use meshsync.Startup.Options.{
  Options, OptionsSetter, set_options, allowed_output_modes, output_mode_broker,
}
use meshsync.Startup.Run.Externals.{Env}
use meshsync.Startup.Run.{
  check_output_mode, start_health, new_handler, await_end, serve, run_body, run,
}
use meshsync.Startup.Run.Kept.{idle, bind-IsKept, when-IsKept, if-IsKept}
use meshsync.Startup.Run.Effects.{
  Held, Deferred, stop_health, shutdown_informer, close_extended, World, Outcome, returned, failed,
  panicked, waiting, release, release_all, finish,
}
use meshsync.Startup.Run.Careful.{
  is_stop_health, is_shutdown_informer, is_close_extended, IsCovered, Covered, IsCareful,
  configure-IsCareful, set_outputs-IsCareful,
}

release_all-fields :
    (ds : List Deferred) (held : Held)
    → ((release_all ds held).serving ≡ (held.serving && not (any is_stop_health ds)))
      × ((release_all ds held).informers ≡ (held.informers && not (any is_shutdown_informer ds)))
      × ((release_all ds held).extended_file
          ≡ (held.extended_file && not (any is_close_extended ds)))
      × ((release_all ds held).main_file ≡ held.main_file)
unfolding release_all release
release_all-fields [] held = ground arith
release_all-fields (stop_health ∷ ds) held =
    ground (arith, release_all-fields ds (record held { serving = false }))
release_all-fields (shutdown_informer ∷ ds) held =
    ground (arith, release_all-fields ds (record held { informers = false }))
release_all-fields (close_extended ∷ ds) held =
    ground (arith, release_all-fields ds (record held { extended_file = false }))

-- What a call holds, but for the main file, has been given back.
abbrev pub HasReleased : Held → Type 0
HasReleased held = (held.serving ≡ false) × (held.informers ≡ false) × (held.extended_file ≡ false)

released :
    (held : Held) (ds : List Deferred) → IsCovered held ds → HasReleased (release_all ds held)
released held ds (serving, informers, extended) =
    let fields = release_all-fields ds held in
    (fields.0 ∙ serving, fields.1 ∙ informers, fields.2 ∙ extended)

fresh-Covered : (held : Held) → HasReleased held → IsCovered held []
fresh-Covered held h = ground arith

module _ {H B : Type 0} where
  module _ {C K V : Type 0} (env : Env H C K V B) where
    check_output_mode-IsCareful :
        (options : Options H C) → IsCareful (check_output_mode env options)
    unfolding check_output_mode
    check_output_mode-IsCareful options =
        if-IsKept Covered (contains allowed_output_modes options.output_mode) _ _
          (idle Covered (λ w h. h)) (idle Covered (λ w h. h))

    start_health-IsCareful : IsCareful (start_health env)
    unfolding start_health
    start_health-IsCareful = idle Covered (λ w h. ground arith)

    new_handler-IsCareful :
        (options : Options H C) (br : Option H) → IsCareful (new_handler env options br)
    unfolding new_handler
    new_handler-IsCareful options br = idle Covered (λ w h. ground arith)

    await_end-IsCareful : (options : Options H C) → IsCareful (await_end env options)
    unfolding await_end
    await_end-IsCareful options =
        if-IsKept Covered
          (is_pos options.stop_after_duration || env.interrupted || env.cancelled options.context) _
          _ (idle Covered (λ w h. h)) (idle Covered (λ w h. h))

    serve-IsCareful :
        (options : Options H C) (use_crd_flag : Bool) → IsCareful (serve env options use_crd_flag)
    unfolding serve
    serve-IsCareful options use_crd_flag =
        bind-IsKept Covered _ _ (when-IsKept Covered use_crd_flag _ (idle Covered (λ w h. h))) (λ _.
          bind-IsKept Covered _ _ (idle Covered (λ w h. h)) (λ _.
            bind-IsKept Covered _ _
              (when-IsKept Covered (options.output_mode == output_mode_broker) _
                (idle Covered (λ w h. h)))
              (λ _.
                bind-IsKept Covered _ _ (await_end-IsCareful options)
                  (λ _. idle Covered (λ w h. h)))))

    run_body-IsCareful : (options : Options H C) → IsCareful (run_body env options)
    unfolding run_body
    run_body-IsCareful options = bind-IsKept Covered _ _ (check_output_mode-IsCareful options) (λ _.
        bind-IsKept Covered _ _ start_health-IsCareful (λ _.
          bind-IsKept Covered _ _ (configure-IsCareful env options) (λ flag.
            bind-IsKept Covered _ _ (set_outputs-IsCareful env options) (λ br.
              bind-IsKept Covered _ _ (new_handler-IsCareful options br)
                (λ _. serve-IsCareful options flag)))))

  finish-HasReleased :
      {A : Type 0} (r : Outcome A × World H B)
      → r.0 ≢ waiting
      → IsCovered r.1.held r.1.deferred
      → HasReleased (finish r).1.held
  unfolding finish
  finish-HasReleased (returned a, w) ended h = released w.held w.deferred h
  finish-HasReleased (failed e, w) ended h = released w.held w.deferred h
  finish-HasReleased (panicked, w) ended h = released w.held w.deferred h
  finish-HasReleased (waiting, w) ended h = absurd (ended refl)

  finish-outcome : {A : Type 0} (r : Outcome A × World H B) → (finish r).0 ≡ r.0
  unfolding finish
  finish-outcome (returned a, w) = refl
  finish-outcome (failed e, w) = refl
  finish-outcome (panicked, w) = refl
  finish-outcome (waiting, w) = refl

  -- However a Run ends, with an error, a panic or normally, and wherever it ends, the health
  -- server is stopped, the informers are shut down and the extended file is closed, if it began
  -- without any of them.
  pub run_releases :
      {C K V : Type 0} (env : Env H C K V B) (defaults : Options H C)
      (setters : List (Option (OptionsSetter H C))) (w : World H B)
      → HasReleased w.held
      → w.deferred ≡ []
      → (run env defaults setters w).0 ≢ waiting
      → HasReleased (run env defaults setters w).1.held
  unfolding run
  run_releases env defaults setters w clean none_deferred ended =
      let body = run_body env (set_options setters defaults) w in
      finish-HasReleased body (λ e. ended (finish-outcome body ∙ e))
        ((run_body-IsCareful env (set_options setters defaults)).keeps w
          (subst (IsCovered w.held) (sym none_deferred) (fresh-Covered w.held clean)))
