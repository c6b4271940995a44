-- ===== src/Startup/Run/Ready.antt =====
-- When the health server of a Run (pkg/lib/meshsync/meshsync.go) reports that it is ready, and when
-- there is a writer to write to.
use meshsync.Common.{
  String, ◌≡◌, ◌⊎◌, sym, refl, ap, ◌∙◌, Bool, true, false, ◌&&◌, Option, none, some, arith, ◌==◌,
  contains, if◌then◌else◌, inl, inr, eq_iff,
}
use meshsync.Common.Dict.{has}
use meshsync.Errors.{Error}
use meshsync.Output.{set_output, new_processor}
use meshsync.Startup.Health.{HealthServer, handler, mark_ready}
use meshsync.Startup.Options.{Options, allowed_output_modes, output_mode_broker, output_mode_file}
use meshsync.Startup.Run.Externals.{Env}
use meshsync.Startup.Run.Writers.{
  after_test, create_nats_broker_handler, broker_or_new, set_broker_output, new_yaml_writer,
  filename_or_new, open_extended, open_main, set_file_output, set_outputs,
}
use meshsync.Startup.Run.Kept.{
  IsKept, idle, bind-IsKept, lift-IsKept, fail_if-IsKept, when-IsKept, if-IsKept,
}
use meshsync.Startup.Run.Effects.{
  World, Outcome, returned, failed, panicked, waiting, Action, continue, ◌>>=◌, when,
}

abbrev pub succeeded : {A : Type 0} → Outcome A → Bool
succeeded (returned a) = true
succeeded o = false

readyz-status : (h : HealthServer) → (handler h "/readyz").status ≡ (if h.ready then 200 else 503)
unfolding handler
readyz-status h = ground arith

healthz-status : (h : HealthServer) → (handler h "/healthz").status ≡ 200
unfolding handler
healthz-status h = refl

module _ {H B : Type 0} where
  abbrev Unready : World H B → Type 0
  Unready w = (w.health.ready ≡ false) × (has w.output.output ≡ false)

  -- There is a writer exactly if the call has returned, and then it is ready in the broker mode.
  abbrev Settled : {A : Type 0} → Bool → Outcome A × World H B → Type 0
  Settled broker (o, w) =
      (has w.output.output ≡ succeeded o) × (w.health.ready ≡ (broker && succeeded o))

  continue-Settled :
      {A A' : Type 0} (broker : Bool) (r : Outcome A × World H B) (f : A → Action H B A')
      → Unready r.1
      → ((a : A) (w : World H B) → Unready w → Settled broker (f a w))
      → Settled broker (continue r f)
  continue-Settled broker (returned a, w) f h rest = rest a w h
  continue-Settled broker (failed e, w) f h rest = ground arith
  continue-Settled broker (panicked, w) f h rest = ground arith
  continue-Settled broker (waiting, w) f h rest = ground arith

  Settled-on :
      {A A' : Type 0} (broker : Bool) (r : Outcome A × World H B) (f : A → Action H B A')
      → Settled broker r
      → ((a : A) (w : World H B) → (succeeded (f a w).0 ≡ true) × ((f a w).1 ≡ w))
      → Settled broker (continue r f)
  Settled-on broker (returned a, w) f h rest =
      let (done, same) = rest a w in
      (
        ap (λ (v : World H B). has v.output.output) same ∙ (h.0 ∙ sym done),
        ap (λ (v : World H B). v.health.ready) same ∙ (h.1 ∙ ap (λ b. broker && b) (sym done)),
      )
  Settled-on broker (failed e, w) f h rest = h
  Settled-on broker (panicked, w) f h rest = h
  Settled-on broker (waiting, w) f h rest = h

  bind-Settled :
      {A A' : Type 0} (broker : Bool) (m : Action H B A) (f : A → Action H B A') (w : World H B)
      → IsKept Unready m
      → Unready w
      → ((a : A) (v : World H B) → Unready v → Settled broker (f a v))
      → Settled broker ((m >>= f) w)
  unfolding ◌>>=◌
  bind-Settled broker m f w kept h = continue-Settled broker (m w) f (kept.keeps w h)

  module _ {C K V : Type 0} (env : Env H C K V B) where
    after_test-IsKept :
        (url : String) (o : Option (Option Error)) → IsKept Unready (after_test env url o)
    unfolding after_test
    after_test-IsKept url none = idle Unready (λ w h. h)
    after_test-IsKept url (some (some e)) = idle Unready (λ w h. h)
    after_test-IsKept url (some none) = lift-IsKept Unready (env.nats_new url)

    broker_or_new-IsKept :
        (o : Option H) (endpoint : String) → IsKept Unready (broker_or_new env o endpoint)
    unfolding broker_or_new create_nats_broker_handler
    broker_or_new-IsKept (some b) endpoint = idle Unready (λ w h. h)
    broker_or_new-IsKept none endpoint =
        bind-IsKept Unready _ _ (idle Unready (λ w h. h)) (λ url. after_test-IsKept url _)

    new_yaml_writer-IsKept : (name : String) → IsKept Unready (new_yaml_writer env name)
    unfolding new_yaml_writer
    new_yaml_writer-IsKept name = idle Unready (λ w h. (fail_if-IsKept Unready _).keeps _ h)

    open_extended-IsKept : (filename : String) → IsKept Unready (open_extended env filename)
    unfolding open_extended
    open_extended-IsKept filename =
        bind-IsKept Unready _ _ (new_yaml_writer-IsKept _) (λ _. idle Unready (λ w h. h))

    open_main-IsKept : (filename : String) → IsKept Unready (open_main env filename)
    unfolding open_main
    open_main-IsKept filename =
        bind-IsKept Unready _ _ (new_yaml_writer-IsKept _) (λ _. idle Unready (λ w h. h))

    filename_or_new-IsKept : (name : String) → IsKept Unready (filename_or_new env name)
    unfolding filename_or_new
    filename_or_new-IsKept name =
        if-IsKept Unready (name == "") _ _ (lift-IsKept Unready _) (idle Unready (λ w h. h))

    set_broker_output-Settled :
        (options : Options H C) (w : World H B)
        → Unready w
        → Settled true (set_broker_output env options w)
    unfolding set_broker_output ◌>>=◌ mark_ready set_output
    set_broker_output-Settled options w h =
        bind-Settled true (broker_or_new env options.broker_handler options.ping_endpoint) _ w
          (broker_or_new-IsKept options.broker_handler options.ping_endpoint) h
          (λ b v k. (refl, refl))

    set_file_output-Settled :
        (options : Options H C) (w : World H B)
        → Unready w
        → Settled false (set_file_output env options w)
    unfolding set_file_output set_output
    set_file_output-Settled options w h =
        bind-Settled false (filename_or_new env options.output_file_name) _ w
          (filename_or_new-IsKept options.output_file_name) h
          (λ filename v k.
            bind-Settled false (when options.output_extended_file (open_extended env filename)) _ v
              (when-IsKept Unready options.output_extended_file _ (open_extended-IsKept filename)) k
              (λ _ u j.
                bind-Settled false (open_main env filename) _ u (open_main-IsKept filename) j
                  (λ _ t i. (refl, i.0))))

    set_outputs-broker :
        (options : Options H C) (w : World H B)
        → options.output_mode ≡ output_mode_broker
        → w.health.ready ≡ false
        → Settled true (set_outputs env options w)
    unfolding set_outputs ◌>>=◌ when new_processor
    set_outputs-broker options w mode h =
        let w0 : World H B = record w { output = new_processor } in
        rw mode (
          Settled-on true (set_broker_output env options w0) _
            (set_broker_output-Settled options w0 (h, refl)) (λ a v. (refl, refl)))

    set_outputs-file :
        (options : Options H C) (w : World H B)
        → options.output_mode ≡ output_mode_file
        → w.health.ready ≡ false
        → Settled false (set_outputs env options w)
    unfolding set_outputs ◌>>=◌ when new_processor
    set_outputs-file options w mode h =
        let w0 : World H B = record w { output = new_processor } in
        rw mode (
          Settled-on false (set_file_output env options w0) _
            (set_file_output-Settled options w0 (h, refl)) (λ a v. (refl, refl)))

    one_of_two :
        (mode : String)
        → contains allowed_output_modes mode ≡ true
        → (mode ≡ output_mode_broker) ⊎ (mode ≡ output_mode_file)
    one_of_two mode allowed =
        ground (arith, allowed, eq_iff output_mode_broker mode, eq_iff output_mode_file mode)

    -- If the output mode is one of the two and the health server is not ready yet, there is a
    -- writer exactly if the set-up of the outputs has returned, and then, of the two modes, only
    -- the broker mode makes /readyz answer 200; otherwise it answers 503. /healthz answers 200
    -- whatever has happened.
    pub ready_with_broker :
        (options : Options H C) (w : World H B)
        → contains allowed_output_modes options.output_mode ≡ true
        → w.health.ready ≡ false
        → let (o, after) = set_outputs env options w in
          (has after.output.output ≡ succeeded o)
          × ((handler after.health "/readyz").status
              ≡ (if options.output_mode == output_mode_broker && succeeded o then 200 else 503))
          × ((handler after.health "/healthz").status ≡ 200)
    ready_with_broker options w allowed h = elim (one_of_two options.output_mode allowed) [
      | inl broker ↦
          let (writer, ready) = set_outputs-broker options w broker h in
          (
            writer,
            readyz-status (set_outputs env options w).1.health ∙ rw (ready, broker) refl,
            healthz-status (set_outputs env options w).1.health,
          )
      | inr file ↦
          let (writer, ready) = set_outputs-file options w file h in
          (
            writer,
            readyz-status (set_outputs env options w).1.health ∙ rw (ready, file) refl,
            healthz-status (set_outputs env options w).1.health,
          )
    ]
