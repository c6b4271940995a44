-- ===== src/Startup/Run/Careful.antt =====
-- The calls of Run (pkg/lib/meshsync/meshsync.go) that configure it and choose its writers defer what
-- gives back what they take.
use meshsync.Common.{
  String, ◌≡◌, Bool, true, false, not, ◌&&◌, Option, none, some, List, arith, any, ◌==◌,
}
use meshsync.Errors.{Error}
use meshsync.Config.{MeshsyncConfig, resources_key, listeners_key}
use meshsync.Startup.Options.{Options, output_mode_broker, output_mode_file}
use meshsync.Startup.Run.Externals.{Env}
use meshsync.Startup.Run.Configure.{server_key, set_object, set_server, seed, configure}
use meshsync.Startup.Run.Writers.{
  after_test, create_nats_broker_handler, broker_or_new, set_broker_output, new_yaml_writer,
  filename_or_new, open_extended, open_main, set_file_output, set_outputs,
}
use meshsync.Startup.Run.Kept.{
  IsKept, idle, bind-IsKept, lift-IsKept, fail_if-IsKept, when-IsKept, if-IsKept,
}
use meshsync.Startup.Run.Effects.{
  Stored, Held, Deferred, stop_health, shutdown_informer, close_extended, World, Action, modify,
}

abbrev pub is_stop_health : Deferred → Bool
is_stop_health stop_health = true
is_stop_health d = false

abbrev pub is_shutdown_informer : Deferred → Bool
is_shutdown_informer shutdown_informer = true
is_shutdown_informer d = false

abbrev pub is_close_extended : Deferred → Bool
is_close_extended close_extended = true
is_close_extended d = false

-- Whatever is held, but for the main file, has a deferred call that gives it back.
abbrev pub IsCovered : Held → List Deferred → Type 0
IsCovered held ds =
    ((held.serving && not (any is_stop_health ds)) ≡ false)
    × ((held.informers && not (any is_shutdown_informer ds)) ≡ false)
    × ((held.extended_file && not (any is_close_extended ds)) ≡ false)

module _ {H B : Type 0} where
  abbrev pub Covered : World H B → Type 0
  Covered w = IsCovered w.held w.deferred

  abbrev pub IsCareful : {A : Type 0} → Action H B A → Type 0
  IsCareful m = IsKept Covered m

  module _ {C K V : Type 0} (env : Env H C K V B) where
    set_object-IsCareful :
        (cfg : Option Stored) (key : String) (store : World H B → World H B)
        → IsCareful (modify store)
        → IsCareful (set_object env cfg key store)
    unfolding set_object
    set_object-IsCareful none key store careful = idle Covered (λ w h. h)
    set_object-IsCareful (some cfg) key store careful =
        bind-IsKept Covered _ _ (fail_if-IsKept Covered (env.set_object key)) (λ _. careful)

    seed-IsCareful :
        (cfg : Option Stored) (crd_configs : Option MeshsyncConfig) (options : Options H C)
        → IsCareful (seed env cfg crd_configs options)
    unfolding seed set_server
    seed-IsCareful cfg crd_configs options = bind-IsKept Covered _ _ (idle Covered (λ w h. h)) (λ _.
        bind-IsKept Covered _ _ (set_object-IsCareful cfg server_key _ (idle Covered (λ w h. h)))
          (λ _. bind-IsKept Covered _ _ (idle Covered (λ w h. h)) (λ _.
            bind-IsKept Covered _ _ (idle Covered (λ w h. h)) (λ _.
              bind-IsKept Covered _ _
                (set_object-IsCareful cfg resources_key _ (idle Covered (λ w h. h)))
                (λ _. set_object-IsCareful cfg listeners_key _ (idle Covered (λ w h. h)))))))

    pub configure-IsCareful : (options : Options H C) → IsCareful (configure env options)
    unfolding configure
    configure-IsCareful options =
        bind-IsKept Covered _ _ (lift-IsKept Covered (env.new_client options.kube_config)) (λ k.
          bind-IsKept Covered _ _ (idle Covered (λ w h. h)) (λ crd_configs.
            bind-IsKept Covered _ _ (lift-IsKept Covered _) (λ cfg.
              bind-IsKept Covered _ _ (seed-IsCareful cfg crd_configs options)
                (λ _. idle Covered (λ w h. h)))))

    after_test-IsCareful :
        (url : String) (o : Option (Option Error)) → IsCareful (after_test env url o)
    unfolding after_test
    after_test-IsCareful url none = idle Covered (λ w h. h)
    after_test-IsCareful url (some (some e)) = idle Covered (λ w h. h)
    after_test-IsCareful url (some none) = lift-IsKept Covered (env.nats_new url)

    broker_or_new-IsCareful :
        (o : Option H) (endpoint : String) → IsCareful (broker_or_new env o endpoint)
    unfolding broker_or_new create_nats_broker_handler
    broker_or_new-IsCareful (some b) endpoint = idle Covered (λ w h. h)
    broker_or_new-IsCareful none endpoint =
        bind-IsKept Covered _ _ (idle Covered (λ w h. h)) (λ url. after_test-IsCareful url _)

    set_broker_output-IsCareful :
        (options : Options H C) → IsCareful (set_broker_output env options)
    unfolding set_broker_output
    set_broker_output-IsCareful options =
        bind-IsKept Covered _ _
          (broker_or_new-IsCareful options.broker_handler options.ping_endpoint)
          (λ b.
            bind-IsKept Covered _ _ (idle Covered (λ w h. h)) (λ _.
              bind-IsKept Covered _ _ (idle Covered (λ w h. h)) (λ _. idle Covered (λ w h. h))))

    new_yaml_writer-IsCareful : (name : String) → IsCareful (new_yaml_writer env name)
    unfolding new_yaml_writer
    new_yaml_writer-IsCareful name = idle Covered (λ w h. (fail_if-IsKept Covered _).keeps _ h)

    open_extended-IsCareful : (filename : String) → IsCareful (open_extended env filename)
    unfolding open_extended
    open_extended-IsCareful filename =
        bind-IsKept Covered _ _ (new_yaml_writer-IsCareful _)
          (λ _. idle Covered (λ w h. ground arith))

    open_main-IsCareful : (filename : String) → IsCareful (open_main env filename)
    unfolding open_main
    open_main-IsCareful filename =
        bind-IsKept Covered _ _ (new_yaml_writer-IsCareful filename) (λ _. idle Covered (λ w h. h))

    filename_or_new-IsCareful : (name : String) → IsCareful (filename_or_new env name)
    unfolding filename_or_new
    filename_or_new-IsCareful name =
        if-IsKept Covered (name == "") _ _ (lift-IsKept Covered _) (idle Covered (λ w h. h))

    set_file_output-IsCareful : (options : Options H C) → IsCareful (set_file_output env options)
    unfolding set_file_output
    set_file_output-IsCareful options =
        bind-IsKept Covered _ _ (filename_or_new-IsCareful options.output_file_name) (λ filename.
          bind-IsKept Covered _ _
            (when-IsKept Covered options.output_extended_file _ (open_extended-IsCareful filename))
            (λ _.
              bind-IsKept Covered _ _ (open_main-IsCareful filename)
                (λ _. idle Covered (λ w h. h))))

    pub set_outputs-IsCareful : (options : Options H C) → IsCareful (set_outputs env options)
    unfolding set_outputs
    set_outputs-IsCareful options = bind-IsKept Covered _ _ (idle Covered (λ w h. h)) (λ _.
        bind-IsKept Covered _ _
          (if-IsKept Covered (options.output_mode == output_mode_broker) _ _
            (set_broker_output-IsCareful options) (idle Covered (λ w h. h)))
          (λ br.
            bind-IsKept Covered _ _
              (when-IsKept Covered (options.output_mode == output_mode_file) _
                (set_file_output-IsCareful options))
              (λ _. idle Covered (λ w h. h))))
