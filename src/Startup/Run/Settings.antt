-- ===== src/Startup/Run/Settings.antt =====
-- Which pipelines a Run (pkg/lib/meshsync/meshsync.go) watches.
use meshsync.Common.{String, ◌≡◌, sym, ◌∙◌, refl, ap, true, none, some, [], if◌then◌else◌}
use meshsync.Common.Dict.{Dict, insert}
use meshsync.Errors.{ok}
use meshsync.Config.{PipelineConfigs, MeshsyncConfig, resources_key, listeners_key}
use meshsync.Config.WatchList.{pipelines_at, populate_pipelines}
use meshsync.Config.WatchList.Populate.{is_stage, selected_by, populate_pipelines_at}
use meshsync.Startup.{determine_use_crd_flag}
use meshsync.Startup.Options.{Options}
use meshsync.Startup.Run.Externals.{Env}
use meshsync.Startup.Run.Configure.{
  server_key, assign_configs, crd_configs_of, set_object, set_server, seed, configure,
}
use meshsync.Startup.Run.Effects.{Globals, Stored, World, returned, ◌>>=◌, lift, fail_if}

module _ {H C K V B : Type 0} (env : Env H C K V B) where
  -- The environment lets the configuration pass.
  abbrev pub Accepts : Options H C → K → Stored → Type 0
  Accepts options kube_client cfg =
      (env.new_client options.kube_config ≡ ok kube_client)
      × (env.new_config options.meshkit_config_provider ≡ ok (some cfg))
      × (env.set_object server_key ≡ none)
      × (env.set_object resources_key ≡ none)
      × (env.set_object listeners_key ≡ none)

  -- The globals after the configuration.
  abbrev pub configured : Options H C → K → Globals → Globals
  configured options kube_client g =
      let use_crd_flag = determine_use_crd_flag (env.crd_at_flag kube_client) in
      assign_configs (crd_configs_of env use_crd_flag kube_client g.pipelines)
        (record g { server = insert g.server "version" options.version })

  configure_lem :
      (options : Options H C) (kube_client : K) (cfg : Stored) (w : World H B)
      → Accepts options kube_client cfg
      → let g = configured options kube_client w.globals in
        configure env options w ≡ (
          returned (determine_use_crd_flag (env.crd_at_flag kube_client)),
          record w {
            globals = g;
            stored = record {
              server = some (insert w.globals.server "version" options.version);
              broker_url = env.broker_url;
              resources = some g.pipelines;
              listeners = some g.listeners;
            };
          },
        )
  unfolding configure seed set_object set_server ◌>>=◌ lift fail_if
  configure_lem options kube_client cfg w h = rw (h.0, h.1, h.2, h.3, h.4) refl

  -- The watch list that the Run reads has these lists, whatever pipelines it selects from.
  abbrev pub ReadsLists : K → MeshsyncConfig → Type 0
  ReadsLists kube_client lists =
      (lists.pipelines ≡ [])
      × ((templates : Dict PipelineConfigs)
          → crd_configs_of env (determine_use_crd_flag (env.crd_at_flag kube_client)) kube_client
              templates
            ≡ some (populate_pipelines templates lists))

  -- With a watch list that could be read, what the discovery is given is the selection from the
  -- package's pipelines, which it replaces, and what stands in the configuration is the same; an
  -- empty selection replaces them too.
  pub configure_selects :
      (options : Options H C) (kube_client : K) (cfg : Stored) (lists : MeshsyncConfig)
      (w : World H B) (k : String)
      → Accepts options kube_client cfg
      → ReadsLists kube_client lists
      → let after = (configure env options w).1 in
        (after.stored.resources ≡ some after.globals.pipelines)
        × (pipelines_at after.globals.pipelines k
            ≡ (if is_stage k then selected_by lists (pipelines_at w.globals.pipelines k) else []))
  unfolding assign_configs
  configure_selects options kube_client cfg lists w k accepts (none_yet, reads) =
      let done = configure_lem options kube_client cfg w accepts in
      let read = reads w.globals.pipelines in
      (
        ap (λ r. r.1.stored.resources) done ∙ sym (ap (λ r. some r.1.globals.pipelines) done),
        ap (λ r. pipelines_at r.1.globals.pipelines k) done
            ∙ (ap
                  (λ c.
                    pipelines_at
                      (assign_configs c (record w.globals {
                        server = insert w.globals.server "version" options.version;
                      })).pipelines
                      k)
                  read
                ∙ populate_pipelines_at w.globals.pipelines lists k none_yet),
      )

-- Two Runs of one process share the package's variables: the second one selects from what the
-- first one has left of the pipelines, and not from the defaults, so that a pipeline that the
-- first watch list leaves out is not watched by the second Run even if its watch list asks for it.
pub second_run_narrows :
    {H C K V B : Type 0} (env1 env2 : Env H C K V B) (options1 options2 : Options H C)
    (client1 client2 : K) (cfg1 cfg2 : Stored) (lists1 lists2 : MeshsyncConfig) (w1 w2 : World H B)
    (k : String)
    → Accepts env1 options1 client1 cfg1
    → Accepts env2 options2 client2 cfg2
    → ReadsLists env1 client1 lists1
    → ReadsLists env2 client2 lists2
    → w2.globals ≡ (configure env1 options1 w1).1.globals
    → is_stage k ≡ true
    → pipelines_at (configure env2 options2 w2).1.globals.pipelines k
      ≡ selected_by lists2 (selected_by lists1 (pipelines_at w1.globals.pipelines k))
second_run_narrows env1 env2 options1 options2 client1 client2 cfg1 cfg2 lists1 lists2 w1 w2 k
      accepts1 accepts2 reads1 reads2 shared stage =
    let first = (configure_selects env1 options1 client1 cfg1 lists1 w1 k accepts1 reads1).1 in
    let second = (configure_selects env2 options2 client2 cfg2 lists2 w2 k accepts2 reads2).1 in
    second
    ∙ rw stage (
        ap (λ g. selected_by lists2 (pipelines_at g.pipelines k)) shared
        ∙ (ap (selected_by lists2) first ∙ rw stage refl))
