-- ===== src/Config/WatchList/Populate.antt =====
-- When PopulateConfigsFromMap succeeds, and which pipelines the result watches.
use meshsync.Common.{
  String, ◌≡◌, Bool, true, false, not, ◌||◌, List, [], ◌∷◌, arith, ◌==◌, eq_iff, if◌then◌else◌,
  Bool-cases, inl, inr,
}
use meshsync.Common.Dict.{Dict, insert, lookup-nil, lookup-insert}
use meshsync.Errors.{Result, ok, err}
use meshsync.Config.{
  PipelineConfigs, ResourceConfig, MeshsyncConfig, global_resource_key, local_resource_key,
}
use meshsync.Config.WatchList.{
  is_empty, pipelines_at, set_if_any, filter_whitelisted_pipelines, filter_blacklisted_pipelines,
  populate_list, validate_lists, populate_pipelines, populate_pipelines_from_white_list,
  populate_pipelines_from_black_list, populate_configs_from_map,
}

pipelines_at-insert :
    (m : Dict PipelineConfigs) (key k : String) (p : PipelineConfigs)
    → pipelines_at (insert m key p) k ≡ (if key == k then p else pipelines_at m k)
unfolding pipelines_at
pipelines_at-insert m key k p = ground (arith, lookup-insert m key k p)

pipelines_at-set_if_any :
    (m : Dict PipelineConfigs) (key k : String) (p : PipelineConfigs)
    → pipelines_at m key ≡ []
    → pipelines_at (set_if_any m key p) k ≡ (if key == k then p else pipelines_at m k)
unfolding set_if_any
pipelines_at-set_if_any m key k [] h = ground (arith, eq_iff key k)
pipelines_at-set_if_any m key k (q ∷ p) h = pipelines_at-insert m key k (q ∷ p)

pipelines_at-nil : (k : String) → pipelines_at [] k ≡ []
unfolding pipelines_at
pipelines_at-nil k = ground (arith, lookup-nil {V = PipelineConfigs} k)

abbrev pub is_stage : String → Bool
is_stage k = global_resource_key == k || local_resource_key == k

module _ (f : PipelineConfigs → PipelineConfigs) (templates : String → PipelineConfigs) where
  -- Both stages filtered by `f`, the empty ones left out.
  pipelines_at-both :
      (k : String)
      → pipelines_at
          (set_if_any
            (set_if_any [] global_resource_key (f (templates global_resource_key)))
            local_resource_key
            (f (templates local_resource_key)))
          k
        ≡ (if is_stage k then f (templates k) else [])
  pipelines_at-both k = ground (
    arith,
    pipelines_at-set_if_any (set_if_any [] global_resource_key (f (templates global_resource_key)))
        local_resource_key k (f (templates local_resource_key)),
    pipelines_at-set_if_any [] global_resource_key k (f (templates global_resource_key)),
    pipelines_at-set_if_any [] global_resource_key local_resource_key
        (f (templates global_resource_key)),
    pipelines_at-nil k,
    pipelines_at-nil local_resource_key,
    pipelines_at-nil global_resource_key,
    eq_iff global_resource_key k,
    eq_iff local_resource_key k,
  )

-- What the lists of a configuration leave of the pipelines of a stage.
abbrev pub selected_by : MeshsyncConfig → PipelineConfigs → PipelineConfigs
selected_by cfg pipelines =
    if is_empty cfg.white_list
    then filter_blacklisted_pipelines pipelines cfg.black_list
    else filter_whitelisted_pipelines pipelines cfg.white_list

-- Whatever the package's pipelines are, what is watched is, for the two stage keys, the pipelines
-- of that stage, filtered by the whitelist if one is given and by the blacklist otherwise, and
-- nothing for another key. A list that matches nothing leaves nothing.
pub populate_pipelines_at :
    (templates : Dict PipelineConfigs) (cfg : MeshsyncConfig) (k : String)
    → cfg.pipelines ≡ []
    → pipelines_at (populate_pipelines templates cfg).pipelines k
      ≡ (if is_stage k then selected_by cfg (pipelines_at templates k) else [])
unfolding populate_pipelines populate_pipelines_from_white_list populate_pipelines_from_black_list
populate_pipelines_at templates cfg k h = elim (Bool-cases (is_empty cfg.white_list)) [
  | inl e ↦
      rw (e, h)
        (pipelines_at-both (λ ps. filter_blacklisted_pipelines ps cfg.black_list)
          (pipelines_at templates) k)
  | inr e ↦
      rw (e, h)
        (pipelines_at-both (λ ps. filter_whitelisted_pipelines ps cfg.white_list)
          (pipelines_at templates) k)
]

abbrev pub is_ok {ℓ} : {A : Type ℓ} → Result A → Bool
is_ok (ok a) = true
is_ok (err e) = false

abbrev pub differ : Bool → Bool → Bool
differ true b = not b
differ false b = b

module _ (decode_names : String → Result (List String))
    (decode_resources : String → Result (List ResourceConfig)) where
  -- With both lists decoded, the configuration is accepted exactly if one of them is empty and
  -- the other is not.
  pub populate_exactly_one :
      (templates : Dict PipelineConfigs) (texts : Dict String) (black : List String)
      (white : List ResourceConfig)
      → populate_list decode_names texts "blacklist" [] ≡ ok black
      → populate_list decode_resources texts "whitelist" [] ≡ ok white
      → is_ok (populate_configs_from_map decode_names decode_resources templates texts)
        ≡ differ (is_empty black) (is_empty white)
  unfolding populate_configs_from_map validate_lists
  populate_exactly_one templates texts black white b w = rw (b, w) (ground arith)
