-- ===== src/Config/WatchList.antt =====
-- internal/config/crd_config.go: the watch list of the custom resource, which selects pipelines
-- from those of the package. Decoding of JSON is an argument, `none` where json.Unmarshal fails.
pub mod Selection
pub mod Populate
use meshsync.Common.{
  String, ◌≡◌, Bool, true, false, not, ◌&&◌, List, [], ◌∷◌, Option, none, some, any, ◌==◌,
  if◌then◌else◌,
}
use meshsync.Common.Dict.{Dict, lookup, insert}
use meshsync.Errors.{Error, message, Result, ok, err, ◌>>=◌, or_error, map_err}
use meshsync.Config.{
  PipelineConfig, PipelineConfigs, ResourceConfig, MeshsyncConfig, ListenerConfig,
  global_resource_key, local_resource_key, err_init_config,
}
use meshsync.Config.Defaults.{default_events}

abbrev pub is_empty {ℓ} : {A : Type ℓ} → List A → Bool
is_empty [] = true
is_empty (x ∷ xs) = false

-- slices.IndexFunc, with the element at that index.
unfoldable pub index_func : List ResourceConfig → String → Option ResourceConfig
index_func [] name = none
index_func (c ∷ cs) name = if c.resource == name then some c else index_func cs name

append_selected : PipelineConfig → Option ResourceConfig → PipelineConfigs → PipelineConfigs
append_selected v none rest = rest
append_selected v (some config) rest = record v { events = config.events } ∷ rest

unfoldable pub filter_whitelisted_pipelines :
    PipelineConfigs → List ResourceConfig → PipelineConfigs
unfolding append_selected
filter_whitelisted_pipelines [] white_list = []
filter_whitelisted_pipelines (v ∷ pipelines) white_list =
    append_selected v (index_func white_list v.name)
      (filter_whitelisted_pipelines pipelines white_list)

unfoldable pub filter_blacklisted_pipelines : PipelineConfigs → List String → PipelineConfigs
filter_blacklisted_pipelines [] black_list = []
filter_blacklisted_pipelines (v ∷ pipelines) black_list =
    let rest = filter_blacklisted_pipelines pipelines black_list in
    if any (λ c. c == v.name) black_list then rest else record v { events = default_events } ∷ rest

-- Reading a missing key of a map of slices gives nil.
unfoldable pub pipelines_at : Dict PipelineConfigs → String → PipelineConfigs
pipelines_at m key = elim (lookup m key) [ none ↦ [] | some p ↦ p ]

set_if_any : Dict PipelineConfigs → String → PipelineConfigs → Dict PipelineConfigs
set_if_any m key p = if is_empty p then m else insert m key p

-- `templates` is the package's variable Pipelines.
unfoldable pub populate_pipelines_from_white_list :
    Dict PipelineConfigs → MeshsyncConfig → MeshsyncConfig
unfolding set_if_any
populate_pipelines_from_white_list templates cfg = record cfg {
  pipelines =
      set_if_any
        (set_if_any cfg.pipelines global_resource_key (
          filter_whitelisted_pipelines (pipelines_at templates global_resource_key) cfg.white_list))
        local_resource_key
        (filter_whitelisted_pipelines (pipelines_at templates local_resource_key) cfg.white_list);
}

unfoldable pub populate_pipelines_from_black_list :
    Dict PipelineConfigs → MeshsyncConfig → MeshsyncConfig
unfolding set_if_any
populate_pipelines_from_black_list templates cfg = record cfg {
  pipelines =
      set_if_any
        (set_if_any cfg.pipelines global_resource_key (
          filter_blacklisted_pipelines (pipelines_at templates global_resource_key) cfg.black_list))
        local_resource_key
        (filter_blacklisted_pipelines (pipelines_at templates local_resource_key) cfg.black_list);
}

unfoldable pub validate_lists : MeshsyncConfig → Option Error
validate_lists cfg =
    if is_empty cfg.black_list && is_empty cfg.white_list
    then some (message "both whitelisted and blacklisted resources missing")
    else if not (is_empty cfg.black_list) && not (is_empty cfg.white_list)
    then some (message "both whitelisted and blacklisted resources not currently supported")
    else none

-- What the decoder fills, or the list that is there where the key is missing or its text is empty.
unfoldable pub populate_list {ℓ} :
    {A : Type ℓ} → (String → Result (List A)) → Dict String → String → List A → Result (List A)
populate_list decode texts key target = elim (lookup texts key) [
  | none ↦ ok target
  | some val ↦ if val == "" then ok target else decode val
]

abbrev fail_if : Option Error → MeshsyncConfig → Result MeshsyncConfig
fail_if none cfg = ok cfg
fail_if (some e) cfg = err e

unfoldable pub populate_pipelines : Dict PipelineConfigs → MeshsyncConfig → MeshsyncConfig
populate_pipelines templates cfg =
    if is_empty cfg.white_list
    then populate_pipelines_from_black_list templates cfg
    else populate_pipelines_from_white_list templates cfg

module _ (decode_names : String → Result (List String))
    (decode_resources : String → Result (List ResourceConfig)) where
  unfoldable pub populate_configs_from_map :
      Dict PipelineConfigs → Dict String → Result MeshsyncConfig
  populate_configs_from_map templates texts = do
    black ← map_err err_init_config (populate_list decode_names texts "blacklist" [])
    white ← map_err err_init_config (populate_list decode_resources texts "whitelist" [])
    let cfg : MeshsyncConfig = record {
      black_list = black;
      pipelines = [];
      listeners = [];
      white_list = white;
    }
    valid ← map_err err_init_config (fail_if (validate_lists cfg) cfg)
    ok (populate_pipelines templates valid)
