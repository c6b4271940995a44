-- ===== src/Tests/ConfigTests.antt =====
-- internal/config on concrete watch lists.
use meshsync.Common.{String, ◌≡◌, refl, List, [], ◌∷◌}
use meshsync.Common.Dict.{Dict, lookup}
use meshsync.Errors.{Result, ok}
use meshsync.Config.{PipelineConfig, ResourceConfig, MeshsyncConfig}
use meshsync.Config.Defaults.{default_pipelines, default_events}
use meshsync.Config.WatchList.{is_empty, populate_list, populate_configs_from_map}
use meshsync.Config.WatchList.Populate.{populate_exactly_one, is_ok, differ}
use meshsync.Tests.Fixtures.{pods}

abbrev nodes : PipelineConfig
nodes = record pods { name = "nodes.v1." }

abbrev only_pods : List ResourceConfig
only_pods = record { resource = "pods.v1."; events = "ADDED" ∷ [] } ∷ []

abbrev watching : MeshsyncConfig
watching = record { black_list = []; pipelines = []; listeners = []; white_list = only_pods }

abbrev decode_names : String → Result (List String)
decode_names text = ok (text ∷ [])

abbrev decode_resources : String → Result (List ResourceConfig)
decode_resources text = ok (record { resource = text; events = default_events } ∷ [])

abbrev watch_list : Dict String
watch_list = ("blacklist", "pods.v1.") ∷ []

black_decoded : populate_list decode_names watch_list "blacklist" [] ≡ ok ("pods.v1." ∷ [])
unfolding populate_list lookup
black_decoded = refl

white_missing : populate_list decode_resources watch_list "whitelist" [] ≡ ok []
unfolding populate_list lookup
white_missing = refl

populate_exactly_one_example :
    is_ok (populate_configs_from_map decode_names decode_resources default_pipelines watch_list)
    ≡ differ (is_empty {A = String} ("pods.v1." ∷ [])) (is_empty {A = ResourceConfig} [])
populate_exactly_one_example =
    populate_exactly_one decode_names decode_resources default_pipelines watch_list
      ("pods.v1." ∷ []) [] black_decoded white_missing
