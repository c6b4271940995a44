-- ===== src/Config/CustomResource.antt =====
-- internal/config/crd_config.go and internal/config/config_local.go: where the watch list comes from.
-- A value of a decoded object has the type `V`: `object` is the type assertion to a map, and a
-- missing key reads as nil.
use meshsync.Common.{String, Bool, Option, none, some, List, [], ◌∷◌, map, if◌then◌else◌}
use meshsync.Common.Dict.{Dict, lookup}
use meshsync.Common.Text.{concat, join}
use meshsync.Errors.{message, Result, ◌>>=◌, or_error, map_err}
use meshsync.Config.{PipelineConfigs, ResourceConfig, MeshsyncConfig, err_init_config}
use meshsync.Config.WatchList.{populate_configs_from_map}

abbrev local_resources : List String
local_resources =
    "grafanas.v1beta1.grafana.integreatly.org" ∷ "prometheuses.v1.monitoring.coreos.com"
    ∷ "namespaces.v1." ∷ "configmaps.v1." ∷ "nodes.v1." ∷ "secrets.v1." ∷ "persistentvolumes.v1."
    ∷ "persistentvolumeclaims.v1." ∷ "replicasets.v1.apps" ∷ "pods.v1." ∷ "services.v1."
    ∷ "deployments.v1.apps" ∷ "statefulsets.v1.apps" ∷ "daemonsets.v1.apps"
    ∷ "ingresses.v1.networking.k8s.io" ∷ "endpoints.v1." ∷ "endpointslices.v1.discovery.k8s.io"
    ∷ "cronjobs.v1.batch" ∷ "replicationcontrollers.v1." ∷ "storageclasses.v1.storage.k8s.io"
    ∷ "clusterroles.v1.rbac.authorization.k8s.io" ∷ "volumeattachments.v1.storage.k8s.io"
    ∷ "apiservices.v1.apiregistration.k8s.io" ∷ []

abbrev local_entry : String → String
local_entry name =
    concat ("{\"Resource\":\"" ∷ name ∷ "\",\"Events\":[\"ADDED\",\"MODIFIED\",\"DELETED\"]}" ∷ [])

-- The text of JSON, entry by entry.
unfoldable pub local_meshsync_config : Dict String
local_meshsync_config =
    ("whitelist", concat ("[" ∷ join "," (map local_entry local_resources) ∷ "]" ∷ [])) ∷ []

module _ {V : Type 0} (object : V → Option (Dict V)) (is_nil : V → Bool)
    (marshal : V → Result String) (unmarshal : String → Result (Dict String))
    (decode_names : String → Result (List String))
    (decode_resources : String → Result (List ResourceConfig)) where
  object_if_any : Option V → Option (Dict V)
  object_if_any none = none
  object_if_any (some v) = object v

  non_nil : Option V → Option V
  non_nil none = none
  non_nil (some v) = if is_nil v then none else some v

  watch_list_of : Dict V → Result V
  unfolding object_if_any non_nil
  watch_list_of crd = do
    spec_map ←
        or_error (object_if_any (lookup crd "spec")) (message "unable to convert spec to map")
    or_error (non_nil (lookup spec_map "watch-list"))
        (message "custom Resource does not have Meshsync Configs")

  -- `crd` is what GetMeshsyncCRD returns: a resource that may be nil, or an error.
  unfoldable pub get_meshsync_crd_configs :
      Dict PipelineConfigs → Result (Option (Dict V)) → Result MeshsyncConfig
  unfolding watch_list_of
  get_meshsync_crd_configs templates crd = map_err err_init_config (do
    crd_or_nil ← crd
    found ← or_error crd_or_nil (message "custom Resource is nil")
    config_obj ← watch_list_of found
    config_str ← marshal config_obj
    config_map_data ← unmarshal config_str
    populate_configs_from_map decode_names decode_resources templates config_map_data)

  unfoldable pub get_meshsync_crd_configs_local : Dict PipelineConfigs → Result MeshsyncConfig
  get_meshsync_crd_configs_local templates =
      populate_configs_from_map decode_names decode_resources templates local_meshsync_config
