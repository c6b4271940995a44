-- ===== src/Startup/Run/Externals.antt =====
-- What Run of pkg/lib/meshsync/meshsync.go asks of other code.
use meshsync.Common.{ℕ, String, Bool, Option, List}
use meshsync.Common.Dict.{Dict}
use meshsync.Errors.{Error, Result}
use meshsync.Config.{ResourceConfig}
use meshsync.Model.{KubernetesResource}
use meshsync.Output.{Message}
use meshsync.Startup.{Attempt}
use meshsync.Startup.Run.Effects.{Stored}

-- The first call of GetMeshsyncCRD answers `crd_at_flag`, the second one `crd_at_config`. The
-- attempts are those that there is time for, by the URL that is asked. `interrupted` is a signal
-- of the operating system.
pub record Env (H C K V B : Type 0) : Type 0 where
  pub new_client : Option String → Result K
  pub crd_at_flag : K → Result (Option (Dict V))
  pub crd_at_config : K → Result (Option (Dict V))
  pub object : V → Option (Dict V)
  pub is_nil : V → Bool
  pub marshal : V → Result String
  pub unmarshal : String → Result (Dict String)
  pub decode_names : String → Result (List String)
  pub decode_resources : String → Result (List ResourceConfig)
  pub new_config : String → Result (Option Stored)
  pub set_object : String → Option Error
  pub broker_url : String
  pub broker_content_dedup : String
  pub parse_bool : String → Result Bool
  pub parse_host : String → Result String
  pub attempts : String → List Attempt
  pub start : ℕ
  pub nats_new : String → Result H
  pub mesh_sync : String
  pub publish : String → Message → B → Option Error × B
  pub marshal_json : KubernetesResource → Result String
  pub sum256 : String → String
  pub marshal_yaml : KubernetesResource → Result String
  pub exists : String → Bool
  pub current_date : String
  pub openable : String → Option Error
  pub disk : String → String → Option Error
  pub cancelled : C → Bool
  pub interrupted : Bool
