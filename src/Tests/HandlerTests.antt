-- ===== src/Tests/HandlerTests.antt =====
-- meshsync/ on concrete events and requests.
use meshsync.Common.{
  ◌++◌, ◌≤◌, String, ◌≡◌, ◌≢◌, ◌↔◌, refl, Bool, true, false, Option, none, some, List, [], ◌∷◌, All,
}
use meshsync.Common.Dict.{Dict, has}
use meshsync.Common.Text.{HasNo}
use meshsync.Errors.{Error, message, Result, ok}
use meshsync.Config.{PipelineConfigs, global_resource_key}
use meshsync.Config.Pipelines.{contains, IsUnique}
use meshsync.Pipeline.Steps.{GroupVersionResource}
use meshsync.Handler.CrdWatch
use meshsync.Handler.CrdWatch.{Crd, next_pipelines}
use meshsync.Handler.CrdWatch.Membership.{crd_event_membership, pipelines_after, watched_after}
use meshsync.Handler.CrdWatch.Loop.{Round, watch_crds, iterations}
use meshsync.Handler.CrdWatch.Reconnect.{listing, on_event, reconnects_settle}
use meshsync.Handler.CrdWatch.Relist.{relist_changes_nothing, list_all}
use meshsync.Handler.Backoff.{
  Iteration, second, watch_crds_base_delay, watch_crds_max_delay, delays,
}
use meshsync.Handler.Backoff.Bounds.{delays_bounded, DrawsBelow}
use meshsync.Handler.Sessions.{State, ExecRequest, exec_requests}
use meshsync.Handler.Sessions.Running.{
  sessions-IsExact, IsExact, starts, steps, exec_requested, at_start,
}
use meshsync.Tests.Fixtures.{pods}

pods-IsUnique : IsUnique (pods ∷ [])
unfolding contains
pods-IsUnique = (refl, tt)

crd_event_membership_example :
    (contains (pipelines_after CrdWatch.added "certs.v1.acme.io" (pods ∷ [])) "certs.v1.acme.io"
      ≡ watched_after CrdWatch.added "certs.v1.acme.io" (pods ∷ []) "certs.v1.acme.io")
    × IsUnique (pipelines_after CrdWatch.added "certs.v1.acme.io" (pods ∷ []))
    × ((has (next_pipelines CrdWatch.added "certs.v1.acme.io" (pods ∷ [])) ≡ true) ↔ (
        contains (pipelines_after CrdWatch.added "certs.v1.acme.io" (pods ∷ [])) "certs.v1.acme.io"
        ≢ contains (pods ∷ []) "certs.v1.acme.io"))
crd_event_membership_example =
    crd_event_membership CrdWatch.added "certs.v1.acme.io" "certs.v1.acme.io" (pods ∷ [])
      pods-IsUnique

certs_unwatched : contains (pods ∷ []) "certs.v1.acme.io" ≡ false
unfolding contains
certs_unwatched = refl

-- A configuration that is the pipelines themselves.
abbrev Stored : Type 0
Stored = Dict PipelineConfigs

abbrev get_object : Stored → Result Stored
get_object s = ok s

abbrev set_object : Stored → Stored → Option Error × Stored
set_object s m = (none, m)

abbrev text_of : String → Result String
text_of name = ok name

abbrev parse_crd : String → Result Crd
parse_crd name = ok (record { group = "acme.io"; resource_name = name; versions = "v1" ∷ [] })

abbrev get_gvr : Crd → Option GroupVersionResource
get_gvr crd = some (record { group = crd.group; version = "v1"; resource = crd.resource_name })

abbrev watching_pods : CrdWatch.State Stored
watching_pods = record { config = (global_resource_key, pods ∷ []) ∷ []; resyncs = 0 }

abbrev relist : List String → CrdWatch.State Stored → CrdWatch.State Stored
relist = list_all get_object set_object (λ s m. refl) (λ s m. refl) text_of parse_crd get_gvr

relist_changes_nothing_example :
    relist ("certs" ∷ "issuers" ∷ []) (relist ("certs" ∷ "issuers" ∷ []) watching_pods)
    ≡ relist ("certs" ∷ "issuers" ∷ []) watching_pods
relist_changes_nothing_example =
    relist_changes_nothing get_object set_object (λ s m. refl) (λ s m. refl) text_of parse_crd
      get_gvr ("certs" ∷ "issuers" ∷ []) watching_pods

abbrev refused : Iteration
refused = record { error = some (message "refused"); lasted = 0; draw = λ n. 0 }

refused_draws : DrawsBelow refused
refused_draws n h = h

delays_bounded_example :
    All
      (λ d. (second ≤ d) × (d ≤ watch_crds_max_delay))
      (delays watch_crds_base_delay (refused ∷ refused ∷ []))
delays_bounded_example =
    delays_bounded (refused ∷ refused ∷ []) (refused_draws, (refused_draws, tt))

abbrev shell : Bool → ExecRequest
shell stop = record { id = "7"; name = "web-0"; namespace = "shop"; container = "app"; stop = stop }

abbrev one_session : State
one_session = exec_requests (shell false ∷ shell false ∷ []) at_start

sessions-IsExact_example : IsExact one_session.sessions one_session.running
sessions-IsExact_example =
    sessions-IsExact one_session
      (steps at_start one_session starts (exec_requested (shell false ∷ shell false ∷ []) at_start))

no_dots_in_shop : HasNo b'.' "shop"
no_dots_in_shop = (refl, (refl, (refl, (refl, tt))))

no_dots_in_app : HasNo b'.' "app"
no_dots_in_app = (refl, (refl, (refl, tt)))

abbrev two_crds : List String
two_crds = "certs" ∷ "issuers" ∷ []

abbrev listed : Bool → Round (String × Option String)
listed stops = record { watch = ok (listing two_crds); lasted = 0; draw = λ n. 0; stopped = stops }

reconnects_settle_example :
    watch_crds
      (on_event get_object set_object (λ s m. refl) (λ s m. refl) text_of parse_crd get_gvr)
      watch_crds_base_delay
      (listed false ∷ listed false ∷ [] ++ listed true ∷ [])
      watching_pods
    ≡ some (
      delays watch_crds_base_delay
          (iterations (listed false ∷ listed false ∷ [] ++ listed true ∷ [])),
      relist two_crds watching_pods,
    )
reconnects_settle_example =
    reconnects_settle get_object set_object (λ s m. refl) (λ s m. refl) text_of parse_crd get_gvr
      watch_crds_base_delay two_crds (listed false ∷ listed false ∷ []) (listed true) []
      watching_pods ((refl, refl), ((refl, refl), tt)) refl refl
