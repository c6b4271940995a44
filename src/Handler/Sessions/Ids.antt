-- ===== src/Handler/Sessions/Ids.antt =====
-- Which requests share a session (meshsync/exec.go, meshsync/logstream.go). The name of a pod may
-- have dots; a namespace and the name of a container have none.
use meshsync.Common.{◌≡◌, sym, ◌∙◌}
use meshsync.Common.Text.{HasNo, cut_join, cancel_join, cut_join_last, join_first}
use meshsync.Handler.Sessions.{ExecRequest, LogRequest, exec_id, log_id}

-- If no dot stands in the namespaces and the containers, two requests for logs have one session
-- only if they are for the same container of the same object of the same namespace.
pub log_id-injective :
    (a b : LogRequest)
    → HasNo b'.' a.namespace × HasNo b'.' a.container
    → HasNo b'.' b.namespace × HasNo b'.' b.container
    → log_id a ≡ log_id b
    → (a.namespace ≡ b.namespace) × (a.name ≡ b.name) × (a.container ≡ b.container)
unfolding log_id
log_id-injective a b ha hb e =
    let (namespaces, names_on) =
      cut_join _ _ _ _ _ _ ha.0 hb.0 (cancel_join "logs" a.namespace b.namespace _ _ e) in
    let (names, containers) = cut_join_last _ _ _ _ ha.1 hb.1 names_on in
    (namespaces, names, containers)

-- If no dot stands in the namespaces, the containers and the ids, two exec requests have one
-- session only if they agree in these and in the name.
pub exec_id-injective :
    (a b : ExecRequest)
    → HasNo b'.' a.namespace × HasNo b'.' a.container × HasNo b'.' a.id
    → HasNo b'.' b.namespace × HasNo b'.' b.container × HasNo b'.' b.id
    → exec_id a ≡ exec_id b
    → (a.namespace ≡ b.namespace) × (a.name ≡ b.name) × (a.container ≡ b.container) × (a.id ≡ b.id)
unfolding exec_id
exec_id-injective a b ha hb e =
    let (namespaces, names_on) =
      cut_join _ _ _ _ _ _ ha.0 hb.0 (cancel_join "exec" a.namespace b.namespace _ _ e) in
    let (names_containers, ids) = cut_join_last _ _ _ _ ha.2 hb.2 (
      sym (join_first a.name a.container a.id) ∙ (names_on ∙ join_first b.name b.container b.id)) in
    let (names, containers) = cut_join_last _ _ _ _ ha.1 hb.1 names_containers in
    (namespaces, names, containers, ids)
