-- ===== src/Model/Convert/Kept.antt =====
-- What ParseList of pkg/model/model_converter.go keeps of the decoded struct, and what it sets.
use meshsync.Common.{
  sym, String, ◌≡◌, refl, ap, ◌∙◌, true, false, inl, inr, Option, none, some, Option-cases, arith,
  if◌then◌else◌,
}
use meshsync.Broker.{EventType}
use meshsync.Common.Dict.{Dict}
use meshsync.Model.{Value, KubernetesResource, KubernetesResourceObjectMeta}
use meshsync.Model.Service.{process, process_changes_metadata, has_processor}
use meshsync.Model.Convert.{Codec, parse_list, read_object, read_contents, run_processor}

abbrev pub namespace_in : Option KubernetesResourceObjectMeta → String
namespace_in none = ""
namespace_in (some m) = m.namespace

abbrev pub uid_in : Option KubernetesResourceObjectMeta → String
uid_in none = ""
uid_in (some m) = m.uid

-- The fields that tell a resource from others.
pub record SameResource (a b : KubernetesResource) : Type 0 where
  pub kind : a.kind ≡ b.kind
  pub api_version : a.api_version ≡ b.api_version
  pub namespace : namespace_in a.kubernetes_resource_meta ≡ namespace_in b.kubernetes_resource_meta
  pub uid : uid_in a.kubernetes_resource_meta ≡ uid_in b.kubernetes_resource_meta

module _ {Service : Type 0} (c : Codec Service) where
  read_object-SameResource :
      (bytes : String) (r : KubernetesResource)
      → read_object c bytes ≡ some r
      → SameResource r (c.unmarshal bytes)
  unfolding read_object
  read_object-SameResource bytes r h = record {
    kind = ground arith;
    api_version = ground arith;
    namespace = ground arith;
    uid = ground arith;
  }

  only_metadata :
      (r after : KubernetesResource) (m : Dict Value)
      → after ≡ record r { component_metadata = m }
      → after ≡ record r { component_metadata = after.component_metadata }
  only_metadata r after m e =
      e
      ∙ ap (λ k. record r { component_metadata = k })
          (sym (ap (λ (q : KubernetesResource). q.component_metadata) e))

  -- Besides the metadata of a component the processor changes nothing.
  run_processor-rest :
      (bytes : String) (evtype : EventType) (r : KubernetesResource)
      → run_processor c bytes evtype r
        ≡ record r { component_metadata = (run_processor c bytes evtype r).component_metadata }
  unfolding run_processor
  run_processor-rest bytes evtype r =
      let after = (process c.is_request_uri c.unmarshal_service c.get_endpoint bytes evtype r).0 in
      elim (has_processor r.kind)
        as (λ b.
          (if b then after else r)
          ≡ record r { component_metadata = (if b then after else r).component_metadata }) [
            | true ↦ only_metadata r after _ (
                process_changes_metadata c.is_request_uri c.unmarshal_service c.get_endpoint bytes
                  evtype r)
            | false ↦ refl
          ]

  finished :
      (env bytes : String) (evtype : EventType) (cluster_id : String) (r : KubernetesResource)
      → let done = run_processor c bytes evtype (read_contents c env bytes cluster_id r) in
        SameResource done r × (done.cluster_id ≡ cluster_id)
  finished env bytes evtype cluster_id r =
      let rest = run_processor-rest bytes evtype (read_contents c env bytes cluster_id r) in
      (
        record {
          kind = ap (λ (q : KubernetesResource). q.kind) rest ∙ unfold read_contents in refl;
          api_version =
              ap (λ (q : KubernetesResource). q.api_version) rest ∙ unfold read_contents in refl;
          namespace =
              ap (λ (q : KubernetesResource). namespace_in q.kubernetes_resource_meta) rest
              ∙ unfold read_contents in refl;
          uid =
              ap (λ (q : KubernetesResource). uid_in q.kubernetes_resource_meta) rest
              ∙ unfold read_contents in refl;
        },
        ap (λ (q : KubernetesResource). q.cluster_id) rest ∙ unfold read_contents in refl,
      )

  SameResource-trans :
      (x y z : KubernetesResource) → SameResource x y → SameResource y z → SameResource x z
  SameResource-trans x y z h k = record {
    kind = h.kind ∙ k.kind;
    api_version = h.api_version ∙ k.api_version;
    namespace = h.namespace ∙ k.namespace;
    uid = h.uid ∙ k.uid;
  }

  -- A resource that ParseList returns is of the cluster that it is told, and keeps the kind, the API
  -- version, the namespace and the UID that were decoded.
  pub parse_list-SameResource :
      (env bytes : String) (evtype : EventType) (cluster_id : String) (r : KubernetesResource)
      → parse_list c env bytes evtype cluster_id ≡ some r
      → SameResource r (c.unmarshal bytes) × (r.cluster_id ≡ cluster_id)
  unfolding parse_list
  parse_list-SameResource env bytes evtype cluster_id r h =
      elim (Option-cases (read_object c bytes)) [
        | inl none_read ↦ absurd (ground (arith, none_read))
        | inr (q, e) ↦
            let is_done : run_processor c bytes evtype (read_contents c env bytes cluster_id q)
                ≡ r =
              ground (arith, e) in
            let (same, of_cluster) = finished env bytes evtype cluster_id q in
            rw (← is_done) (
              SameResource-trans _ q (c.unmarshal bytes) same (read_object-SameResource bytes q e),
              of_cluster,
            )
      ]
