-- ===== src/Model/Identity.antt =====
-- SetID and IsObject of pkg/model/model_converter.go, and the hooks of pkg/model/model.go, which
-- only call SetID. The base64 encoding is an argument. `fresh n` is the text of the n-th UUID made;
-- the counter is threaded through.
pub mod Laws
use meshsync.Common.{ℕ, ◌+◌, String, Bool, true, false, List, [], ◌∷◌, Option, none, some}
use meshsync.Common.Text.{join}
use meshsync.Model.{
  KubernetesKeyValue, KubernetesResourceObjectMeta, KubernetesResourceSpec,
  KubernetesResourceStatus, KubernetesResource,
}

unfoldable pub is_object : KubernetesResource → Bool
is_object obj = elim obj.kubernetes_resource_meta [ none ↦ false | some m ↦ true ]

-- The text that is encoded, for an object with the metadata `m`.
unfoldable pub identity : KubernetesResource → KubernetesResourceObjectMeta → String
identity obj m = join "." (obj.cluster_id ∷ obj.kind ∷ obj.api_version ∷ m.namespace ∷ m.name ∷ [])

with_spec_id : String → Option KubernetesResourceSpec → Option KubernetesResourceSpec
with_spec_id id none = none
with_spec_id id (some s) = some (record s { id = id })

with_status_id : String → Option KubernetesResourceStatus → Option KubernetesResourceStatus
with_status_id id none = none
with_status_id id (some s) = some (record s { id = id })

module _ (encode : String → String) (fresh : ℕ → String) where
  unfoldable pub stamp : String → ℕ → List KubernetesKeyValue → List KubernetesKeyValue × ℕ
  stamp id n [] = ([], n)
  stamp id n (kv ∷ kvs) =
      let (rest, n') = stamp id (n + 1) kvs in
      (record kv { id = id; unique_id = fresh n } ∷ rest, n')

  set_id_meta :
      KubernetesResource → Option KubernetesResourceObjectMeta → ℕ → KubernetesResource × ℕ
  unfolding stamp identity with_spec_id with_status_id
  set_id_meta obj none n = (obj, n)
  set_id_meta obj (some m) n =
      let id = encode (identity obj m) in
      let (labels, n₁) = stamp id n m.labels in
      let (annotations, n₂) = stamp id n₁ m.annotations in
      (
        record obj {
          id = id;
          kubernetes_resource_meta =
              some (record m { id = id; labels = labels; annotations = annotations });
          spec = with_spec_id id obj.spec;
          status = with_status_id id obj.status;
        },
        n₂,
      )

  -- An object without metadata is left alone.
  unfoldable pub set_id : KubernetesResource → ℕ → KubernetesResource × ℕ
  unfolding set_id_meta
  set_id obj n = set_id_meta obj obj.kubernetes_resource_meta n
