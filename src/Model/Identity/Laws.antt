-- ===== src/Model/Identity/Laws.antt =====
-- What SetID of pkg/model/model_converter.go assigns, and when two resources get one id.
use meshsync.Common.{
  ℕ, zero, suc, ◌+◌, String, ◌≡◌, refl, ap, sym, ◌∙◌, List, [], ◌∷◌, ◌++◌, Option, none, some, map,
  arith, All, length,
}
use meshsync.Common.Text.{join, HasNo, cut_join, cancel_join}
use meshsync.Model.{
  KubernetesKeyValue, KubernetesResourceObjectMeta, KubernetesResourceSpec,
  KubernetesResourceStatus, KubernetesResource,
}
use meshsync.Model.Identity.{identity, stamp, with_spec_id, with_status_id, set_id, set_id_meta}
use mathlib.Core.Path.{subst, ap₂}
use mathlib.Core.List.{map-append}
use native.Mathlib.Nat.{add-zero, zero-add, add-suc, suc-add}
use native.Mathlib.Numerals.{add-one}

abbrev IfSome {ℓ} : {A : Type ℓ} → (A → Type 0) → Option A → Type 0
IfSome P none = Unit {0}
IfSome P (some a) = P a

-- Every part of a resource that carries an id carries this one.
pub record CarriesId (id : String) (obj : KubernetesResource) : Type 0 where
  pub of_object : obj.id ≡ id
  pub of_meta :
      IfSome
        (λ m. (m.id ≡ id) × All (λ kv. kv.id ≡ id) m.labels × All (λ kv. kv.id ≡ id) m.annotations)
        obj.kubernetes_resource_meta
  pub of_spec : IfSome (λ s. s.id ≡ id) obj.spec
  pub of_status : IfSome (λ s. s.id ≡ id) obj.status

-- The UUIDs from the n-th on, k of them.
abbrev pub issued : (ℕ → String) → ℕ → ℕ → List String
issued fresh n zero = []
issued fresh n (suc k) = fresh n ∷ issued fresh (n + 1) k

issued-append :
    (fresh : ℕ → String) (n j k : ℕ)
    → issued fresh n j ++ issued fresh (n + j) k ≡ issued fresh n (j + k)
issued-append fresh n zero k = rw (add-zero, zero-add)
issued-append fresh n (suc j) k =
    rw (add-suc n j, suc-add j k)
      (rw (← suc-add n j, ← add-one n) (ap (◌∷◌ (fresh n)) (issued-append fresh (n + 1) j k)))

abbrev pub unique_ids : List KubernetesKeyValue → List String
unique_ids = map (λ kv. kv.unique_id)

module _ (encode : String → String) (fresh : ℕ → String) where
  stamp-ids :
      (id : String) (n : ℕ) (kvs : List KubernetesKeyValue)
      → All (λ kv. kv.id ≡ id) (stamp encode fresh id n kvs).0
  unfolding stamp
  stamp-ids id n [] = tt
  stamp-ids id n (kv ∷ kvs) = (refl, stamp-ids id (n + 1) kvs)

  stamp-issued :
      (id : String) (n : ℕ) (kvs : List KubernetesKeyValue)
      → (unique_ids (stamp encode fresh id n kvs).0 ≡ issued fresh n (length kvs))
        × ((stamp encode fresh id n kvs).1 ≡ n + length kvs)
  unfolding stamp
  stamp-issued id n [] = (refl, omega arith)
  stamp-issued id n (kv ∷ kvs) =
      let (ids, count) = stamp-issued id (n + 1) kvs in (ap (◌∷◌ (fresh n)) ids, omega arith)

  of_spec_id :
      (id : String) (o : Option KubernetesResourceSpec)
      → IfSome (λ s. s.id ≡ id) (with_spec_id id o)
  unfolding with_spec_id
  of_spec_id id none = tt
  of_spec_id id (some s) = refl

  of_status_id :
      (id : String) (o : Option KubernetesResourceStatus)
      → IfSome (λ s. s.id ≡ id) (with_status_id id o)
  unfolding with_status_id
  of_status_id id none = tt
  of_status_id id (some s) = refl

  -- The resource that SetID makes of one with the metadata `m`.
  abbrev stamped : KubernetesResource → KubernetesResourceObjectMeta → ℕ → KubernetesResource × ℕ
  stamped obj m n = set_id_meta encode fresh obj (some m) n

  stamped-CarriesId :
      (obj : KubernetesResource) (m : KubernetesResourceObjectMeta) (n : ℕ)
      → CarriesId (encode (identity obj m)) (stamped obj m n).0
  unfolding set_id_meta
  stamped-CarriesId obj m n =
      let id = encode (identity obj m) in
      record {
        of_object = refl;
        of_meta = (
          refl,
          stamp-ids id n m.labels,
          stamp-ids id (stamp encode fresh id n m.labels).1 m.annotations,
        );
        of_spec = of_spec_id id obj.spec;
        of_status = of_status_id id obj.status;
      }

  -- An object with metadata gets the encoded identity as its id, and so does every part of it
  -- that has an id: the metadata, each label and annotation, the spec and the status.
  pub set_id-CarriesId :
      (obj : KubernetesResource) (m : KubernetesResourceObjectMeta) (n : ℕ)
      → obj.kubernetes_resource_meta ≡ some m
      → CarriesId (encode (identity obj m)) (set_id encode fresh obj n).0
  unfolding set_id
  set_id-CarriesId obj m n h =
      subst (λ o. CarriesId (encode (identity obj m)) (set_id_meta encode fresh obj o n).0) (sym h)
        (stamped-CarriesId obj m n)

  abbrev pub key_values : Option KubernetesResourceObjectMeta → List KubernetesKeyValue
  key_values none = []
  key_values (some m) = m.labels ++ m.annotations

  stamped-issued :
      (obj : KubernetesResource) (m : KubernetesResourceObjectMeta) (n : ℕ)
      → (unique_ids (key_values (stamped obj m n).0.kubernetes_resource_meta)
          ≡ issued fresh n (length m.labels + length m.annotations))
        × ((stamped obj m n).1 ≡ n + (length m.labels + length m.annotations))
  unfolding set_id_meta
  stamped-issued obj m n =
      let id = encode (identity obj m) in
      let (labels, after_labels) = stamp-issued id n m.labels in
      let (annotations, after_annotations) =
        stamp-issued id (stamp encode fresh id n m.labels).1 m.annotations in
      (
        map-append _ (stamp encode fresh id n m.labels).0 _
            ∙ (ap₂ ◌++◌ labels
                  (annotations ∙ ap (λ k. issued fresh k (length m.annotations)) after_labels)
                ∙ issued-append fresh n (length m.labels) (length m.annotations)),
        omega (arith, after_labels, after_annotations),
      )

  -- The unique ids of the labels and annotations of an object are the next UUIDs, one for each, in
  -- order; the counter moves on by as many.
  pub set_id-issued :
      (obj : KubernetesResource) (m : KubernetesResourceObjectMeta) (n : ℕ)
      → obj.kubernetes_resource_meta ≡ some m
      → (unique_ids (key_values (set_id encode fresh obj n).0.kubernetes_resource_meta)
          ≡ issued fresh n (length m.labels + length m.annotations))
        × ((set_id encode fresh obj n).1 ≡ n + (length m.labels + length m.annotations))
  unfolding set_id
  set_id-issued obj m n h =
      subst
        (λ o.
          (unique_ids (key_values (set_id_meta encode fresh obj o n).0.kubernetes_resource_meta)
            ≡ issued fresh n (length m.labels + length m.annotations))
          × ((set_id_meta encode fresh obj o n).1 ≡ n + (length m.labels + length m.annotations)))
        (sym h) (stamped-issued obj m n)

module _ (encode : String → String)
    (encode_injective : (s t : String) → encode s ≡ encode t → s ≡ t) where
  -- If the encoding loses nothing, and no dot stands in a cluster's id, a kind or a namespace,
  -- then two resources of one API version get one id only if these three and their names agree.
  pub identity_injective :
      (a b : KubernetesResource) (m k : KubernetesResourceObjectMeta)
      → a.api_version ≡ b.api_version
      → HasNo b'.' a.cluster_id × HasNo b'.' a.kind × HasNo b'.' m.namespace
      → HasNo b'.' b.cluster_id × HasNo b'.' b.kind × HasNo b'.' k.namespace
      → encode (identity a m) ≡ encode (identity b k)
      → (a.cluster_id ≡ b.cluster_id)
        × (a.kind ≡ b.kind)
        × (m.namespace ≡ k.namespace)
        × (m.name ≡ k.name)
  unfolding identity
  identity_injective a b m k version ha hb e =
      let (clusters, kinds_on) = cut_join _ _ _ _ _ _ ha.0 hb.0 (encode_injective _ _ e) in
      let (kinds, versions_on) = cut_join _ _ _ _ _ _ ha.1 hb.1 kinds_on in
      let names_on = cancel_join b.api_version m.namespace k.namespace _ _ (
        subst
          (λ v.
            join "." (v ∷ m.namespace ∷ m.name ∷ [])
            ≡ join "." (b.api_version ∷ k.namespace ∷ k.name ∷ []))
          version versions_on) in
      let (namespaces, names) = cut_join _ _ _ _ _ _ ha.2 hb.2 names_on in
      (clusters, kinds, namespaces, unfold join in names)
