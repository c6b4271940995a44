-- ===== src/Model/Convert/Redaction.antt =====
-- Secrets under MESHSYNC_REDACT_SECRETS in ParseList of pkg/model/model_converter.go.
use meshsync.Common.{
  String, ◌≡◌, ◌≢◌, refl, true, false, inl, inr, Option-cases, Option, none, some, arith, List, [],
  ◌∷◌, eq_iff, ◌==◌, sym, ◌∙◌, ap,
}
use mathlib.Core.Path.{subst}
use meshsync.Common.Dict.{Dict, keys}
use meshsync.Broker.{EventType}
use meshsync.Model.{KubernetesResource}
use meshsync.Model.Secrets.{redact_secrets_enabled, redaction_hides_values, secret_kind}
use meshsync.Model.Convert.{
  Codec, parse_list, read_object, read_contents, run_processor, shipped, redacts,
}
use meshsync.Model.Service.{has_processor}

module _ {Service : Type 0} (c : Codec Service) where
  -- Both texts are missing, or both are JSON objects with the same keys.
  abbrev pub SameKeys : Option String → Option String → Type 0
  SameKeys none none = Unit {0}
  SameKeys (some raw) (some raw') =
      (raw ≢ "")
      × (raw' ≢ "")
      × ((kv : Dict String) × (kv' : Dict String) × (c.unmarshal_object raw ≡ some kv)
          × (c.unmarshal_object raw' ≡ some kv')
          × (keys kv ≡ keys kv'))
  SameKeys _ _ = ⊥

  abbrev pub SameText : String → String → List String → Type 0
  SameText bytes bytes' path = c.get bytes path ≡ c.get bytes' path

  abbrev pub SameEntries : String → String → List String → Type 0
  SameEntries bytes bytes' path = c.object_each bytes path ≡ c.object_each bytes' path

  -- The two texts are of one Secret but for the values under its keys: they decode to the same
  -- struct, have the same labels and annotations and the same texts in the other top fields, and
  -- their data, binaryData and stringData have the same keys. Nothing is asked of any other path,
  -- such as that of the whole text or of one value.
  pub record DifferInValues (bytes bytes' : String) : Type 0 where
    pub kind : (c.unmarshal bytes).kind ≡ secret_kind
    pub decoded : c.unmarshal bytes ≡ c.unmarshal bytes'
    pub labels : SameEntries bytes bytes' ("metadata" ∷ "labels" ∷ [])
    pub annotations : SameEntries bytes bytes' ("metadata" ∷ "annotations" ∷ [])
    pub finalizers : SameText bytes bytes' ("metadata" ∷ "finalizers" ∷ [])
    pub owners : SameText bytes bytes' ("metadata" ∷ "ownerReferences" ∷ [])
    pub spec : SameText bytes bytes' ("spec" ∷ [])
    pub status : SameText bytes bytes' ("status" ∷ [])
    pub immutable : SameText bytes bytes' ("immutable" ∷ [])
    pub resource_type : SameText bytes bytes' ("type" ∷ [])
    pub in_data : SameKeys (c.get bytes ("data" ∷ [])) (c.get bytes' ("data" ∷ []))
    pub in_binary_data :
        SameKeys (c.get bytes ("binaryData" ∷ [])) (c.get bytes' ("binaryData" ∷ []))
    pub in_string_data :
        SameKeys (c.get bytes ("stringData" ∷ [])) (c.get bytes' ("stringData" ∷ []))

  read_object-same :
      {bytes bytes' : String}
      → DifferInValues bytes bytes'
      → read_object c bytes ≡ read_object c bytes'
  unfolding read_object
  read_object-same h =
      cc (h.decoded, h.labels, h.annotations, h.finalizers, h.owners, h.spec, h.status)

  read_object-kind :
      (bytes : String) (r : KubernetesResource)
      → read_object c bytes ≡ some r
      → r.kind ≡ (c.unmarshal bytes).kind
  unfolding read_object
  read_object-kind bytes r h = ground arith

  module _
      (marshal_total : (kv : Dict String) → (out : String) × (c.marshal_texts kv ≡ some out)) where
    shipped_same :
        (old : String) (o o' : Option String)
        → SameKeys o o'
        → shipped c true old o ≡ shipped c true old o'
    unfolding shipped
    shipped_same old none none h = refl
    shipped_same old none (some r) h = absurd h
    shipped_same old (some r) none h = absurd h
    shipped_same old (some raw) (some raw') (n, n', (kv, kv', d, d', k)) =
        redaction_hides_values c.unmarshal_object c.marshal_texts marshal_total raw raw' kv kv' n n'
          d d' k

    read_contents-same :
        {bytes bytes' : String} (env cluster_id : String) (r : KubernetesResource)
        → DifferInValues bytes bytes'
        → redacts c env r.kind ≡ true
        → read_contents c env bytes cluster_id r ≡ read_contents c env bytes' cluster_id r
    unfolding read_contents
    read_contents-same {bytes} {bytes'} env cluster_id r h on = rw on (
        cc (
          h.immutable,
          h.resource_type,
          shipped_same r.raw_data _ _ h.in_data,
          shipped_same r.binary_data _ _ h.in_binary_data,
          shipped_same r.string_data _ _ h.in_string_data,
        ))

    not_service :
        (bytes : String) (evtype : EventType) (r : KubernetesResource)
        → r.kind ≡ secret_kind
        → run_processor c bytes evtype r ≡ r
    unfolding run_processor has_processor
    not_service bytes evtype r k =
        let no_processor : (r.kind == "Service") ≡ false =
          subst (λ k. (k == "Service") ≡ false) (sym k) refl in
        ground (arith, no_processor)

    finish-same :
        {bytes bytes' : String} (env cluster_id : String) (evtype : EventType)
        (r : KubernetesResource)
        → redact_secrets_enabled env ≡ true
        → DifferInValues bytes bytes'
        → r.kind ≡ secret_kind
        → run_processor c bytes evtype (read_contents c env bytes cluster_id r)
          ≡ run_processor c bytes' evtype (read_contents c env bytes' cluster_id r)
    unfolding run_processor
    finish-same {bytes} {bytes'} env cluster_id evtype r on h k =
        not_service bytes evtype (read_contents c env bytes cluster_id r)
          (unfold read_contents in k)
        ∙ (read_contents-same env cluster_id r h
              (unfold redacts in ground (arith, eq_iff r.kind secret_kind))
            ∙ sym (
                not_service bytes' evtype (read_contents c env bytes' cluster_id r)
                  (unfold read_contents in k)))

    -- With redaction on, and if maps of texts always encode: what is published of a Secret is the
    -- same for two texts of it that have the same keys in data, binaryData and stringData, whatever
    -- the values, and agree in the other parts that are read, the annotations included.
    pub parse_list_hides_values :
        (env bytes bytes' : String) (evtype : EventType) (cluster_id : String)
        → redact_secrets_enabled env ≡ true
        → DifferInValues bytes bytes'
        → parse_list c env bytes evtype cluster_id ≡ parse_list c env bytes' evtype cluster_id
    unfolding parse_list
    parse_list_hides_values env bytes bytes' evtype cluster_id on h =
        elim (Option-cases (read_object c bytes)) [
          | inl e ↦ rw (← read_object-same h, e) refl
          | inr (r, e) ↦
              rw (← read_object-same h, e)
                (ap some
                  (finish-same env cluster_id evtype r on h (read_object-kind bytes r e ∙ h.kind)))
        ]
