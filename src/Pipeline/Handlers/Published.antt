-- ===== src/Pipeline/Handlers/Published.antt =====
-- When publishItem of internal/pipeline/handlers.go calls the writer.
use meshsync.Common.{
  String, ◌≡◌, refl, ◌∙◌, inl, inr, Bool, true, ◌&&◌, ◌||◌, Bool-cases, Option, none, some, List,
  [], ◌∷◌, ◌++◌, arith, if◌then◌else◌, contains, All, All-append,
}
use meshsync.Errors.{Error}
use meshsync.Broker.{EventType}
use meshsync.Config.{PipelineConfig}
use meshsync.Config.WatchList.{is_empty}
use meshsync.Config.Filtration
use meshsync.Model.{KubernetesResource}
use meshsync.Model.Convert.{Codec, parse_list}
use meshsync.Model.Convert.Kept.{namespace_in, parse_list-SameResource}
use meshsync.Output.{Write, Call}
use meshsync.Pipeline.Handlers.{
  Unstructured, RegisterInformer, check_must_skip, publish_item, publish_parsed, write_unless,
}

-- The namespace passes: no namespaces were asked for, or this is one of them.
abbrev pub passes : RegisterInformer → String → Bool
passes ri namespace =
    is_empty ri.output_filtration.namespace_set
    || Filtration.contains ri.output_filtration.namespace_set namespace

module _ {Service S : Type 0} (c : Codec Service) (env : String) (output_writer : Write S)
    (ri : RegisterInformer) where
  -- Of an object that converts, the converted resource is written exactly if its event is one of
  -- the pipeline's and its namespace passes; otherwise nothing happens and no error is returned.
  pub publish_item_writes :
      (obj : Unstructured) (r : KubernetesResource) (evtype : EventType) (config : PipelineConfig)
      (s : S)
      → parse_list c env obj.bytes evtype ri.cluster_id ≡ some r
      → publish_item c env output_writer ri (some obj) evtype config s
        ≡ some (
            if contains ri.config.events evtype && passes ri obj.namespace
            then output_writer r evtype config s
            else (none, s))
  unfolding publish_item
  publish_item_writes obj r evtype config s h = ground (arith, h)

-- A writer that keeps what it is given.
unfoldable pub log_write : Write (List Call)
log_write obj evtype config calls =
    (none, calls ++ record { obj = obj; evtype = evtype; config = config } ∷ [])

module _ {Service : Type 0} (c : Codec Service) (env : String) (ri : RegisterInformer) where
  -- What may be published: a listed event, of a resource in a namespace that passes, of the
  -- cluster of this program, to the pipeline's subject.
  pub record IsAllowed (d : Call) : Type 0 where
    pub listed : contains ri.config.events d.evtype ≡ true
    pub in_namespace : passes ri (namespace_in d.obj.kubernetes_resource_meta) ≡ true
    pub of_cluster : d.obj.cluster_id ≡ ri.cluster_id
    pub by_config : d.config ≡ ri.config

  -- The object's namespace is the one in its JSON text.
  abbrev pub Decodes : Option Unstructured → Type 0
  Decodes none = Unit {0}
  Decodes (some obj) = namespace_in (c.unmarshal obj.bytes).kubernetes_resource_meta ≡ obj.namespace

  abbrev pub Logged : Option (Option Error × List Call) → Type 0
  Logged none = Unit {0}
  Logged (some (e, calls)) = All IsAllowed calls

  parsed-Logged :
      (obj : Unstructured) (evtype : EventType) (calls : List Call) (o : Option KubernetesResource)
      → Decodes (some obj)
      → contains ri.config.events evtype ≡ true
      → All IsAllowed calls
      → parse_list c env obj.bytes evtype ri.cluster_id ≡ o
      → Logged (
          publish_parsed c env log_write ri o
            (check_must_skip ri (some obj))
            evtype
            ri.config
            calls)
  unfolding publish_parsed
  parsed-Logged obj evtype calls none d l h e = tt
  parsed-Logged obj evtype calls (some r) d l h e =
      let (same, of_cluster) = parse_list-SameResource c env obj.bytes evtype ri.cluster_id r e in
      elim (Bool-cases (check_must_skip ri (some obj))) [
        | inl skip ↦ rw (skip, write_unless) h
        | inr pass ↦
            rw (pass, write_unless)
              (unfold log_write in
                All-append IsAllowed calls _ h (
                  record {
                    listed = l;
                    in_namespace =
                        unfold check_must_skip in rw (same.namespace ∙ d) (ground (arith, pass));
                    of_cluster = of_cluster;
                    by_config = refl;
                  },
                  tt,
                ))
      ]

  pub publish_item-Logged :
      (obj : Option Unstructured) (evtype : EventType) (calls : List Call)
      → Decodes obj
      → All IsAllowed calls
      → Logged (publish_item c env log_write ri obj evtype ri.config calls)
  unfolding publish_item
  publish_item-Logged none evtype calls d h = h
  publish_item-Logged (some obj) evtype calls d h =
      elim (Bool-cases (contains ri.config.events evtype)) [
        | inl l ↦ rw l (parsed-Logged obj evtype calls _ d l h refl)
        | inr l ↦ rw l h
      ]
