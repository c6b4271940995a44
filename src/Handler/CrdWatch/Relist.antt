-- ===== src/Handler/CrdWatch/Relist.antt =====
-- A CRD watch that is established again lists every existing CRD as ADDED once more
-- (meshsync/handlers.go).
use meshsync.Common.{
  String, ◌≡◌, refl, ap, sym, ◌∙◌, true, Option, none, some, List, [], ◌∷◌, arith, All, eq_refl,
}
use mathlib.Core.Path.{subst}
use meshsync.Common.Dict.{Dict}
use meshsync.Errors.{Error, Result, ok, err}
use meshsync.Config.{PipelineConfigs}
use meshsync.Pipeline.Steps.{GroupVersionResource}
use meshsync.Handler.CrdWatch.Updates.{settled, next-settled, settled-update, config-resync}
use meshsync.Handler.CrdWatch.{
  update_if_parsed, State, Crd, added, pipeline_name, tmp_get_gvr_for_custom_resources,
  update_pipeline_config, update_if_any, handle_crd_event, parse_crd_event,
}

module _ {S : Type 0} (get_object : S → Result (Dict PipelineConfigs))
    (set_object : S → Dict PipelineConfigs → Option Error × S)
    (never_fails : (s : S) (m : Dict PipelineConfigs) → (set_object s m).0 ≡ none)
    (reads_back : (s : S) (m : Dict PipelineConfigs) → get_object (set_object s m).1 ≡ ok m) where
  module _ {O : Type 0} (marshal : O → Result String) (unmarshal : String → Result Crd)
      (get_gvr : Crd → Option GroupVersionResource) where
    abbrev pub handle : String × Option O → State S → State S
    handle = handle_crd_event get_object set_object marshal unmarshal get_gvr

    -- The listing of the objects, each as an ADDED event.
    abbrev pub list_all : List O → State S → State S
    list_all [] h = h
    list_all (o ∷ os) h = list_all os (handle (added, some o) h)

    gvr_of : Result Crd → Option GroupVersionResource
    gvr_of (err e) = none
    gvr_of (ok crd) = tmp_get_gvr_for_custom_resources get_gvr crd

    abbrev target : O → Option GroupVersionResource
    target o = gvr_of (parse_crd_event marshal unmarshal o)

    Settled : S → Option GroupVersionResource → Type 0
    Settled s none = Unit {0}
    Settled s (some gvr) =
        settled get_object set_object never_fails reads_back (get_object s) (pipeline_name gvr)
        ≡ true

    parsed-target :
        (r : Result Crd) (h : State S)
        → update_if_parsed get_object set_object get_gvr added r h
          ≡ update_if_any get_object set_object added (gvr_of r) h
    unfolding update_if_parsed gvr_of update_if_any
    parsed-target (err e) h = refl
    parsed-target (ok crd) h = refl

    handle-target :
        (o : O) (h : State S)
        → handle (added, some o) h ≡ update_if_any get_object set_object added (target o) h
    unfolding handle_crd_event
    handle-target o h = parsed-target (parse_crd_event marshal unmarshal o) h

    update-Settled :
        (g : Option GroupVersionResource) (h : State S)
        → Settled h.config g
        → update_if_any get_object set_object added g h ≡ h
    unfolding update_if_any Settled settled
    update-Settled none h z = refl
    update-Settled (some gvr) h z =
        next-settled get_object set_object never_fails reads_back h.config gvr h.resyncs z

    becomes_Settled :
        (g : Option GroupVersionResource) (h : State S)
        → Settled (update_if_any get_object set_object added g h).config g
    unfolding update_if_any Settled settled
    becomes_Settled none h = tt
    becomes_Settled (some gvr) h =
        ap
          (λ s.
            settled get_object set_object never_fails reads_back (get_object s) (pipeline_name gvr))
          (config-resync get_object set_object never_fails reads_back h.resyncs
            (update_pipeline_config get_object set_object added gvr h.config))
        ∙ (settled-update get_object set_object never_fails reads_back h.config gvr
              (pipeline_name gvr)
            ∙ ground (arith, eq_refl (pipeline_name gvr)))

    stays_Settled :
        (g g' : Option GroupVersionResource) (h : State S)
        → Settled h.config g'
        → Settled (update_if_any get_object set_object added g h).config g'
    unfolding update_if_any Settled settled
    stays_Settled g none h z = tt
    stays_Settled none (some gvr') h z = z
    stays_Settled (some gvr) (some gvr') h z =
        ap
          (λ s.
            settled get_object set_object never_fails reads_back (get_object s)
              (pipeline_name gvr'))
          (config-resync get_object set_object never_fails reads_back h.resyncs
            (update_pipeline_config get_object set_object added gvr h.config))
        ∙ (settled-update get_object set_object never_fails reads_back h.config gvr
              (pipeline_name gvr')
            ∙ ground (arith, z))

    list_all-Settled :
        (os : List O) (h : State S) (g : Option GroupVersionResource)
        → Settled h.config g
        → Settled (list_all os h).config g
    list_all-Settled [] h g z = z
    list_all-Settled (o ∷ os) h g z = list_all-Settled os (handle (added, some o) h) g (
        subst (λ (k : State S). Settled k.config g) (sym (handle-target o h))
          (stays_Settled (target o) g h z))

    All-Settled :
        (os : List O) (h : State S) → All (λ o. Settled (list_all os h).config (target o)) os
    All-Settled [] h = tt
    All-Settled (o ∷ os) h = (
      list_all-Settled os (handle (added, some o) h) (target o) (
          subst (λ (k : State S). Settled k.config (target o)) (sym (handle-target o h))
            (becomes_Settled (target o) h)),
      All-Settled os (handle (added, some o) h),
    )

    unchanged :
        (os : List O) (h : State S) → All (λ o. Settled h.config (target o)) os → list_all os h ≡ h
    unchanged [] h z = refl
    unchanged (o ∷ os) h z =
        ap (list_all os) (handle-target o h ∙ update-Settled (target o) h z.0) ∙ unchanged os h z.1

    -- If writing the configuration never fails and reads back, a second listing of the same CRDs
    -- leaves the handler as the first one did: no pipeline is added, and no resync is requested.
    pub relist_changes_nothing :
        (os : List O) (h : State S) → list_all os (list_all os h) ≡ list_all os h
    relist_changes_nothing os h = unchanged os (list_all os h) (All-Settled os h)
