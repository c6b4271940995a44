-- ===== src/Handler/CrdWatch/Updates.antt =====
-- What updatePipelineConfig (meshsync/handlers.go) does on an ADDED event.
use meshsync.Common.{
  ◌⊎◌, inl, inr, Bool-cases, ℕ, String, ◌≡◌, refl, ap, sym, ◌∙◌, Bool, true, false, ◌||◌, Option,
  none, some, arith, ◌==◌, eq_iff, eq_refl,
}
use meshsync.Common.Dict.{Dict, insert, lookup-insert}
use meshsync.Errors.{Error, Result, ok, err}
use meshsync.Config.{PipelineConfigs, global_resource_key}
use meshsync.Config.Pipelines
use meshsync.Config.Pipelines.{contains, contains-add}
use meshsync.Config.WatchList.{pipelines_at}
use meshsync.Pipeline.Steps.{GroupVersionResource}
use meshsync.Handler.CrdWatch.{
  added, pipeline_name, registered, next_pipelines, update_pipeline_config, persist,
  resync_if_changed,
}

Result-cases {ℓ} :
    {A : Type ℓ} (r : Result A) → ((e : Error) × (r ≡ err e)) ⊎ ((a : A) × (r ≡ ok a))
Result-cases (ok a) = inr (a, refl)
Result-cases (err e) = inl (e, refl)

pub pipelines_at-insert :
    (m : Dict PipelineConfigs) (key : String) (p : PipelineConfigs)
    → pipelines_at (insert m key p) key ≡ p
unfolding pipelines_at
pipelines_at-insert m key p = ground (arith, lookup-insert m key key p, eq_refl key)

module _ {S : Type 0} (get_object : S → Result (Dict PipelineConfigs))
    (set_object : S → Dict PipelineConfigs → Option Error × S)
    (never_fails : (s : S) (m : Dict PipelineConfigs) → (set_object s m).0 ≡ none)
    (reads_back : (s : S) (m : Dict PipelineConfigs) → get_object (set_object s m).1 ≡ ok m) where
  -- Nothing is left to add for this name.
  unfoldable pub settled : Result (Dict PipelineConfigs) → String → Bool
  settled (err e) name = true
  settled (ok m) name = contains (pipelines_at m global_resource_key) name

  pub next-settled :
      (s : S) (gvr : GroupVersionResource) (n : ℕ)
      → settled (get_object s) (pipeline_name gvr) ≡ true
      → resync_if_changed get_object set_object n
          (update_pipeline_config get_object set_object added gvr s)
        ≡ record { config = s; resyncs = n }
  unfolding settled resync_if_changed update_pipeline_config persist next_pipelines
  next-settled s gvr n h = ground arith

  persist-some :
      (s : S) (existing : Dict PipelineConfigs) (p : PipelineConfigs)
      → persist get_object set_object s existing (some p)
        ≡ (ok true, (set_object s (insert existing global_resource_key p)).1)
  unfolding persist
  persist-some s existing p = ground (arith, never_fails s (insert existing global_resource_key p))

  update-err :
      (event_type : String) (gvr : GroupVersionResource) (s : S) (e : Error)
      → get_object s ≡ err e
      → update_pipeline_config get_object set_object event_type gvr s ≡ (err e, s)
  unfolding update_pipeline_config
  update-err event_type gvr s e h = rw (h, update_pipeline_config) refl

  update-ok :
      (event_type : String) (gvr : GroupVersionResource) (s : S) (m : Dict PipelineConfigs)
      → get_object s ≡ ok m
      → update_pipeline_config get_object set_object event_type gvr s
        ≡ persist get_object set_object s m
            (next_pipelines event_type (pipeline_name gvr) (pipelines_at m global_resource_key))
  unfolding update_pipeline_config
  update-ok event_type gvr s m h = rw (h, update_pipeline_config) refl

  settled-persist :
      (s : S) (existing : Dict PipelineConfigs) (p : PipelineConfigs) (name : String)
      → settled (get_object (persist get_object set_object s existing (some p)).1) name
        ≡ contains p name
  unfolding settled
  settled-persist s existing p name =
      ap (λ (r : Result Bool × S). settled (get_object r.1) name) (persist-some s existing p)
      ∙ (ap (λ r. settled r name) (reads_back s (insert existing global_resource_key p))
          ∙ ap (λ q. contains q name) (pipelines_at-insert existing global_resource_key p))

  added-known :
      (s : S) (m : Dict PipelineConfigs) (name : String)
      → contains (pipelines_at m global_resource_key) name ≡ true
      → persist get_object set_object s m
          (next_pipelines added name (pipelines_at m global_resource_key))
        ≡ (ok false, s)
  unfolding persist next_pipelines
  added-known s m name h = ground arith

  added-new :
      (s : S) (m : Dict PipelineConfigs) (name other : String)
      → contains (pipelines_at m global_resource_key) name ≡ false
      → settled
          (get_object
            (persist get_object set_object s m
              (next_pipelines added name (pipelines_at m global_resource_key))).1)
          other
        ≡ (contains (pipelines_at m global_resource_key) other || name == other)
  unfolding next_pipelines registered
  added-new s m name other h = rw h (
      settled-persist s m (Pipelines.add (pipelines_at m global_resource_key) (registered name))
        other
      ∙ contains-add (pipelines_at m global_resource_key) (registered name) other)

  same_name :
      (q : PipelineConfigs) (name other : String)
      → contains q name ≡ true
      → contains q other ≡ (contains q other || name == other)
  same_name q name other h = elim (Bool-cases (name == other)) [
    | inl same ↦ ground (arith, sym (ap (contains q) ((eq_iff name other).0 same)) ∙ h)
    | inr differ ↦ ground (arith, differ)
  ]

  settled-ok :
      (m : Dict PipelineConfigs) (s : S) (gvr : GroupVersionResource) (name : String)
      → get_object s ≡ ok m
      → settled (get_object (update_pipeline_config get_object set_object added gvr s).1) name
        ≡ (contains (pipelines_at m global_resource_key) name || pipeline_name gvr == name)
  unfolding settled
  settled-ok m s gvr name h =
      ap (λ (r : Result Bool × S). settled (get_object r.1) name) (update-ok added gvr s m h)
      ∙ elim (Bool-cases (contains (pipelines_at m global_resource_key) (pipeline_name gvr))) [
        | inl known ↦
            ap (λ (r : Result Bool × S). settled (get_object r.1) name)
              (added-known s m (pipeline_name gvr) known)
            ∙ (ap (λ r. settled r name) h
                ∙ same_name (pipelines_at m global_resource_key) (pipeline_name gvr) name known)
        | inr new ↦ added-new s m (pipeline_name gvr) name new
      ]

  pub settled-update :
      (s : S) (gvr : GroupVersionResource) (name : String)
      → settled (get_object (update_pipeline_config get_object set_object added gvr s).1) name
        ≡ (settled (get_object s) name || pipeline_name gvr == name)
  unfolding settled
  settled-update s gvr name = elim (Result-cases (get_object s)) [
    | inl (e, h) ↦
        ap (λ (r : Result Bool × S). settled (get_object r.1) name) (update-err added gvr s e h)
        ∙ rw h refl
    | inr (m, h) ↦ settled-ok m s gvr name h ∙ rw h refl
  ]

  pub config-resync :
      (n : ℕ) (r : Result Bool × S) → (resync_if_changed get_object set_object n r).config ≡ r.1
  unfolding resync_if_changed
  config-resync n (err e, s) = refl
  config-resync n (ok false, s) = refl
  config-resync n (ok true, s) = refl
