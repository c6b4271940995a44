-- ===== src/Startup/Consumer/Deduplicated.antt =====
-- From an informer (internal/pipeline/handlers.go) to the messages that Run
-- (pkg/lib/meshsync/meshsync.go) publishes, with and without the content deduplicator.
use meshsync.Common.{
  String, ◌≡◌, refl, sym, ap, ◌∙◌, inl, inr, Bool, true, false, Option, none, some, List, [], ◌∷◌,
  ◌++◌,
}
use mathlib.Core.Path.{subst}
use meshsync.Errors.{Error, Result}
use meshsync.Config.{PipelineConfig}
use meshsync.Model.{KubernetesResource}
use meshsync.Model.Convert.{Codec}
use meshsync.Common.Dict.{lookup}
use meshsync.Output.{Write, Call, call, Message, broker_write}
use meshsync.Output.ContentDeduplicator
use meshsync.Output.ContentDeduplicator.{hash_resource}
use meshsync.Output.ContentDeduplicator.Channel.{receive}
use meshsync.Output.ContentDeduplicator.Passing.{Passes, write-Passes}
use meshsync.Output.ContentDeduplicator.Refinement.{dedup-IsChannel, IsSynced}
use meshsync.Output.Streaming.Once.{run}
use meshsync.Pipeline.Handlers.{RegisterInformer}
use meshsync.Pipeline.Handlers.Published.{log_write}
use meshsync.Pipeline.Handlers.Events.{Notification, handle_all}
use meshsync.Pipeline.Handlers.Delivered.{handle_all-replayed, replayed}
use meshsync.Startup.Outputs.{plain, broker_output}
use meshsync.Startup.Consumer.{
  Recorded, keep, recording, IsSublist, empty, left_out, kept, no_table, sent, table_from, view,
  AnyBroker, any_broker, recording-IsChannel,
}

module _ (marshal : KubernetesResource → Result String) (sum256 : String → String)
    (no_collision : (a b : String) → sum256 a ≡ sum256 b → a ≡ b) (config : PipelineConfig)
    {B : Type 0} (mesh_sync : String) (publish : String → Message → B → Option Error × B) where
  abbrev pub writer : Bool → Write (ContentDeduplicator.State (Recorded B))
  writer = broker_output mesh_sync (recording publish) (hash_resource marshal sum256)

  abbrev pub at_first : B → ContentDeduplicator.State (Recorded B)
  at_first b = ContentDeduplicator.new (record { broker = b; taken = [] })

  abbrev broker : Write (Recorded B)
  broker = broker_write mesh_sync (recording publish)

  abbrev deduplicated : Write (ContentDeduplicator.State (Recorded B))
  deduplicated = ContentDeduplicator.write (hash_resource marshal sum256) broker

  abbrev undeduplicated : Write (ContentDeduplicator.State (Recorded B))
  undeduplicated = plain mesh_sync (recording publish) (hash_resource marshal sum256)

  abbrev Synced : ContentDeduplicator.State (Recorded B) → Type 0
  Synced =
      IsSynced marshal sum256 no_collision broker (view marshal config mesh_sync publish)
        (recording-IsChannel marshal config mesh_sync publish)

  -- The two states come from the same calls: `w` with the deduplicator and `v` without.
  record AreAlike (w v : ContentDeduplicator.State (Recorded B)) : Type 0 where
    synced : Synced w
    same_table :
        table_from marshal config no_table w.real.taken
        ≡ table_from marshal config no_table v.real.taken
    fewer : IsSublist w.real.taken v.real.taken

  module _ (never : (subject : String) (m : Message) (b : B) → (publish subject m b).0 ≡ none) where
    broker_takes :
        (c : Call) (r : Recorded B)
        → ((call broker c r).0 ≡ none)
          × ((call broker c r).1.taken ≡ r.taken ++ sent mesh_sync c ∷ [])
    unfolding broker_write
    broker_takes c r =
        let n = never c.config.publish_to (sent mesh_sync c).1 r.broker in
        (n, ap (λ o. keep o (sent mesh_sync c) r.taken) n)

    plain_takes :
        (c : Call) (v : ContentDeduplicator.State (Recorded B))
        → (call undeduplicated c v).1.real.taken ≡ v.real.taken ++ sent mesh_sync c ∷ []
    unfolding plain
    plain_takes c v = (broker_takes c v.real).1

    dedup_succeeds :
        (c : Call) (w : ContentDeduplicator.State (Recorded B))
        → Passes (hash_resource marshal sum256) broker c w (call deduplicated c w)
        → (call deduplicated c w).0 ≡ none
    dedup_succeeds c w (inl (n, same)) = n
    dedup_succeeds c w (inr (n, passed)) = n ∙ (broker_takes c w.real).0

    plain_delivers :
        (c : Call) (v : ContentDeduplicator.State (Recorded B))
        → table_from marshal config no_table (call undeduplicated c v).1.real.taken
          ≡ receive marshal c (table_from marshal config no_table v.real.taken)
    unfolding plain
    plain_delivers c v =
        (recording-IsChannel marshal config mesh_sync publish).delivers c v.real
          (any_broker marshal config mesh_sync publish v.real) (broker_takes c v.real).0

    stays_sublist :
        (c : Call) (w v : ContentDeduplicator.State (Recorded B))
        → IsSublist w.real.taken v.real.taken
        → Passes (hash_resource marshal sum256) broker c w (call deduplicated c w)
        → IsSublist (call deduplicated c w).1.real.taken (v.real.taken ++ sent mesh_sync c ∷ [])
    stays_sublist c w v h (inl (n, same)) =
        subst (λ (r : Recorded B). IsSublist r.taken (v.real.taken ++ sent mesh_sync c ∷ []))
          (sym same) (left_out w.real.taken v.real.taken (sent mesh_sync c) h)
    stays_sublist c w v h (inr (n, passed)) =
        subst (λ l. IsSublist l (v.real.taken ++ sent mesh_sync c ∷ []))
          (sym (ap (λ (r : Recorded B). r.taken) passed ∙ (broker_takes c w.real).1))
          (kept w.real.taken v.real.taken (sent mesh_sync c) h)

    call-AreAlike :
        (c : Call) (w v : ContentDeduplicator.State (Recorded B))
        → AreAlike w v
        → AreAlike (call deduplicated c w).1 (call undeduplicated c v).1
    call-AreAlike c w v h =
        let passes = write-Passes (hash_resource marshal sum256) broker c w in
        let channel =
          dedup-IsChannel marshal sum256 no_collision broker (view marshal config mesh_sync publish)
            (recording-IsChannel marshal config mesh_sync publish) in
        record {
          synced = channel.keeps c w h.synced;
          same_table =
              channel.delivers c w h.synced (dedup_succeeds c w passes)
              ∙ (ap (receive marshal c) h.same_table ∙ sym (plain_delivers c v));
          fewer =
              subst (IsSublist (call deduplicated c w).1.real.taken) (sym (plain_takes c v))
                (stays_sublist c w v h.fewer passes);
        }

    run-AreAlike :
        (calls : List Call) (w v : ContentDeduplicator.State (Recorded B))
        → AreAlike w v
        → AreAlike (run deduplicated calls w) (run undeduplicated calls v)
    run-AreAlike [] w v h = h
    run-AreAlike (c ∷ calls) w v h =
        run-AreAlike calls (call deduplicated c w).1 (call undeduplicated c v).1
          (call-AreAlike c w v h)

    start-AreAlike : (b : B) → AreAlike (at_first b) (at_first b)
    unfolding ContentDeduplicator.new lookup AnyBroker
    start-AreAlike b = record {
      synced = record { inv = tt; recorded = λ u h l. cc };
      same_table = refl;
      fewer = empty;
    }

    replays :
        {Service : Type 0} (c : Codec Service) (env : String) (ri : RegisterInformer) (dedup : Bool)
        (ns : List Notification) (calls : List Call) (b : B)
        → handle_all c env log_write ri ns [] ≡ some calls
        → handle_all c env (writer dedup) ri ns (at_first b)
          ≡ some (run (writer dedup) calls (at_first b))
    replays c env ri dedup ns calls b delivered =
        handle_all-replayed c env (writer dedup) ri (at_first b) ns []
        ∙ ap (replayed c env (writer dedup) ri (at_first b)) delivered

    -- If hashes do not collide and the broker's Publish never returns an error, and what an informer
    -- delivers makes no handler panic: with the content deduplicator, the messages that the broker
    -- takes are some of those that it takes without it, in the same order, and a subscriber that
    -- gets them makes the same table of them, the last payload of each resource that has a UID and
    -- every message of the others.
    pub dedup_keeps_table :
        {Service : Type 0} (c : Codec Service) (env : String) (ri : RegisterInformer)
        (ns : List Notification) (calls : List Call) (b : B)
        → handle_all c env log_write ri ns [] ≡ some calls
        → (w : ContentDeduplicator.State (Recorded B)) × (v : ContentDeduplicator.State
            (Recorded B))
          × (handle_all c env (writer true) ri ns (at_first b) ≡ some w)
          × (handle_all c env (writer false) ri ns (at_first b) ≡ some v)
          × IsSublist w.real.taken v.real.taken
          × (table_from marshal config no_table w.real.taken
              ≡ table_from marshal config no_table v.real.taken)
    unfolding broker_output
    dedup_keeps_table c env ri ns calls b delivered =
        let alike = run-AreAlike calls (at_first b) (at_first b) (start-AreAlike b) in
        (
          run deduplicated calls (at_first b),
          run undeduplicated calls (at_first b),
          replays c env ri true ns calls b delivered,
          replays c env ri false ns calls b delivered,
          alike.fewer,
          alike.same_table,
        )
