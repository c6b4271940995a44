-- ===== src/Startup/Consumer.antt =====
-- The messages that a broker takes from the writers of Run (pkg/lib/meshsync/meshsync.go), and what a
-- subscriber that gets them makes of them.
pub mod Deduplicated
use meshsync.Common.{
  String, ◌≡◌, refl, sym, ap, ◌∙◌, ◌⊎◌, inl, inr, Bool, true, false, Option, none, some, List, [],
  ◌∷◌, ◌++◌, All, arith,
}
use mathlib.Core.Path.{subst}
use meshsync.Errors.{Error, Result}
use meshsync.Config.{PipelineConfig}
use meshsync.Model.{KubernetesResource}
use meshsync.Model.Convert.{Codec}
use meshsync.Common.Dict.{lookup}
use meshsync.Output.{Write, Call, call, Message, broker_write}
use meshsync.Output.ContentDeduplicator
use meshsync.Output.ContentDeduplicator.{hash_resource}
use meshsync.Output.ContentDeduplicator.Channel.{Consumer, IsChannel, receive}
use meshsync.Output.ContentDeduplicator.Passing.{Passes, write-Passes}
use meshsync.Output.ContentDeduplicator.Refinement.{dedup-IsChannel, IsSynced}
use meshsync.Output.Streaming.Once.{run}
use meshsync.Pipeline.Handlers.{RegisterInformer}
use meshsync.Pipeline.Handlers.Published.{log_write, IsAllowed}
use meshsync.Pipeline.Handlers.Events.{
  Notification, NotificationDecodes, AllAllowed, handle_all, handle_all-AllAllowed,
}
use meshsync.Pipeline.Handlers.Delivered.{handle_all-replayed, replayed}
use meshsync.Startup.Outputs.{plain, broker_output}

-- A broker with the messages that its Publish took without an error, each with its subject.
pub record Recorded (B : Type 0) : Type 0 where
  pub broker : B
  pub taken : List (String × Message)

abbrev pub keep :
    Option Error → String × Message → List (String × Message) → List (String × Message)
keep none m taken = taken ++ m ∷ []
keep (some e) m taken = taken

abbrev pub recording :
    {B : Type 0}
    → (String → Message → B → Option Error × B)
    → String
    → Message
    → Recorded B
    → Option Error × Recorded B
recording publish subject m r =
    let (e, b) = publish subject m r.broker in
    (e, record { broker = b; taken = keep e (subject, m) r.taken })

-- The first list is the second with some of its elements left out.
pub data IsSublist {ℓ} {A : Type ℓ} : List A → List A → Type ℓ where
  empty : IsSublist [] []
  left_out : (xs ys : List A) (y : A) → IsSublist xs ys → IsSublist xs (ys ++ y ∷ [])
  kept : (xs ys : List A) (y : A) → IsSublist xs ys → IsSublist (xs ++ y ∷ []) (ys ++ y ∷ [])

abbrev pub no_table : Consumer
no_table = record { table = []; untracked = [] }

-- What is published for a call.
abbrev pub sent : String → Call → String × Message
sent mesh_sync c =
    (c.config.publish_to, record { object_type = mesh_sync; event_type = c.evtype; object = c.obj })

module _ (marshal : KubernetesResource → Result String) (config : PipelineConfig) where
  -- What a subscriber that gets these messages, in order, makes of its table.
  abbrev pub table_from : Consumer → List (String × Message) → Consumer
  table_from store [] = store
  table_from store ((subject, m) ∷ ms) =
      table_from
        (receive marshal (record { obj = m.object; evtype = m.event_type; config = config }) store)
        ms

  table_from-append :
      (ms : List (String × Message)) (m : String × Message) (store : Consumer)
      → table_from store (ms ++ m ∷ []) ≡ table_from (table_from store ms) (m ∷ [])
  table_from-append [] m store = refl
  table_from-append ((subject, n) ∷ ms) m store =
      table_from-append ms m
        (receive marshal (record { obj = n.object; evtype = n.event_type; config = config }) store)

  module _ {B : Type 0} (mesh_sync : String)
      (publish : String → Message → B → Option Error × B) where
    abbrev pub view : Recorded B → Consumer
    view r = table_from no_table r.taken

    unfoldable pub AnyBroker : Recorded B → Type 0
    AnyBroker r = Unit

    pub any_broker : (r : Recorded B) → AnyBroker r
    unfolding AnyBroker
    any_broker r = tt

    taken-receive :
        (o : Option Error) (c : Call) (taken : List (String × Message))
        → o ≡ none
        → table_from no_table (
            keep o
              (
                c.config.publish_to,
                record { object_type = mesh_sync; event_type = c.evtype; object = c.obj },
              )
              taken)
          ≡ receive marshal c (table_from no_table taken)
    unfolding receive
    taken-receive none c taken e =
        table_from-append taken
          (
            c.config.publish_to,
            record { object_type = mesh_sync; event_type = c.evtype; object = c.obj },
          )
          no_table
    taken-receive (some e) c taken e' = absurd (ground (arith, e'))

    refused-same :
        (o : Option Error) (m : String × Message) (e : Error) (taken : List (String × Message))
        → o ≡ some e
        → table_from no_table (keep o m taken) ≡ table_from no_table taken
    refused-same none m e taken h = absurd (ground (arith, h))
    refused-same (some e') m e taken h = refl

    pub recording-IsChannel :
        IsChannel marshal (broker_write mesh_sync (recording publish)) view AnyBroker
    unfolding broker_write AnyBroker
    recording-IsChannel = record {
      keeps = λ c r i. tt;
      delivers = λ c r i n. taken-receive _ c r.taken n;
      fails = λ c r e i f. refused-same _ _ e r.taken f;
    }
