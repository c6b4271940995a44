-- ===== src/Tests/OutputTests.antt =====
-- internal/output on concrete calls.
use meshsync.Common.{String, ◌≡◌, refl, false, none, some, List, [], ◌∷◌, ◌++◌}
use meshsync.Common.Dict.{lookup}
use meshsync.Errors.{message, Result, ok}
use meshsync.Broker
use meshsync.Model.{KubernetesResource}
use meshsync.Output.{Write, Call, call, uid_of}
use meshsync.Output.ContentDeduplicator
use meshsync.Output.ContentDeduplicator.Channel.{Consumer, IsChannel, receive}
use meshsync.Output.ContentDeduplicator.Refinement.{dedup-IsChannel, dedup, view_of, IsSynced}
use meshsync.Output.ContentDeduplicator.Suppression.{IsLive}
use meshsync.Output.InMemory
use meshsync.Output.InMemory.{values}
use meshsync.Output.InMemory.LastWins
use meshsync.Output.InMemory.LastWins.{collects_last, flush_writes_all, last_of, without_uid}
use meshsync.Output.Streaming
use meshsync.Output.Streaming.Once.{streaming_writes_firsts, firsts, run}
use meshsync.Pipeline.Handlers.Published.{log_write}
use meshsync.Tests.Fixtures.{call_for}

-- A writer that always fails, after it has kept the call.
abbrev failing_write : Write (List Call)
failing_write obj evtype config calls = (
  some (message "no broker"),
  calls ++ record { obj = obj; evtype = evtype; config = config } ∷ [],
)

abbrev marshal : KubernetesResource → Result String
marshal r = ok r.kind

abbrev sum256 : String → String
sum256 bytes = bytes

-- A writer over the consumer itself.
abbrev deliver : Write Consumer
deliver obj evtype config store =
    (none, receive marshal (record { obj = obj; evtype = evtype; config = config }) store)

abbrev AllStores : Consumer → Type 0
AllStores store = Unit {0}

abbrev same_view : Consumer → Consumer
same_view store = store

deliver-IsChannel : IsChannel marshal deliver same_view AllStores
deliver-IsChannel = record {
  keeps = λ c s i. tt;
  delivers = λ c s i done. refl;
  fails = λ c s e i failed. cc;
}

dedup-IsChannel_example :
    IsChannel marshal
      (dedup marshal sum256 (λ a b e. e) deliver same_view deliver-IsChannel)
      (view_of marshal sum256 (λ a b e. e) deliver same_view deliver-IsChannel)
      (IsSynced marshal sum256 (λ a b e. e) deliver same_view deliver-IsChannel)
dedup-IsChannel_example =
    dedup-IsChannel marshal sum256 (λ a b e. e) deliver same_view deliver-IsChannel

abbrev added : Call
added = call_for "u1" Broker.add

abbrev updated : Call
updated = call_for "u1" Broker.update

abbrev fresh : ContentDeduplicator.State (List Call)
fresh = record { real = []; hash_by_uid = [] }

abbrev content_dedup : Write (ContentDeduplicator.State (List Call))
content_dedup = ContentDeduplicator.write marshal log_write

added-IsLive : IsLive marshal log_write added
unfolding uid_of
added-IsLive = record { has_uid = refl; not_deleted = refl }

updated-IsLive : IsLive marshal log_write updated
unfolding uid_of
updated-IsLive = record { has_uid = refl; not_deleted = refl }

first_succeeds : (call content_dedup added fresh).0 ≡ none
unfolding ContentDeduplicator.write uid_of log_write lookup
first_succeeds = refl

abbrev three_calls : List Call
three_calls = added ∷ call_for "" Broker.add ∷ updated ∷ []

abbrev nothing_written : List Call
nothing_written = []

collects_last_example :
    ((LastWins.run InMemory.write three_calls (InMemory.new nothing_written)).real
      ≡ nothing_written)
    × (lookup (LastWins.run InMemory.write three_calls (InMemory.new nothing_written)).storage "u1"
        ≡ last_of "u1" three_calls none)
    × ((LastWins.run InMemory.write three_calls
          (InMemory.new nothing_written)).storage_if_no_meta_uid
        ≡ without_uid three_calls)
collects_last_example = collects_last three_calls nothing_written "u1" cc

streaming_writes_firsts_example :
    (run (Streaming.write log_write) three_calls (Streaming.new nothing_written)).real
    ≡ run log_write (firsts (λ u. false) three_calls) nothing_written
streaming_writes_firsts_example = streaming_writes_firsts log_write three_calls nothing_written
