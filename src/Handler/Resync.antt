-- ===== src/Handler/Resync.antt =====
-- The resync channel of internal/channels/system.go between the goroutines that ask for a new
-- discovery and the loop of Run (meshsync/handlers.go). The channel has no buffer: a goroutine that
-- sends waits until the loop receives, those that wait are served in the order of their coming, and
-- nothing else wakes them. Goroutines are numbers.
pub mod Waiting
use meshsync.Common.{ℕ, Bool, true, false, List, [], ◌∷◌, ◌++◌, if◌then◌else◌}

-- `running` says whether the loop of Run still runs, `waiting` are the goroutines that wait in a
-- send, the first comer first, and `served` those whose signal was received.
pub record ReSyncChannel : Type 0 where
  pub running : Bool
  pub waiting : List ℕ
  pub served : List ℕ

pub data Event : Type 0 where
  sent : ℕ → Event
  received : Event
  stopped : Event

unfoldable pub new_re_sync_channel : ReSyncChannel
new_re_sync_channel = record { running = true; waiting = []; served = [] }

-- ch <- struct{}{}, of ReSyncInformer and of handleResyncRequest.
unfoldable pub re_sync_informer : ℕ → ReSyncChannel → ReSyncChannel
re_sync_informer sender ch = record ch { waiting = ch.waiting ++ sender ∷ [] }

take_first : List ℕ → ReSyncChannel → ReSyncChannel
take_first [] ch = ch
take_first (sender ∷ rest) ch = record ch { waiting = rest; served = ch.served ++ sender ∷ [] }

-- The cases of the select in Run, which receives only while it runs.
unfoldable pub receive : ReSyncChannel → ReSyncChannel
unfolding take_first
receive ch = if ch.running then take_first ch.waiting ch else ch

unfoldable pub stop : ReSyncChannel → ReSyncChannel
stop ch = record ch { running = false }

unfoldable pub step : Event → ReSyncChannel → ReSyncChannel
unfolding re_sync_informer receive stop
step (sent sender) ch = re_sync_informer sender ch
step received ch = receive ch
step stopped ch = stop ch

unfoldable pub steps : List Event → ReSyncChannel → ReSyncChannel
unfolding step
steps [] ch = ch
steps (e ∷ es) ch = steps es (step e ch)
