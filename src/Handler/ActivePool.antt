-- ===== src/Handler/ActivePool.antt =====
-- streamChannelPool and getActiveChannels of meshsync/exec.go: the goroutine that publishes the
-- active exec sessions every ten seconds. `publish` is the broker's Publish; an error is only
-- logged. A pointer to an id is the id.
pub mod Tickers
use meshsync.Common.{String, Bool, Option, List, [], ◌∷◌, ◌++◌}
use meshsync.Common.Dict.{Dict}
use meshsync.Errors.{Error}
use meshsync.Handler.Requests.{Published, active}
use meshsync.Handler.Sessions.{active_session_ids}

-- What the select receives: the closed stop channel, or a tick, with the sessions of that time.
pub data Signal : Type 0 where
  stop_closed : Signal
  tick : Dict Bool → Signal

-- Where the goroutine is after some signals.
pub data Pool (B : Type 0) : Type 0 where
  waiting : B → Pool B
  ended : B → Pool B

-- The loop over the ids, which appends a pointer for each.
unfoldable pub append_channels : List String → List String → List String
append_channels channels [] = channels
append_channels channels (id ∷ ids) = append_channels (channels ++ id ∷ []) ids

unfoldable pub get_active_channels : Dict Bool → List String
unfolding append_channels
get_active_channels sessions = append_channels [] (active_session_ids sessions)

module _ {B : Type 0} (publish : String → Published → B → Option Error × B) where
  unfoldable pub publish_pool : Dict Bool → B → B
  unfolding get_active_channels
  publish_pool sessions b =
      (publish "active_sessions.exec" (active (get_active_channels sessions)) b).1

  unfoldable pub stream_channel_pool : List Signal → B → Pool B
  unfolding publish_pool
  stream_channel_pool [] b = waiting b
  stream_channel_pool (stop_closed ∷ rest) b = ended b
  stream_channel_pool (tick sessions ∷ rest) b = stream_channel_pool rest (publish_pool sessions b)
