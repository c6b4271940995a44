-- ===== src/Output/Streaming.antt =====
-- internal/output/inmemory_deduplicator_streaming.go. The mutex is held for the whole call, so
-- calls come one after another.
pub mod Once
use meshsync.Common.{
  String, Bool, true, false, ◌||◌, Option, none, some, List, [], ◌∷◌, ◌==◌, if◌then◌else◌,
}
use meshsync.Common.Dict.{Dict, lookup, insert, has}
use meshsync.Errors.{Error}
use meshsync.Output.{Write, Call, call, uid_of}

-- `seen_uids` is a map to struct{}.
pub record State (S : Type 0) : Type 0 where
  pub real : S
  pub seen_uids : Dict (Unit {0})

unfoldable pub new : {S : Type 0} → S → State S
new s = record { real = s; seen_uids = [] }

-- What the wrapped writer returns and leaves, beside the UIDs seen.
with_seen : {S : Type 0} → Dict (Unit {0}) → Option Error × S → Option Error × State S
with_seen seen (e, s) = (e, record { real = s; seen_uids = seen })

module _ {S : Type 0} (real_write : Write S) where
  unfoldable pub write : Write (State S)
  unfolding with_seen
  write obj evtype cfg w =
      let c : Call = record { obj = obj; evtype = evtype; config = cfg } in
      let uid = uid_of obj in
      if uid == ""
      then with_seen w.seen_uids (call real_write c w.real)
      else if has (lookup w.seen_uids uid)
      then (none, w)
      else with_seen (insert w.seen_uids uid tt) (call real_write c w.real)
