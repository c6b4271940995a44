-- ===== src/Output/ContentDeduplicator.antt =====
-- internal/output/content_deduplicator.go. json.Marshal and sha256.Sum256 are arguments; a hash is
-- a text of bytes. One call at a time: the mutex guards each access to the map, and two calls for
-- one resource come from one informer, in order.
pub mod Channel
pub mod Passing
pub mod Refinement
pub mod Suppression
use meshsync.Common.{
  String, ◌≡◌, ap, eq_iff, arith, Bool, true, false, Option, none, some, List, [], ◌∷◌, ◌==◌,
  if◌then◌else◌,
}
use meshsync.Common.Dict.{Dict, lookup, insert, delete}
use meshsync.Errors.{Error, Result, ok, err}
use meshsync.Broker
use meshsync.Broker.{EventType}
use meshsync.Config.{PipelineConfig}
use meshsync.Model.{KubernetesResource}
use meshsync.Output.{Write, Call, call, uid_of}

-- `real` is the state of the writer that is wrapped.
pub record State (S : Type 0) : Type 0 where
  pub real : S
  pub hash_by_uid : Dict String

-- Forward the call, with this map of hashes.
forward : {S : Type 0} → Write S → Call → S → Dict String → Option Error × State S
forward real_write c s hashes =
    let (e, s') = call real_write c s in (e, record { real = s'; hash_by_uid = hashes })

-- What is recorded once the write is done: the hash, unless it failed.
hashes_after : Option Error → Dict String → String → String → Dict String
hashes_after none hashes uid hash = insert hashes uid hash
hashes_after (some e) hashes uid hash = hashes

publish_and_record :
    {S : Type 0} → Write S → Call → State S → String → String → Option Error × State S
unfolding hashes_after
publish_and_record real_write c w uid hash =
    let (e, s') = call real_write c w.real in
    (e, record { real = s'; hash_by_uid = hashes_after e w.hash_by_uid uid hash })

same_hash : Option String → String → Bool
same_hash none hash = false
same_hash (some prev) hash = prev == hash

recorded_same : (o : Option String) (hash : String) → same_hash o hash ≡ true → o ≡ some hash
unfolding same_hash
recorded_same none hash h = ground arith
recorded_same (some prev) hash h = ap some ((eq_iff prev hash).0 h)

write_hashed :
    {S : Type 0} → Write S → Call → State S → String → Result String → Option Error × State S
unfolding forward publish_and_record same_hash
write_hashed real_write c w uid (err e) = forward real_write c w.real (delete w.hash_by_uid uid)
write_hashed real_write c w uid (ok hash) =
    if same_hash (lookup w.hash_by_uid uid) hash
    then (none, w)
    else publish_and_record real_write c w uid hash

module _ {S : Type 0} (hash_resource : KubernetesResource → Result String)
    (real_write : Write S) where
  unfoldable pub write : Write (State S)
  unfolding write_hashed
  write obj evtype cfg w =
      let c : Call = record { obj = obj; evtype = evtype; config = cfg } in
      let uid = uid_of obj in
      if uid == ""
      then forward real_write c w.real w.hash_by_uid
      else if evtype == Broker.delete
      then forward real_write c w.real (delete w.hash_by_uid uid)
      else write_hashed real_write c w uid (hash_resource obj)

-- hashResource
module _ (marshal : KubernetesResource → Result String) (sum256 : String → String) where
  sum_of : Result String → Result String
  sum_of (ok bytes) = ok (sum256 bytes)
  sum_of (err e) = err e

  unfoldable pub hash_resource : KubernetesResource → Result String
  unfolding sum_of
  hash_resource obj = sum_of (marshal obj)

unfoldable pub new : {S : Type 0} → S → State S
new s = record { real = s; hash_by_uid = [] }
