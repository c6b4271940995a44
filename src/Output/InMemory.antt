-- ===== src/Output/InMemory.antt =====
-- internal/output/inmemory_deduplicator.go. The mutex is held for a whole Write, and in Flush while
-- the collected calls are taken out.
pub mod LastWins
use meshsync.Common.{
  String, Bool, true, false, Option, none, some, List, [], ◌∷◌, ◌++◌, ◌==◌, if◌then◌else◌, map,
}
use meshsync.Common.Dict.{Dict, lookup, insert}
use meshsync.Errors.{Error, join_errors}
use meshsync.Output.{Write, Call, call, uid_of}

-- A container of the source is a `Call`.
pub record State (S : Type 0) : Type 0 where
  pub real : S
  pub storage : Dict Call
  pub storage_if_no_meta_uid : List Call

unfoldable pub new : {S : Type 0} → S → State S
new s = record { real = s; storage = []; storage_if_no_meta_uid = [] }

unfoldable pub write : {S : Type 0} → Write (State S)
write obj evtype config w =
    let entity : Call = record { obj = obj; evtype = evtype; config = config } in
    let uid = uid_of obj in
    (
      none,
      if uid == ""
          then record w { storage_if_no_meta_uid = w.storage_if_no_meta_uid ++ entity ∷ [] }
          else record w { storage = insert w.storage uid entity },
    )

append_error : Option Error → List Error → List Error
append_error none errs = errs
append_error (some e) errs = e ∷ errs

-- A loop of Flush: the errors in order, and what the writer leaves.
write_all : {S : Type 0} → Write S → List Call → S → List Error × S
unfolding append_error
write_all real_write [] s = ([], s)
write_all real_write (v ∷ vs) s =
    let (e, s') = call real_write v s in
    let (errs, s'') = write_all real_write vs s' in (append_error e errs, s'')

abbrev pub values : Dict Call → List Call
values = map (λ e. e.1)

-- `order` gives the entries of the map in the order in which the loop meets them.
module _ {S : Type 0} (real_write : Write S) (order : Dict Call → Dict Call) where
  unfoldable pub flush : State S → Option Error × State S
  unfolding write_all
  flush w =
      let (errs, s') = write_all real_write (values (order w.storage)) w.real in
      let (errs', s'') = write_all real_write w.storage_if_no_meta_uid s' in
      (join_errors (errs ++ errs'), new s'')
