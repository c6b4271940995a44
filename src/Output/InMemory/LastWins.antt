-- ===== src/Output/InMemory/LastWins.antt =====
-- What the in-memory deduplicator collects, and what its Flush writes.
use meshsync.Common.{
  String, ◌≡◌, refl, ap, ◌∙◌, sym, ◌≢◌, Option, none, some, List, [], ◌∷◌, ◌++◌, arith, ◌==◌,
  eq_iff, if◌then◌else◌, keep,
}
use mathlib.Core.List.{append-nil, append_assoc}
use meshsync.Common.Dict.{Dict, lookup, lookup-insert, lookup-nil}
use meshsync.Output.{Write, Call, call, uid_of}
use meshsync.Output.InMemory.{State, new, write, flush, write_all, values}

abbrev pub run : {S : Type 0} → Write S → List Call → S → S
run writer [] s = s
run writer (c ∷ cs) s = run writer cs (call writer c s).1

-- The last call with a UID, or what was there before.
abbrev pub last_of : String → List Call → Option Call → Option Call
last_of uid [] old = old
last_of uid (c ∷ cs) old = last_of uid cs (if uid_of c.obj == uid then some c else old)

abbrev pub without_uid : List Call → List Call
without_uid = keep (λ c. uid_of c.obj == "")

without_uid-cons :
    (c : Call) (cs : List Call) → without_uid (c ∷ []) ++ without_uid cs ≡ without_uid (c ∷ cs)
without_uid-cons c cs = ground arith

module _ {S : Type 0} where
  write-parts :
      (c : Call) (w : State S) (uid : String)
      → uid ≢ ""
      → ((call write c w).1.real ≡ w.real)
        × (lookup (call write c w).1.storage uid
            ≡ (if uid_of c.obj == uid then some c else lookup w.storage uid))
        × ((call write c w).1.storage_if_no_meta_uid
            ≡ w.storage_if_no_meta_uid ++ without_uid (c ∷ []))
  unfolding write
  write-parts c w uid h = ground (
    arith,
    lookup-insert w.storage (uid_of c.obj) uid c,
    eq_iff (uid_of c.obj) uid,
    eq_iff (uid_of c.obj) "",
    append-nil w.storage_if_no_meta_uid,
  )

  run-parts :
      (cs : List Call) (w : State S) (uid : String)
      → uid ≢ ""
      → ((run write cs w).real ≡ w.real)
        × (lookup (run write cs w).storage uid ≡ last_of uid cs (lookup w.storage uid))
        × ((run write cs w).storage_if_no_meta_uid ≡ w.storage_if_no_meta_uid ++ without_uid cs)
  run-parts [] w uid h = (refl, refl, sym (append-nil w.storage_if_no_meta_uid))
  run-parts (c ∷ cs) w uid h =
      let (real, held, loose) = write-parts c w uid h in
      let (real', held', loose') = run-parts cs (call write c w).1 uid h in
      (
        real' ∙ real,
        held' ∙ ap (last_of uid cs) held,
        loose'
            ∙ (ap (λ l. l ++ without_uid cs) loose
                ∙ (append_assoc w.storage_if_no_meta_uid (without_uid (c ∷ [])) (without_uid cs)
                    ∙ ap (λ l. w.storage_if_no_meta_uid ++ l) (without_uid-cons c cs))),
      )

  -- Writing reaches nothing but the collection: for each UID it holds the last call of that UID,
  -- and the calls without a UID in order.
  pub collects_last :
      (cs : List Call) (s : S) (uid : String)
      → uid ≢ ""
      → ((run write cs (new s)).real ≡ s)
        × (lookup (run write cs (new s)).storage uid ≡ last_of uid cs none)
        × ((run write cs (new s)).storage_if_no_meta_uid ≡ without_uid cs)
  collects_last cs s uid h =
      let (real, held, loose) = run-parts cs (new s) uid h in
      (
        real ∙ unfold new in refl,
        held ∙ ap (last_of uid cs) (unfold new in lookup-nil uid),
        loose ∙ unfold new in refl,
      )

  write_all-state :
      (real_write : Write S) (cs : List Call) (s : S)
      → (write_all real_write cs s).1 ≡ run real_write cs s
  unfolding write_all
  write_all-state real_write [] s = refl
  write_all-state real_write (c ∷ cs) s = write_all-state real_write cs (call real_write c s).1

  run-append :
      (real_write : Write S) (cs ds : List Call) (s : S)
      → run real_write (cs ++ ds) s ≡ run real_write ds (run real_write cs s)
  run-append real_write [] ds s = refl
  run-append real_write (c ∷ cs) ds s = run-append real_write cs ds (call real_write c s).1

  -- Flush writes every collected call once, those with a UID first, goes on after errors, and
  -- leaves an empty collection.
  pub flush_writes_all :
      (real_write : Write S) (order : Dict Call → Dict Call) (w : State S)
      → (flush real_write order w).1
        ≡ new (run real_write (values (order w.storage) ++ w.storage_if_no_meta_uid) w.real)
  unfolding flush
  flush_writes_all real_write order w = ap new (
      write_all-state real_write w.storage_if_no_meta_uid _
      ∙ (ap (run real_write w.storage_if_no_meta_uid)
            (write_all-state real_write (values (order w.storage)) w.real)
          ∙ sym (run-append real_write (values (order w.storage)) w.storage_if_no_meta_uid w.real)))
