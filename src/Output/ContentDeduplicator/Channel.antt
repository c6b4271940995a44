-- ===== src/Output/ContentDeduplicator/Channel.antt =====
-- The contract of a writer towards the consumer behind it, which holds the last payload of each
-- resource: what a successful call delivers, and that a failed one delivers nothing.
use meshsync.Common.{
  String, ◌≡◌, ◌≢◌, ◌⊎◌, refl, ap, false, ◌∙◌, none, some, List, [], ◌∷◌, ◌++◌, arith, ◌==◌, eq_iff,
  if◌then◌else◌,
}
use meshsync.Common.Dict.{Dict, lookup, insert, delete, lookup-insert, lookup-delete}
use meshsync.Errors.{Error, Result}
use meshsync.Broker
use meshsync.Model.{KubernetesResource}
use meshsync.Output.{Write, Call, call, uid_of}

-- `table` has the payload of each resource that has a UID; the others arrive one after another.
pub record Consumer : Type 0 where
  pub table : Dict (Result String)
  pub untracked : List (Result String)

module _ (marshal : KubernetesResource → Result String) where
  unfoldable pub receive : Call → Consumer → Consumer
  receive c store =
      let uid = uid_of c.obj in
      if uid == ""
      then record store { untracked = store.untracked ++ marshal c.obj ∷ [] }
      else if c.evtype == Broker.delete
      then record store { table = delete store.table uid }
      else record store { table = insert store.table uid (marshal c.obj) }

  -- Only the entry of the call's own UID may change.
  pub receive_other :
      (c : Call) (store : Consumer) (u : String)
      → (uid_of c.obj ≡ "") ⊎ (uid_of c.obj ≢ u)
      → lookup (receive c store).table u ≡ lookup store.table u
  unfolding receive
  receive_other c store u h = ground (
    arith,
    lookup-insert store.table (uid_of c.obj) u (marshal c.obj),
    lookup-delete store.table (uid_of c.obj) u,
    eq_iff (uid_of c.obj) "",
    eq_iff (uid_of c.obj) u,
  )

  pub receive_live :
      (c : Call) (store : Consumer)
      → (uid_of c.obj == "") ≡ false
      → (c.evtype == Broker.delete) ≡ false
      → receive c store ≡ record store { table = insert store.table (uid_of c.obj) (marshal c.obj) }
  unfolding receive
  receive_live c store nonempty live = ground arith

  pub record IsChannel {S : Type 0} (write : Write S) (view : S → Consumer) (Inv : S → Type 0)
      : Type 0 where
    pub keeps : (c : Call) (s : S) → Inv s → Inv (call write c s).1
    pub delivers :
        (c : Call) (s : S)
        → Inv s
        → (call write c s).0 ≡ none
        → view (call write c s).1 ≡ receive c (view s)
    pub fails :
        (c : Call) (s : S) (e : Error)
        → Inv s
        → (call write c s).0 ≡ some e
        → view (call write c s).1 ≡ view s

  -- Calls one after another.
  abbrev pub run : {S : Type 0} → Write S → List Call → S → S
  run writer [] s = s
  run writer (c ∷ cs) s = run writer cs (call writer c s).1

  abbrev pub receive_all : List Call → Consumer → Consumer
  receive_all [] store = store
  receive_all (c ∷ cs) store = receive_all cs (receive c store)

  -- Writers that never fail.
  abbrev pub NeverFails : {S : Type 0} → Write S → Type 0
  NeverFails {S} write = (c : Call) (s : S) → (call write c s).0 ≡ none

  -- Behind a channel that never fails, the consumer ends with what the calls themselves make.
  pub run-receive_all :
      {S : Type 0} {write : Write S} {view : S → Consumer} {Inv : S → Type 0}
      → IsChannel write view Inv
      → NeverFails write
      → (cs : List Call) (s : S) → Inv s
      → view (run write cs s) ≡ receive_all cs (view s)
  run-receive_all ch never [] s i = refl
  run-receive_all {write = write} ch never (c ∷ cs) s i =
      run-receive_all ch never cs (call write c s).1 (ch.keeps c s i)
      ∙ ap (receive_all cs) (ch.delivers c s i (never c s))
