-- ===== src/Output/ContentDeduplicator/Suppression.antt =====
-- Which calls the content deduplicator keeps from the writer that it wraps.
use meshsync.Common.{String, ◌≡◌, sym, ◌∙◌, false, none, some, arith, ◌==◌, eq_iff}
use mathlib.Core.Path.{subst}
use meshsync.Common.Dict.{lookup, lookup-insert, lookup-delete}
use meshsync.Errors.{Result, ok}
use meshsync.Broker
use meshsync.Model.{KubernetesResource}
use meshsync.Output.{Write, Call, call, uid_of}
use meshsync.Output.ContentDeduplicator.{
  State, write, forward, same_hash, write_hashed, recorded_same,
}

module _ {S : Type 0} (hash_of : KubernetesResource → Result String) (real_write : Write S) where
  abbrev dedup : Write (State S)
  dedup = write hash_of real_write

  -- A call for a resource with a UID that is no DELETE.
  pub record IsLive (c : Call) : Type 0 where
    pub has_uid : (uid_of c.obj == "") ≡ false
    pub not_deleted : (c.evtype == Broker.delete) ≡ false

  dedup_live :
      (c : Call) (w : State S) (hash : String)
      → IsLive c
      → hash_of c.obj ≡ ok hash
      → call dedup c w ≡ write_hashed real_write c w (uid_of c.obj) (ok hash)
  unfolding write
  dedup_live c w hash live h = ground (arith, h)

  -- A live call that succeeds leaves its hash recorded.
  hash_recorded :
      (c : Call) (w : State S) (hash : String)
      → (write_hashed real_write c w (uid_of c.obj) (ok hash)).0 ≡ none
      → lookup (write_hashed real_write c w (uid_of c.obj) (ok hash)).1.hash_by_uid (uid_of c.obj)
        ≡ some hash
  unfolding write_hashed
  hash_recorded c w hash h = ground (
    arith,
    lookup-insert w.hash_by_uid (uid_of c.obj) (uid_of c.obj) hash,
    eq_iff (uid_of c.obj) (uid_of c.obj),
    recorded_same (lookup w.hash_by_uid (uid_of c.obj)) hash,
  )

  skipped :
      (c : Call) (w : State S) (hash : String)
      → lookup w.hash_by_uid (uid_of c.obj) ≡ some hash
      → write_hashed real_write c w (uid_of c.obj) (ok hash) ≡ (none, w)
  unfolding write_hashed same_hash
  skipped c w hash h = ground (arith, h, eq_iff hash hash)

  -- After a call that succeeded, a further call for the same resource with the same content, ADD
  -- or MODIFIED, is answered without the wrapped writer: nothing changes.
  pub repeat_suppressed :
      (c d : Call) (w : State S) (hash : String)
      → IsLive c
      → IsLive d
      → uid_of d.obj ≡ uid_of c.obj
      → hash_of c.obj ≡ ok hash
      → hash_of d.obj ≡ ok hash
      → (call dedup c w).0 ≡ none
      → call dedup d (call dedup c w).1 ≡ (none, (call dedup c w).1)
  repeat_suppressed c d w hash lc ld same hc hd done =
      let first = dedup_live c w hash lc hc in
      dedup_live d (call dedup c w).1 hash ld hd
      ∙ skipped d (call dedup c w).1 hash (
          rw same (
            subst (λ r. lookup r.1.hash_by_uid (uid_of c.obj) ≡ some hash) (sym first)
              (hash_recorded c w hash (subst (λ r. r.0 ≡ none) first done))))

  evicted :
      (c : Call) (w : State S)
      → c.evtype ≡ Broker.delete
      → (uid_of c.obj == "") ≡ false
      → lookup (call dedup c w).1.hash_by_uid (uid_of c.obj) ≡ none
  unfolding write forward
  evicted c w gone nonempty = ground (
    arith,
    nonempty,
    eq_iff c.evtype Broker.delete,
    lookup-delete w.hash_by_uid (uid_of c.obj) (uid_of c.obj),
    eq_iff (uid_of c.obj) (uid_of c.obj),
  )

  unrecorded :
      (d : Call) (w : State S) (hash : String)
      → lookup w.hash_by_uid (uid_of d.obj) ≡ none
      → ((write_hashed real_write d w (uid_of d.obj) (ok hash)).0 ≡ (call real_write d w.real).0)
        × ((write_hashed real_write d w (uid_of d.obj) (ok hash)).1.real
            ≡ (call real_write d w.real).1)
  unfolding write_hashed
  unrecorded d w hash h = ground (arith, h)

  -- After a DELETE, the next live call for the resource reaches the wrapped writer, whatever was
  -- published of it before.
  pub republish_after_delete :
      (c d : Call) (w : State S) (hash : String)
      → c.evtype ≡ Broker.delete
      → IsLive d
      → uid_of d.obj ≡ uid_of c.obj
      → hash_of d.obj ≡ ok hash
      → let w' = (call dedup c w).1 in
        ((call dedup d w').0 ≡ (call real_write d w'.real).0)
        × ((call dedup d w').1.real ≡ (call real_write d w'.real).1)
  republish_after_delete c d w hash gone ld same hd =
      let w' = (call dedup c w).1 in
      let none_left = evicted c w gone (subst (λ u. (u == "") ≡ false) same ld.has_uid) in
      subst
        (λ r. (r.0 ≡ (call real_write d w'.real).0) × (r.1.real ≡ (call real_write d w'.real).1))
        (sym (dedup_live d w' hash ld hd)) (unrecorded d w' hash (rw same none_left))
