-- ===== src/Output/ContentDeduplicator/Refinement.antt =====
-- The content deduplicator over a channel is a channel: suppressing a call never changes what the
-- consumer holds.
use meshsync.Common.{
  String, ◌≡◌, refl, ap, sym, ◌∙◌, ◌≢◌, ◌⊎◌, inl, inr, false, Bool-cases, Option-cases, Option,
  none, some, arith, ◌==◌, eq_iff, if◌then◌else◌,
}
use mathlib.Core.Path.{subst}
use meshsync.Common.Dict.{Dict, lookup, insert, delete, lookup-insert, lookup-delete, insert-same}
use meshsync.Errors.{Error, Result, ok, err}
use meshsync.Broker
use meshsync.Broker.{EventType}
use meshsync.Model.{KubernetesResource}
use meshsync.Output.{Write, Call, call, uid_of}
use meshsync.Output.ContentDeduplicator.{
  State, write, new, hash_resource, forward, publish_and_record, same_hash, write_hashed,
  hashes_after, sum_of, recorded_same,
}
use meshsync.Output.ContentDeduplicator.Channel.{
  Consumer, receive, receive_other, receive_live, IsChannel,
}

module _ (marshal : KubernetesResource → Result String) (sum256 : String → String)
    (no_collision : (a b : String) → sum256 a ≡ sum256 b → a ≡ b) {S : Type 0}
    (real_write : Write S) (view : S → Consumer) {Inv : S → Type 0}
    (channel : IsChannel marshal real_write view Inv) where
  -- Each recorded hash is that of the payload which the consumer holds.
  pub record IsSynced (w : State S) : Type 0 where
    pub inv : Inv w.real
    pub recorded :
        (uid hash : String)
        → lookup w.hash_by_uid uid ≡ some hash
        → (bytes : String) × (lookup (view w.real).table uid ≡ some (ok bytes))
          × (sum256 bytes ≡ hash)

  abbrev pub dedup : Write (State S)
  dedup = write (hash_resource marshal sum256) real_write

  abbrev pub view_of : State S → Consumer
  view_of w = view w.real

  abbrev Good : Call → State S → Option Error × State S → Type 0
  Good c w r =
      IsSynced r.1
      × (r.0 ≡ none → view_of r.1 ≡ receive marshal c (view_of w))
      × ((e : Error) → r.0 ≡ some e → view_of r.1 ≡ view_of w)

  outcome :
      (c : Call) (s : S)
      → Inv s
      → (view (call real_write c s).1 ≡ receive marshal c (view s))
        ⊎ (view (call real_write c s).1 ≡ view s)
  outcome c s i = elim (Option-cases (call real_write c s).0) [
    | inl n ↦ inl (channel.delivers c s i n)
    | inr (e, f) ↦ inr (channel.fails c s e i f)
  ]

  -- A deleted hash is not of the call's resource.
  deleted :
      (c : Call) (w : State S) (u h : String)
      → lookup (delete w.hash_by_uid (uid_of c.obj)) u ≡ some h
      → (lookup w.hash_by_uid u ≡ some h) × ((uid_of c.obj ≡ "") ⊎ (uid_of c.obj ≢ u))
  deleted c w u h l = elim (Bool-cases (uid_of c.obj == u)) [
    | inl own ↦ absurd (ground (arith, lookup-delete w.hash_by_uid (uid_of c.obj) u))
    | inr other ↦ (
      ground (arith, lookup-delete w.hash_by_uid (uid_of c.obj) u),
      inr (λ e. ground (arith, eq_iff (uid_of c.obj) u)),
    )
  ]

  -- A call that is forwarded, with hashes kept only for other resources.
  forward-Good :
      (c : Call) (w : State S) (hashes : Dict String)
      → IsSynced w
      → ((u h : String)
          → lookup hashes u ≡ some h
          → (lookup w.hash_by_uid u ≡ some h) × ((uid_of c.obj ≡ "") ⊎ (uid_of c.obj ≢ u)))
      → Good c w (forward real_write c w.real hashes)
  unfolding forward
  forward-Good c w hashes i others = (
    record {
      inv = channel.keeps c w.real i.inv;
      recorded = λ u h l.
          let (old, other) = others u h l in
          let (bytes, held, sum) = i.recorded u h old in
          let unchanged = receive_other marshal c (view w.real) u other in
          elim (outcome c w.real i.inv) [
            | inl v ↦
                (bytes, ap (λ (store : Consumer). lookup store.table u) v ∙ (unchanged ∙ held), sum)
            | inr v ↦ (bytes, ap (λ (store : Consumer). lookup store.table u) v ∙ held, sum)
          ];
    },
    (λ n. channel.delivers c w.real i.inv n),
    (λ e f. channel.fails c w.real e i.inv f),
  )

  -- After a successful write the consumer holds what the recorded hashes stand for.
  published :
      (c : Call) (w : State S) (bytes : String)
      → IsSynced w
      → (uid_of c.obj == "") ≡ false
      → (c.evtype == Broker.delete) ≡ false
      → marshal c.obj ≡ ok bytes
      → (call real_write c w.real).0 ≡ none
      → (u h : String) → lookup (insert w.hash_by_uid (uid_of c.obj) (sum256 bytes)) u ≡ some h
      → (b : String) × (lookup (view (call real_write c w.real).1).table u ≡ some (ok b))
        × (sum256 b ≡ h)
  published c w bytes i nonempty live m n u h l =
      let now : lookup (view (call real_write c w.real).1).table u
          ≡ (if uid_of c.obj == u then some (marshal c.obj) else lookup (view w.real).table u) =
        ap (λ (store : Consumer). lookup store.table u)
          (channel.delivers c w.real i.inv n ∙ receive_live marshal c (view w.real) nonempty live)
        ∙ lookup-insert (view w.real).table (uid_of c.obj) u (marshal c.obj) in
      let before : (if uid_of c.obj == u then some (sum256 bytes) else lookup w.hash_by_uid u)
          ≡ some h =
        sym (lookup-insert w.hash_by_uid (uid_of c.obj) u (sum256 bytes)) ∙ l in
      elim (Bool-cases (uid_of c.obj == u)) [
        | inl own ↦ (bytes, ground (arith, now, own, m), ground (arith, before, own))
        | inr other ↦
            let (b, held, sum) = i.recorded u h (ground (arith, before, other)) in
            (b, ground (arith, now, other, held), sum)
      ]

  -- A call that is published, its hash recorded unless it fails.
  publish-Good :
      (c : Call) (w : State S) (bytes : String)
      → IsSynced w
      → (uid_of c.obj == "") ≡ false
      → (c.evtype == Broker.delete) ≡ false
      → marshal c.obj ≡ ok bytes
      → Good c w (publish_and_record real_write c w (uid_of c.obj) (sum256 bytes))
  unfolding publish_and_record
  publish-Good c w bytes i nonempty live m = (
    record {
      inv = channel.keeps c w.real i.inv;
      recorded = λ u h l. elim (Option-cases (call real_write c w.real).0) [
        | inl n ↦ published c w bytes i nonempty live m n u h (
            subst
              (λ o. lookup (hashes_after o w.hash_by_uid (uid_of c.obj) (sum256 bytes)) u ≡ some h)
              n l)
        | inr (e, f) ↦
            let (held_bytes, held, sum) = i.recorded u h (
              subst
                (λ o.
                  lookup (hashes_after o w.hash_by_uid (uid_of c.obj) (sum256 bytes)) u ≡ some h)
                f l) in
            (
              held_bytes,
              ap (λ (store : Consumer). lookup store.table u) (channel.fails c w.real e i.inv f)
                  ∙ held,
              sum,
            )
      ];
    },
    (λ n. channel.delivers c w.real i.inv n),
    (λ e f. channel.fails c w.real e i.inv f),
  )

  -- A call that is skipped.
  skip-Good :
      (c : Call) (w : State S) (bytes : String)
      → IsSynced w
      → (uid_of c.obj == "") ≡ false
      → (c.evtype == Broker.delete) ≡ false
      → marshal c.obj ≡ ok bytes
      → lookup w.hash_by_uid (uid_of c.obj) ≡ some (sum256 bytes)
      → Good c w (none, w)
  skip-Good c w bytes i nonempty live m l =
      let (old, held, sum) = i.recorded _ _ l in
      let same = no_collision old bytes sum in
      (
        i,
        (λ n. sym (
            receive_live marshal c (view w.real) nonempty live
            ∙ ap (λ t. record (view w.real) { table = t })
                (insert-same _ _ _ (held ∙ (ap (λ b. some (ok b)) same ∙ ap some (sym m)))))),
        (λ e f. refl),
      )

  hashed-Good :
      (c : Call) (w : State S) (r : Result String)
      → IsSynced w
      → (uid_of c.obj == "") ≡ false
      → (c.evtype == Broker.delete) ≡ false
      → marshal c.obj ≡ r
      → Good c w (write_hashed real_write c w (uid_of c.obj) (sum_of marshal sum256 r))
  unfolding write_hashed sum_of
  hashed-Good c w (err e) i nonempty live m = forward-Good c w _ i (deleted c w)
  hashed-Good c w (ok bytes) i nonempty live m =
      elim (Bool-cases (same_hash (lookup w.hash_by_uid (uid_of c.obj)) (sum256 bytes))) [
        | inl same ↦ rw same (skip-Good c w bytes i nonempty live m (recorded_same _ _ same))
        | inr new ↦ rw new (publish-Good c w bytes i nonempty live m)
      ]

  dedup-Good : (c : Call) (w : State S) → IsSynced w → Good c w (call dedup c w)
  unfolding write hash_resource
  dedup-Good c w i = elim (Bool-cases (uid_of c.obj == "")) [
    | inl empty ↦
        rw empty (forward-Good c w w.hash_by_uid i (λ u h l. (l, inl ((eq_iff _ _).0 empty))))
    | inr nonempty ↦ rw nonempty (elim (Bool-cases (c.evtype == Broker.delete)) [
      | inl gone ↦ rw gone (forward-Good c w _ i (deleted c w))
      | inr live ↦ rw live (hashed-Good c w (marshal c.obj) i nonempty live refl)
    ])
  ]

  -- Over a channel, with hashes that do not collide, the deduplicator is a channel: a call that
  -- returns no error, skipped or not, leaves the consumer with what the call itself would have
  -- made, and one that returns an error leaves it as it was. The recorded hashes stay those of
  -- the payloads that the consumer holds.
  pub dedup-IsChannel : IsChannel marshal dedup view_of IsSynced
  dedup-IsChannel = record {
    keeps = λ c w i. (dedup-Good c w i).0;
    delivers = λ c w i. (dedup-Good c w i).1;
    fails = λ c w e i. (dedup-Good c w i).2 e;
  }
