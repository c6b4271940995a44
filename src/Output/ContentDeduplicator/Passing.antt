-- ===== src/Output/ContentDeduplicator/Passing.antt =====
-- What the content deduplicator (internal/output/content_deduplicator.go) does with a call: it passes
-- it on or skips it.
use meshsync.Common.{String, ◌≡◌, refl, ◌⊎◌, inl, inr, Bool-cases, Option, none, ◌==◌}
use meshsync.Common.Dict.{lookup}
use meshsync.Errors.{Error, Result, ok, err}
use meshsync.Broker
use meshsync.Model.{KubernetesResource}
use meshsync.Output.{Write, Call, call, uid_of}
use meshsync.Output.ContentDeduplicator.{
  State, write, forward, publish_and_record, same_hash, write_hashed,
}

module _ {S : Type 0} (hash_resource : KubernetesResource → Result String)
    (real_write : Write S) where
  -- The wrapped writer is left as it was, or as the call leaves it, whose error is returned.
  abbrev pub Passes : Call → State S → Option Error × State S → Type 0
  Passes c w r =
      ((r.0 ≡ none) × (r.1.real ≡ w.real))
      ⊎ ((r.0 ≡ (call real_write c w.real).0) × (r.1.real ≡ (call real_write c w.real).1))

  hashed-Passes :
      (c : Call) (w : State S) (uid : String) (r : Result String)
      → Passes c w (write_hashed real_write c w uid r)
  unfolding write_hashed forward publish_and_record
  hashed-Passes c w uid (err e) = inr (refl, refl)
  hashed-Passes c w uid (ok hash) = elim (Bool-cases (same_hash (lookup w.hash_by_uid uid) hash)) [
    | inl same ↦ rw same (inl (refl, refl))
    | inr new ↦ rw new (inr (refl, refl))
  ]

  pub write-Passes :
      (c : Call) (w : State S) → Passes c w (call (write hash_resource real_write) c w)
  unfolding write forward
  write-Passes c w = elim (Bool-cases (uid_of c.obj == "")) [
    | inl empty ↦ rw empty (inr (refl, refl))
    | inr nonempty ↦ rw nonempty (elim (Bool-cases (c.evtype == Broker.delete)) [
      | inl gone ↦ rw gone (inr (refl, refl))
      | inr live ↦ rw live (hashed-Passes c w (uid_of c.obj) (hash_resource c.obj))
    ])
  ]
